-- ===== src/Lib.antt =====
-- Correctness of the web client of the travel planner: the TypeScript application in frontend/src.
--
-- The program lets a signed-in user plan a road trip: stops are collected on a trip, distributed
-- over the days of an itinerary, visited on the road and checked in, also without a connection. The
-- client keeps optimistic copies of what a FastAPI backend stores, sends every change over one API
-- client, and must stay consistent when requests fail, tokens expire and other members edit the
-- same trip.
--
-- Files and the code they model:
-- - Base and its children: options, lists, texts as lists of code points (Base.Codes), tallies, maps
--   filled by a key (Base.Groups) and integers (Base.Int).
-- - Types: the interfaces of frontend/src/types/index.ts. Coordinates are of a type `F`.
-- - Reply: the outcome of an awaited API call, as the page handlers see it.
-- - Api: frontend/src/lib/api.ts. Api.Paths: TRIP_PATH, VERSIONED, versionHeader and noteVersions;
--   Api.Request: doFetch, refreshAccessToken and request of one request at a time; Api.Concurrent:
--   the same cut at their awaits, for requests that overlap, as a step relation; Api.Message: the
--   thrown messages and apiErrorMessage. Paths and bodies are lists of code points, so that the
--   regular expressions of the source are functions by clauses.
-- - Auth: frontend/src/context/AuthContext.tsx. Each async function is cut at its awaits into
--   sections, and a run is any sequence of sections.
-- - Proxy: frontend/src/proxy.ts and safeNext of frontend/src/lib/redirect.ts.
-- - Session: the route handlers of frontend/src/app/api/auth and the cookie jar that they keep.
-- - Confirm: frontend/src/components/common/ConfirmProvider.tsx.
-- - Format: formatDuration of frontend/src/lib/format.ts and describeDelta of lib/schedule.ts.
-- - Schedule: clockMinutes, localMinutes and scheduleStatus of frontend/src/lib/schedule.ts.
-- - Discovery: frontend/src/hooks/useDiscoveryQuota.ts and useVotes.ts.
-- - Suggestions: what the two discovery pages do with suggestions. Suggestions.Radius and
--   Suggestions.Corridor: the handlers of frontend/src/app/trips/[trip_id]/discover/page.tsx and of
--   corridor/page.tsx; Suggestions.Endpoints: their endpoint functions of lib/api.ts.
-- - Budget: the handlers and the listing of frontend/src/app/trips/[trip_id]/budget/page.tsx.
-- - Polyline: decodePolyline of frontend/src/lib/polyline.ts, with its 32-bit operations.
-- - Queue: frontend/src/lib/offlineQueue.ts.
-- - Board: the drag state of frontend/src/app/trips/[trip_id]/itinerary/page.tsx, that is
--   findWaypointContainer, handleDragStart and handleDragOver.
-- - ItineraryPage: the handlers of that page that call the API; ItineraryPage.Distribute is
--   handleDistribute and ItineraryPage.DragEnd is handleDragEnd.
-- - TodayPage: checkIn of frontend/src/app/trips/[trip_id]/today/page.tsx, over the offline queue;
--   TodayPage.Sync: the effect that sends the queue; TodayPage.Journal: notes, spending and photos.
-- - Polling: frontend/src/hooks/useTripChanges.ts, with the versions of Api.Paths.
-- - TripPage: the handlers of frontend/src/app/trips/[trip_id]/page.tsx.
-- - TripsPage: frontend/src/app/trips/page.tsx. TripsPage.Order: its fetches in the order of their
--   answers.
-- - Packing: the handlers of frontend/src/app/trips/[trip_id]/packing/page.tsx.
-- - WaypointList: handleDragEnd of frontend/src/components/routing/WaypointList.tsx.
-- - Worker: frontend/public/sw.js. Worker.Steps: its sections as a step relation; Worker.Routes: its
--   routes, and what frontend/src/lib/offline.ts asks for.
-- - Images: frontend/src/lib/images.ts, and handleFiles of
--   frontend/src/components/memories/PhotoUploadButton.tsx.
-- - Comments: frontend/src/components/collab/CommentsSheet.tsx.
-- - Fetching: the effects of frontend/src/hooks/useTripExtras.ts, useVotes.ts and
--   useCommentCounts.ts that ignore late answers.
-- - Share: frontend/src/components/trips/ShareModal.tsx.
-- - SignIn: frontend/src/app/login/page.tsx and frontend/src/app/register/page.tsx.
-- - NewTrip: frontend/src/app/trips/new/page.tsx.
-- - SchedulePage: the times and lengths of frontend/src/app/trips/[trip_id]/schedule/page.tsx.
-- - Settings: frontend/src/app/settings/page.tsx, with the provider of Auth.
-- - Tests: runs of the definitions on concrete inputs.
--
-- How the parts interact: a page handler calls `request` of Api (here: a server that answers each
-- call, given the calls before it), Auth sets the token that Api sends, the offline queue reads the
-- messages that Api throws, and the pages of a trip share the versions that Api remembers.
--
-- Parameters, for code outside the client: `array_move` of @dnd-kit/sortable, the network and the
-- backend (`Net` of Api.Request, `Server` of the pages), the IndexedDB store (`CheckInStore`, with
-- the documented behaviour of an auto-incremented key), the server's test of If-Match and of
-- `since_version` (`Backend` of Polling.Tab), the Cache Storage of the browser (`CacheStorage`),
-- its canvas (`Browser` of Images, with the rounding of a quotient of floating-point numbers),
-- the R2 storage (`Server` of Images), JavaScript's `parseInt` and `Number`, the wall
-- clock of Intl, and the texts of the browser's own errors.
--
-- Fuel: the decimal digits of a number (Base.Codes.show) are computed on fuel n + 1 for the number
-- n, which is enough since every step divides by ten, and the outer loop of decodePolyline on the
-- length of the text, which is enough since each round takes a code unit. Every other loop of the
-- modelled code is structural recursion, and the one retry of `request` is a second definition.
-- Numbers are natural numbers; the code's own arithmetic stays far below 2 ^ 53, so no overflow is
-- modelled but that of the 32-bit operations of Polyline, and a difference that can be negative is
-- a `Delta`, ahead or behind.
--
-- Not modelled: rendering and styling, maps, the dialogs for members and invites, and the Python
-- backend, which the client sees only through
-- its answers. The guards of the pages against visitors without a session are left out. A handler
-- of a page is one run from its first statement to its last; the events of Auth, Confirm, Packing,
-- Discovery, Polling, Comments, Fetching and Share, the sections of the discovery pages, of the trip
-- list and of the service worker, and the requests of Api.Concurrent interleave.
pub mod Base
pub mod Types
pub mod Reply
pub mod Api
pub mod Auth
pub mod Proxy
pub mod Session
pub mod Confirm
pub mod Queue
pub mod WaypointList
pub mod Board
pub mod ItineraryPage
pub mod TripPage
pub mod TodayPage
pub mod Packing
pub mod Budget
pub mod TripsPage
pub mod Polling
pub mod Format
pub mod Schedule
pub mod Discovery
pub mod Polyline
pub mod Worker
pub mod SchedulePage
pub mod NewTrip
pub mod SignIn
pub mod Settings
pub mod Share
pub mod Fetching
pub mod Comments
pub mod Images
pub mod Suggestions
mod Tests
