-- ===== src/Tests.antt =====
-- Concrete inputs: runs of the definitions, and the theorems at inputs that meet their hypotheses.
mod BoardTests
mod QueueTests
mod ApiTests
mod AuthTests
mod SiteTests
mod TripTests
mod SessionTests
mod ScheduleTests
mod DiscoveryTests
mod PolylineTests
mod SuggestionTests
mod BudgetTests
mod ConcurrentTests
mod PollingTests
mod SyncTests
mod TripsTests
mod WorkerTests
mod SettingsTests
mod ShareTests
mod FetchingTests
mod CommentTests
mod ImageTests
