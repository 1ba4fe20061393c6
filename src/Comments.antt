-- ===== src/Comments.antt =====
-- A thread of comments: frontend/src/components/collab/CommentsSheet.tsx.
-- An async function is cut at its awaits: an event is a section, or what the user does to the form.
use travel_planner.Base.{
  ℕ, suc, String, Bool, true, false, not, ◌||◌, Option, none, some, List, [], ◌∷◌, if◌then◌else◌,
  str_eq, trim,
}
pub mod Sending
pub mod Retry

pub record TripComment : Type 0 where
  pub id : String
  pub user_id : String
  pub author : String
  pub mine : Bool
  pub body : String
  pub deleted : Bool
  pub created_at : String
  pub edited_at : Option String

-- A request of `send`.
pub data Post : Type 0 where
  create : (body : String) → Post
  update : (id body : String) → Post

-- Where a call of `send` stands: behind its request, or behind the reload that follows.
pub data Progress : Type 0 where
  resting posting reloading : Progress

pub record Thread : Type 0 where
  pub comments : List TripComment
  pub draft : String
  pub editing : Option String
  pub sending : Bool
  pub progress : Progress
  -- The requests, the latest first, the answers that have come to them, and the calls of
  -- `onChanged`.
  pub posts : List Post
  pub answers : List Bool
  pub changes : ℕ

pub data Event : Type 0 where
  types : String → Event
  edits : TripComment → Event
  cancels submits : Event
  -- The answer to the request, and the end of the reload behind it.
  accepted refused : Event
  reloaded : Option (List TripComment) → Event
  -- The load when the sheet opens, and the one behind a removal.
  loaded : List TripComment → Event
  removed : Option (List TripComment) → Event

abbrev pub is_blank : String → Bool
is_blank body = str_eq body ""

abbrev pub post_of : Option String → String → Post
post_of none body = create body
post_of (some id) body = update id body

-- `send` up to its request.
unfoldable pub send_comment : Thread → Thread
send_comment s = if is_blank (trim s.draft) then s else record s {
  sending = true;
  progress = posting;
  posts = post_of s.editing (trim s.draft) ∷ s.posts;
}

-- The button "Post" is disabled while a call is under way and for a blank draft.
unfoldable pub press_post : Thread → Thread
press_post s = if s.sending || is_blank (trim s.draft) then s else send_comment s

abbrev pub with_comments : Option (List TripComment) → Thread → Thread
with_comments none s = s
with_comments (some comments) s = record s { comments = comments }

-- The answer to the request.
unfoldable pub send_accepted : Progress → Thread → Thread
send_accepted posting s = record s {
  draft = "";
  editing = none;
  progress = reloading;
  answers = true ∷ s.answers;
}
send_accepted _ s = s

unfoldable pub send_refused : Progress → Thread → Thread
send_refused posting s = record s {
  sending = false;
  progress = resting;
  answers = false ∷ s.answers;
}
send_refused _ s = s

-- Behind the reload, whose own error is only shown.
unfoldable pub send_done : Progress → Option (List TripComment) → Thread → Thread
send_done reloading comments s = record (with_comments comments s) {
  sending = false;
  progress = resting;
  changes = suc s.changes;
}
send_done _ comments s = s

unfoldable pub step : Event → Thread → Thread
unfolding send_comment press_post send_accepted send_refused send_done
step (types text) s = record s { draft = text }
step (edits c) s = record s { editing = some c.id; draft = c.body }
step cancels s = record s { editing = none; draft = "" }
step submits s = press_post s
step accepted s = send_accepted s.progress s
step refused s = send_refused s.progress s
step (reloaded comments) s = send_done s.progress comments s
step (loaded comments) s = record s { comments = comments }
step (removed comments) s = record (with_comments comments s) { changes = suc s.changes }

unfoldable pub run : List Event → Thread → Thread
unfolding step
run [] s = s
run (e ∷ es) s = run es (step e s)
