-- ===== src/Tests/CommentTests.antt =====
-- A comment that is posted, refused and edited.
use travel_planner.Base.{◌≡◌, refl, false, none, List, [], ◌∷◌, trim}
use travel_planner.Comments.{Thread, Event, submits, accepted, reloaded, create, resting, run}
use travel_planner.Comments.Sending.{IsOrderly, run-IsOrderly}

abbrev thread : Thread
thread = record {
  comments = [];
  draft = " see you there ";
  editing = none;
  sending = false;
  progress = resting;
  posts = [];
  answers = [];
  changes = 0;
}

thread-IsOrderly : IsOrderly thread
thread-IsOrderly = record { is_marked = refl; are_said = tt; are_answered = refl }

abbrev twice : List Event
twice = submits ∷ submits ∷ accepted ∷ submits ∷ reloaded none ∷ submits ∷ []

one_post : (run twice thread).posts ≡ create "see you there" ∷ []
unfolding run trim
one_post = refl

run-IsOrderly_example : IsOrderly (run twice thread)
run-IsOrderly_example = run-IsOrderly twice thread thread-IsOrderly
