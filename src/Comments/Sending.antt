-- ===== src/Comments/Sending.antt =====
-- One comment at a time.
use travel_planner.Base.{
  ℕ, suc, ◌+◌, ◌≡◌, refl, sym, ap, ◌∙◌, String, Bool, true, false, ◌||◌, Option, none, some, List,
  [], ◌∷◌, if◌then◌else◌, trim, All, length, arith,
}
use travel_planner.Comments.{
  TripComment, Post, create, update, Progress, resting, posting, reloading, Thread, Event, types,
  edits, cancels, submits, accepted, refused, reloaded, loaded, removed, is_blank, post_of,
  send_comment, press_post, with_comments, send_accepted, send_refused, send_done, step, run,
}

abbrev pub body_of : Post → String
body_of (create body) = body
body_of (update id body) = body

abbrev pub is_busy : Progress → Bool
is_busy resting = false
is_busy _ = true

abbrev pub unanswered : Progress → ℕ
unanswered posting = 1
unanswered _ = 0

-- No post is blank, each but the one under way has its answer, and the form is marked as sending
-- for as long as a call is under way.
pub record IsOrderly (s : Thread) : Type 0 where
  pub is_marked : s.sending ≡ is_busy s.progress
  pub are_said : All (λ post. is_blank (body_of post) ≡ false) s.posts
  pub are_answered : length s.posts ≡ unanswered s.progress + length s.answers

body_of_post : (editing : Option String) (body : String) → body_of (post_of editing body) ≡ body
body_of_post none body = refl
body_of_post (some id) body = refl

if-IsOrderly :
    (b : Bool) (s t : Thread)
    → (b ≡ true → IsOrderly s)
    → (b ≡ false → IsOrderly t)
    → IsOrderly (if b then s else t)
if-IsOrderly true s t hs ht = hs refl
if-IsOrderly false s t hs ht = ht refl

quiet : (p : Progress) → is_busy p ≡ false → unanswered p ≡ 0
quiet resting e = refl
quiet posting e = absurd (cc)
quiet reloading e = refl

send_comment-IsOrderly : (s : Thread) → s.sending ≡ false → IsOrderly s → IsOrderly (send_comment s)
unfolding send_comment
send_comment-IsOrderly s rests h =
    if-IsOrderly (is_blank (trim s.draft)) s _ (λ blank. h)
      (λ said. record {
        is_marked = refl;
        are_said = (ap is_blank (body_of_post s.editing (trim s.draft)) ∙ said, h.are_said);
        are_answered =
            let none_open = quiet s.progress (sym h.is_marked ∙ rests) in
            let count = h.are_answered in omega (arith, none_open, count);
      })

press_post-IsOrderly : (s : Thread) → IsOrderly s → IsOrderly (press_post s)
unfolding press_post
press_post-IsOrderly s h =
    if-IsOrderly (s.sending || is_blank (trim s.draft)) s (send_comment s) (λ off. h)
      (λ on. send_comment-IsOrderly s (ground (arith, on)) h)

count_of :
    (s : Thread) (p : Progress)
    → s.progress ≡ p
    → IsOrderly s
    → length s.posts ≡ unanswered p + length s.answers
count_of s p e h = rw⁻¹ e h.are_answered

send_accepted-IsOrderly :
    (s : Thread) (p : Progress) → s.progress ≡ p → IsOrderly s → IsOrderly (send_accepted p s)
unfolding send_accepted
send_accepted-IsOrderly s resting e h = h
send_accepted-IsOrderly s reloading e h = h
send_accepted-IsOrderly s posting e h = record {
  is_marked = h.is_marked ∙ ap is_busy e;
  are_said = h.are_said;
  are_answered = let count = count_of s posting e h in omega (arith, count);
}

send_refused-IsOrderly :
    (s : Thread) (p : Progress) → s.progress ≡ p → IsOrderly s → IsOrderly (send_refused p s)
unfolding send_refused
send_refused-IsOrderly s resting e h = h
send_refused-IsOrderly s reloading e h = h
send_refused-IsOrderly s posting e h = record {
  is_marked = refl;
  are_said = h.are_said;
  are_answered = let count = count_of s posting e h in omega (arith, count);
}

with_comments-IsOrderly :
    (comments : Option (List TripComment)) (s : Thread)
    → IsOrderly s
    → IsOrderly (with_comments comments s)
with_comments-IsOrderly none s h = h
with_comments-IsOrderly (some comments) s h = record {
  is_marked = h.is_marked;
  are_said = h.are_said;
  are_answered = h.are_answered;
}

send_done-IsOrderly :
    (s : Thread) (p : Progress) (comments : Option (List TripComment))
    → s.progress ≡ p
    → IsOrderly s
    → IsOrderly (send_done p comments s)
unfolding send_done
send_done-IsOrderly s resting comments e h = h
send_done-IsOrderly s posting comments e h = h
send_done-IsOrderly s reloading none e h = record {
  is_marked = refl;
  are_said = h.are_said;
  are_answered = count_of s reloading e h;
}
send_done-IsOrderly s reloading (some comments) e h = record {
  is_marked = refl;
  are_said = h.are_said;
  are_answered = count_of s reloading e h;
}

set_IsOrderly :
    (s : Thread) (text : String) (editing : Option String) (comments : List TripComment) (n : ℕ)
    → IsOrderly s
    → IsOrderly (record s { draft = text; editing = editing; comments = comments; changes = n })
set_IsOrderly s text editing comments n h = record {
  is_marked = h.is_marked;
  are_said = h.are_said;
  are_answered = h.are_answered;
}

step-IsOrderly : (e : Event) (s : Thread) → IsOrderly s → IsOrderly (step e s)
unfolding step
step-IsOrderly (types text) s h = set_IsOrderly s text s.editing s.comments s.changes h
step-IsOrderly (edits c) s h = set_IsOrderly s c.body (some c.id) s.comments s.changes h
step-IsOrderly cancels s h = set_IsOrderly s "" none s.comments s.changes h
step-IsOrderly submits s h = press_post-IsOrderly s h
step-IsOrderly accepted s h = send_accepted-IsOrderly s s.progress refl h
step-IsOrderly refused s h = send_refused-IsOrderly s s.progress refl h
step-IsOrderly (reloaded comments) s h = send_done-IsOrderly s s.progress comments refl h
step-IsOrderly (loaded comments) s h = set_IsOrderly s s.draft s.editing comments s.changes h
step-IsOrderly (removed none) s h = set_IsOrderly s s.draft s.editing s.comments (suc s.changes) h
step-IsOrderly (removed (some comments)) s h =
    set_IsOrderly s s.draft s.editing comments (suc s.changes) h

-- Whatever the user and the server do, in any order, a thread that is as `IsOrderly` says stays so: no
-- request with a blank comment is sent, at most one request waits for its answer, and the form is
-- marked as sending exactly while a call is under way.
pub run-IsOrderly : (es : List Event) (s : Thread) → IsOrderly s → IsOrderly (run es s)
unfolding run
run-IsOrderly [] s h = h
run-IsOrderly (e ∷ es) s h = run-IsOrderly es (step e s) (step-IsOrderly e s h)
