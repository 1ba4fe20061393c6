-- ===== src/Comments/Retry.antt =====
-- A comment that is refused, and one that is accepted.
use travel_planner.Base.{◌≡◌, refl, ap, String, true, false, [], ◌∷◌, trim}
use travel_planner.Comments.{
  posting, Thread, types, submits, accepted, refused, is_blank, post_of, send_comment, press_post,
  send_accepted, send_refused, step, run,
}

pressed :
    (s : Thread)
    → s.sending ≡ false
    → is_blank (trim s.draft) ≡ false
    → press_post s ≡ record s {
      sending = true;
      progress = posting;
      posts = post_of s.editing (trim s.draft) ∷ s.posts;
    }
unfolding press_post send_comment
pressed s rests said = simp (rests, said)

-- With a draft that is not blank and no call under way: a refused comment stays in the form, so
-- that pressing the button again sends the same request, and nothing else is lost.
pub refused-again :
    (s : Thread)
    → s.sending ≡ false
    → is_blank (trim s.draft) ≡ false
    → let once = run (submits ∷ refused ∷ []) s in
      (once.draft ≡ s.draft)
      × (once.editing ≡ s.editing)
      × (once.sending ≡ false)
      × (once.comments ≡ s.comments)
      × ((step submits once).posts
          ≡ post_of s.editing (trim s.draft) ∷ post_of s.editing (trim s.draft) ∷ s.posts)
unfolding run step send_refused
refused-again s rests said = rw (pressed s rests said) (
  refl,
  refl,
  refl,
  refl,
  ap (λ t. t.posts)
      (pressed
        (send_refused posting (record s {
          sending = true;
          progress = posting;
          posts = post_of s.editing (trim s.draft) ∷ s.posts;
        }))
        refl said),
)

-- With a draft that is not blank and no call under way: what is typed while the comment is being
-- posted is thrown away with the answer, although it was never sent.
pub typed-lost :
    (s : Thread) (text : String)
    → s.sending ≡ false
    → is_blank (trim s.draft) ≡ false
    → let after = run (submits ∷ types text ∷ accepted ∷ []) s in
      (after.draft ≡ "") × (after.posts ≡ post_of s.editing (trim s.draft) ∷ s.posts)
unfolding run step send_accepted
typed-lost s text rests said = rw (pressed s rests said) (refl, refl)
