-- ===== src/Api/Message/RoundTrip.antt =====
-- The text of an HTTP failure is read back.
use travel_planner.Base.{
  ℕ, ◌≡◌, ◌≢◌, refl, true, false, Option, some, [], ◌∷◌, ◌++◌, Code, codes, show, show-digits,
  show-ne-nil, is_digit, All,
}
use travel_planner.Api.{Failure, http}
use travel_planner.Api.Message.{
  message, skip_digits, after_status, api_text, Detail, body_message, api_error_message,
}

skip_digits-append :
    (ds : Code) (c : ℕ) (rest : Code)
    → All (λ d. is_digit d ≡ true) ds
    → is_digit c ≡ false
    → skip_digits (ds ++ c ∷ rest) ≡ c ∷ rest
unfolding skip_digits
skip_digits-append [] c rest ok stop = rw (stop, skip_digits) refl
skip_digits-append (d ∷ ds) c rest (is_d, ok) stop =
    rw (is_d, skip_digits) (skip_digits-append ds c rest ok stop)

after_status-show :
    (ds text : Code)
    → ds ≢ []
    → All (λ d. is_digit d ≡ true) ds
    → after_status (ds ++ (codes ": " ++ text)) ≡ some text
after_status-show [] text some_digit ok = absurd (some_digit refl)
after_status-show (d ∷ ds) text some_digit (is_d, ok) =
    rw is_d (rw (skip_digits-append ds b':' (b' ' ∷ text) ok refl) refl)

api_text-http :
    (browser : Failure → Code) (status : ℕ) (text : Code)
    → api_text (message browser (http status text)) ≡ some text
unfolding api_text message
api_text-http browser status text =
    after_status-show (show status) text (show-ne-nil status) (show-digits status)

-- The message of an HTTP failure, of whatever status, gives back what the server said: the `detail`
-- of its body if that is a text, the validation errors if it is a list, else the body itself. An
-- empty body or list of errors gives the fallback.
pub api_error_message-http :
    (parse : Code → Option Detail) (browser : Failure → Code) (status : ℕ) (body default : Code)
    → api_error_message parse (some (message browser (http status body))) default
      ≡ body_message parse body default (parse body)
unfolding api_error_message
api_error_message-http parse browser status body default =
    rw (api_text-http browser status body, api_error_message) refl
