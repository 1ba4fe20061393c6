-- ===== src/Reply.antt =====
-- What an awaited API call gives a handler: a value, or a thrown error with its message, if the
-- thrown value is an `Error`.
use travel_planner.Base.{String, Option}

pub data Reply {ℓ} (A : Type ℓ) : Type ℓ where
  answered : A → Reply A
  failed : Option String → Reply A
