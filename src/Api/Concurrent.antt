-- ===== src/Api/Concurrent.antt =====
-- Requests that overlap: `refreshAccessToken` and `request` of frontend/src/lib/api.ts.
-- `_refreshPromise` is `refreshing`. A request is cut at its awaits, and a step is one section of
-- one request, the answer to the shared refresh, or a write of the token by the sign-in context.
use travel_planner.Base.{
  ℕ, suc, ◌==◌, ◌≡◌, Bool, true, false, not, ◌&&◌, Option, none, some, List, [], ◌∷◌, ◌++◌, map,
  if◌then◌else◌, Code, codes, starts_with,
}
use travel_planner.Api.{
  Method, Response, network, session_expired, Result, ok, err, refresh_sent, Api,
}
use travel_planner.Api.Request.{Out, held, does, fetch_of, answered, signed_out}
pub mod Counts
pub mod Traffic
pub mod Progress
pub mod Alone

-- Where a request stands: at its fetch, at the shared refresh, just behind it, or at its end.
pub data Phase (P : Type 0) : Type 0 where
  fetching : (is_retry : Bool) → Phase P
  joined : Phase P
  woken : (new_token : Option Code) → Phase P
  ended : Result (Option P) → Phase P

pub record Pending (P : Type 0) : Type 0 where
  pub method : Method
  pub path : Code
  pub phase : Phase P

pub record Client (P : Type 0) : Type 0 where
  pub api : Api
  pub refreshing : Bool
  pub calls : List (Pending P)

module _ {P : Type 0} where
  abbrev pub moved : Phase P → Pending P → Pending P
  moved phase r = record r { phase = phase }

  unfoldable pub started : Method → Code → Client P → Client P
  started method path c =
      let call : Pending P = record { method = method; path = path; phase = fetching false } in
      record c { api = does (fetch_of method path c.api) c.api; calls = c.calls ++ call ∷ [] }

  unfoldable pub refresh_access_token : Client P → Client P
  refresh_access_token c =
      if c.refreshing then c else record c { api = does refresh_sent c.api; refreshing = true }

  abbrev pub finished :
      List (Pending P) → Pending P → List (Pending P) → Out P → Client P → Client P
  finished before r after (out, api) c = record c {
    api = api;
    calls = before ++ moved (ended out) r ∷ after;
  }

  -- The first test of `request`.
  abbrev pub is_expired : Bool → Code → Response P → Bool
  is_expired is_retry path res =
      res.status == 401 && (not is_retry && not (starts_with path (codes "/auth/")))

  -- A response to the request between `before` and `after`.
  unfoldable pub responded :
      List (Pending P) → Pending P → List (Pending P) → Bool → Response P → Client P → Client P
  responded before r after is_retry res c =
      if is_expired is_retry r.path res
      then refresh_access_token (record c { calls = before ++ moved joined r ∷ after })
      else finished before r after (answered r.path res c.api) c

  abbrev pub wake : Option Code → Pending P → Pending P
  wake token r = elim r.phase [ joined ↦ moved (woken token) r | _ ↦ r ]

  -- The refresh settles: all who wait for it get the one token.
  unfoldable pub refresh_settled : Option Code → Client P → Client P
  refresh_settled token c = record c { refreshing = false; calls = map (wake token) c.calls }

  abbrev pub retried : List (Pending P) → Pending P → List (Pending P) → Code → Client P → Client P
  retried before r after token c =
      let set = record c.api { access_token = some token } in
      record c {
        api = does (fetch_of r.method r.path set) set;
        calls = before ++ moved (fetching true) r ∷ after;
      }

  unfoldable pub resumed :
      List (Pending P) → Pending P → List (Pending P) → Option Code → Client P → Client P
  resumed before r after token c = elim (held token) [
    | some t ↦ retried before r after t c
    | none ↦ finished before r after (err session_expired, signed_out c.api) c
  ]

  -- The steps of the requests that have been started.
  pub data Work (c : Client P) : Client P → Type 0 where
    responds :
        (before after : List (Pending P)) (r : Pending P) (is_retry : Bool) (res : Response P)
        → c.calls ≡ before ++ r ∷ after
        → r.phase ≡ fetching is_retry
        → Work c (responded before r after is_retry res c)
    rejects :
        (before after : List (Pending P)) (r : Pending P) (is_retry : Bool)
        → c.calls ≡ before ++ r ∷ after
        → r.phase ≡ fetching is_retry
        → Work c (finished before r after (err network, c.api) c)
    refreshes : (token : Option Code) → c.refreshing ≡ true → Work c (refresh_settled token c)
    resumes :
        (before after : List (Pending P)) (r : Pending P) (token : Option Code)
        → c.calls ≡ before ++ r ∷ after
        → r.phase ≡ woken token
        → Work c (resumed before r after token c)

  abbrev pub token_written : Option Code → Client P → Client P
  token_written token c = record c { api = record c.api { access_token = token } }

  abbrev pub settled_by : {c d : Client P} → Work c d → ℕ → ℕ
  settled_by (refreshes token h) n = suc n
  settled_by _ n = n

  -- A run of the client, and how many refreshes have been answered in it.
  pub data Run (first : Client P) : ℕ → Client P → Type 0 where
    here : Run first 0 first
    starts :
        {n : ℕ} {c : Client P} (method : Method) (path : Code)
        → Run first n c
        → Run first n (started method path c)
    sets :
        {n : ℕ} {c : Client P} (token : Option Code)
        → Run first n c
        → Run first n (token_written token c)
    works : {n : ℕ} {c d : Client P} → Run first n c → (w : Work c d) → Run first (settled_by w n) d
