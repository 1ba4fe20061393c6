-- ===== src/Api/Concurrent/Counts.antt =====
-- What is counted along a run of overlapping requests.
use travel_planner.Base.{
  ℕ, ◌+◌, ◌*◌, ◌≤◌, ◌≡◌, refl, ◌∙◌, Bool, true, false, not, List, ◌∷◌, ◌++◌, length, tally, to_ℕ,
  tally-append, length-append, ◌⊎◌, inl, inr, Code, arith,
}
use travel_planner.Api.{Response, Api}
use travel_planner.Api.Request.{signed_out}
use travel_planner.Api.Request.Session.{is_fetch, is_refresh}
use travel_planner.Api.Concurrent.{
  Phase, fetching, joined, woken, ended, Pending, Client, moved, refresh_access_token, is_expired,
}

pub signed_out-log :
    (s : Api)
    → (tally is_refresh (signed_out s).log ≡ tally is_refresh s.log)
      × (tally is_fetch (signed_out s).log ≡ tally is_fetch s.log)
signed_out-log s = ground arith

module _ {P : Type 0} where
  abbrev pub is_joined : Phase P → Bool
  is_joined joined = true
  is_joined _ = false

  -- The request still waits for its first response.
  abbrev pub is_first : Phase P → Bool
  is_first (fetching is_retry) = not is_retry
  is_first _ = false

  -- The request may send one fetch more.
  abbrev pub may_fetch : Phase P → Bool
  may_fetch (fetching is_retry) = not is_retry
  may_fetch joined = true
  may_fetch (woken token) = true
  may_fetch (ended r) = false

  abbrev pub phase_count : (Phase P → Bool) → Client P → ℕ
  phase_count q c = tally (λ (r : Pending P). q r.phase) c.calls

  -- After `n` answered refreshes.
  pub record IsCounted (n : ℕ) (c : Client P) : Type 0 where
    pub waits : (c.refreshing ≡ true) ⊎ (phase_count is_joined c ≡ 0)
    pub flights : tally is_refresh c.api.log ≡ n + to_ℕ c.refreshing
    pub causes : tally is_refresh c.api.log + phase_count is_first c ≤ length c.calls
    pub fetches : tally is_fetch c.api.log + phase_count may_fetch c ≤ 2 * length c.calls

  module _ (before after : List (Pending P)) (r : Pending P) where
    phase_count-moved :
        (q : Phase P → Bool) (phase : Phase P) (calls : List (Pending P))
        → calls ≡ before ++ r ∷ after
        → tally (λ (s : Pending P). q s.phase) (before ++ moved phase r ∷ after) + to_ℕ (q r.phase)
          ≡ tally (λ (s : Pending P). q s.phase) calls + to_ℕ (q phase)
    phase_count-moved q phase calls e = rw e (
        omega (
          arith,
          tally-append (λ (s : Pending P). q s.phase) before (moved phase r ∷ after),
          tally-append (λ (s : Pending P). q s.phase) before (r ∷ after),
        ))

    length-moved :
        (phase : Phase P) (calls : List (Pending P))
        → calls ≡ before ++ r ∷ after
        → length (before ++ moved phase r ∷ after) ≡ length calls
    length-moved phase calls e = rw e (
        omega
          (arith, length-append before (moved phase r ∷ after), length-append before (r ∷ after)))

    -- One request moves to another phase.
    pub IsCounted-moved :
        {n m : ℕ} {c : Client P} (d : Client P) (phase : Phase P)
        → c.calls ≡ before ++ r ∷ after
        → d.calls ≡ before ++ moved phase r ∷ after
        → (d.refreshing ≡ true) ⊎ ((d.refreshing ≡ c.refreshing) × (is_joined phase ≡ false))
        → tally is_refresh d.api.log ≡ m + to_ℕ d.refreshing
        → tally is_refresh d.api.log + to_ℕ (is_first phase)
          ≤ tally is_refresh c.api.log + to_ℕ (is_first r.phase)
        → tally is_fetch d.api.log + to_ℕ (may_fetch phase)
          ≤ tally is_fetch c.api.log + to_ℕ (may_fetch r.phase)
        → IsCounted n c
        → IsCounted m d
    IsCounted-moved {n} {m} {c} d phase e now wait flight cause fetch h = record {
      waits = elim wait [
        | inl under_way ↦ inl under_way
        | inr (same, leaves) ↦ elim h.waits [
          | inl under_way ↦ inl (same ∙ under_way)
          | inr nobody ↦
              inr (
                rw now
                  (ground (arith, phase_count-moved is_joined phase c.calls e, leaves, nobody)))
        ]
      ];
      flights = flight;
      causes = rw now (
          omega (
            arith,
            cause,
            h.causes,
            phase_count-moved is_first phase c.calls e,
            length-moved phase c.calls e,
          ));
      fetches = rw now (
          omega (
            arith,
            fetch,
            h.fetches,
            phase_count-moved may_fetch phase c.calls e,
            length-moved phase c.calls e,
          ));
    }

  pub refresh_access_token-refreshing : (c : Client P) → (refresh_access_token c).refreshing ≡ true
  unfolding refresh_access_token
  refresh_access_token-refreshing c = ground arith

  pub refresh_access_token-calls : (c : Client P) → (refresh_access_token c).calls ≡ c.calls
  unfolding refresh_access_token
  refresh_access_token-calls c = ground arith

  -- Only the first to need it sends the refresh.
  pub refresh_access_token-log :
      (c : Client P)
      → (tally is_refresh (refresh_access_token c).api.log + to_ℕ c.refreshing
          ≡ tally is_refresh c.api.log + 1)
        × (tally is_fetch (refresh_access_token c).api.log ≡ tally is_fetch c.api.log)
  unfolding refresh_access_token
  refresh_access_token-log c = ground arith

  pub is_expired-first :
      (is_retry : Bool) (path : Code) (res : Response P)
      → is_expired is_retry path res ≡ true
      → is_retry ≡ false
  is_expired-first true path res h = ground arith
  is_expired-first false path res h = refl
