-- ===== src/Api/Concurrent/Traffic.antt =====
-- Every step keeps the counts.
use travel_planner.Base.{
  ℕ, suc, ◌≡◌, refl, Bool, true, false, Option, List, [], ◌∷◌, ◌++◌, map, tally, to_ℕ, tally-append,
  length-append, length-map, Bool-cases, Option-cases, inl, inr, Code, arith,
}
use travel_planner.Api.{Method, Response, network, session_expired, err, Api}
use travel_planner.Api.Request.{Out, held, answered, signed_out}
use travel_planner.Api.Request.Session.{is_fetch, is_refresh, answered-Settles}
use travel_planner.Api.Concurrent.{
  Phase, fetching, joined, woken, ended, Pending, Client, moved, started, refresh_access_token,
  finished, is_expired, responded, wake, refresh_settled, retried, resumed, Work, responds, rejects,
  refreshes, resumes, settled_by, Run, here, starts, sets, works,
}
use travel_planner.Api.Concurrent.Counts.{
  is_joined, is_first, may_fetch, IsCounted, IsCounted-moved, refresh_access_token-refreshing,
  refresh_access_token-calls, refresh_access_token-log, signed_out-log, is_expired-first,
}

module _ {P : Type 0} where
  module _ {n : ℕ} {c : Client P} (before after : List (Pending P)) (r : Pending P)
      (e : c.calls ≡ before ++ r ∷ after) where
    -- A request ends without traffic.
    finished-IsCounted :
        (out : Out P)
        → tally is_refresh out.1.log ≡ tally is_refresh c.api.log
        → tally is_fetch out.1.log ≡ tally is_fetch c.api.log
        → IsCounted n c
        → IsCounted n (finished before r after out c)
    finished-IsCounted out same_refreshes same_fetches h =
        IsCounted-moved before after r (finished before r after out c) (ended out.0) e refl
          (inr (refl, refl)) (omega (arith, same_refreshes, h.flights))
          (omega (arith, same_refreshes)) (omega (arith, same_fetches)) h

    responded-IsCounted :
        (is_retry : Bool) (res : Response P)
        → r.phase ≡ fetching is_retry
        → IsCounted n c
        → IsCounted n (responded before r after is_retry res c)
    unfolding responded
    responded-IsCounted is_retry res at_fetch h =
        elim (Bool-cases (is_expired is_retry r.path res)) [
          | inl expired ↦
              let joins = record c { calls = before ++ moved joined r ∷ after } in
              let (one_more, no_fetch) = refresh_access_token-log joins in
              let under_way = refresh_access_token-refreshing joins in
              let is_initial = is_expired-first is_retry r.path res expired in
              rw expired (
                IsCounted-moved before after r (refresh_access_token joins) joined e
                  (refresh_access_token-calls joins) (inl under_way)
                  (rw under_way (omega (arith, one_more, h.flights)))
                  (rw (at_fetch, is_initial) (omega (arith, one_more)))
                  (rw (at_fetch, is_initial) (omega (arith, no_fetch))) h)
          | inr other ↦
              let settled = answered-Settles r.path res c.api in
              rw other
                (finished-IsCounted (answered r.path res c.api) settled.refreshes settled.fetches h)
        ]

    retried-IsCounted :
        (token : Code) (old : Option Code)
        → r.phase ≡ woken old
        → IsCounted n c
        → IsCounted n (retried before r after token c)
    retried-IsCounted token old at_wake h =
        IsCounted-moved before after r (retried before r after token c) (fetching true) e refl
          (inr (refl, refl)) (omega (arith, h.flights)) (omega arith) (rw at_wake (omega arith)) h

    resumed-IsCounted :
        (token : Option Code)
        → r.phase ≡ woken token
        → IsCounted n c
        → IsCounted n (resumed before r after token c)
    unfolding resumed
    resumed-IsCounted token at_wake h = elim (Option-cases (held token)) [
      | inl nothing ↦
          let (same_refreshes, same_fetches) = signed_out-log c.api in
          rw (nothing, resumed)
            (finished-IsCounted (err session_expired, signed_out c.api) same_refreshes same_fetches
              h)
      | inr (t, is_held) ↦ rw (is_held, resumed) (retried-IsCounted t token at_wake h)
    ]

  phase_count-wake :
      (q : Phase P → Bool) (token : Option Code) (calls : List (Pending P))
      → q (woken token) ≡ q joined
      → tally (λ (r : Pending P). q r.phase) (map (wake token) calls)
        ≡ tally (λ (r : Pending P). q r.phase) calls
  phase_count-wake q token [] same = refl
  phase_count-wake q token (r ∷ calls) same =
      omega (arith, here_lem r.phase refl, phase_count-wake q token calls same)
    where
      here_lem :
          (phase : Phase P) → r.phase ≡ phase → to_ℕ (q (wake token r).phase) ≡ to_ℕ (q r.phase)
      here_lem joined at = rw at (rw same refl)
      here_lem (fetching b) at = rw at refl
      here_lem (woken t) at = rw at refl
      here_lem (ended x) at = rw at refl

  joined-wake :
      (token : Option Code) (calls : List (Pending P))
      → tally (λ (r : Pending P). is_joined r.phase) (map (wake token) calls) ≡ 0
  joined-wake token [] = refl
  joined-wake token (r ∷ calls) = omega (arith, here_lem r.phase refl, joined-wake token calls)
    where
      here_lem : (phase : Phase P) → r.phase ≡ phase → to_ℕ (is_joined (wake token r).phase) ≡ 0
      here_lem joined at = rw at refl
      here_lem (fetching b) at = rw at refl
      here_lem (woken t) at = rw at refl
      here_lem (ended x) at = rw at refl

  refresh_settled-IsCounted :
      {n : ℕ} {c : Client P} (token : Option Code)
      → c.refreshing ≡ true
      → IsCounted n c
      → IsCounted (suc n) (refresh_settled token c)
  unfolding refresh_settled
  refresh_settled-IsCounted {n} {c} token under_way h = record {
    waits = inr (joined-wake token c.calls);
    flights = ground (arith, h.flights, under_way);
    causes = omega (
      arith,
      h.causes,
      phase_count-wake is_first token c.calls refl,
      length-map c.calls (wake token),
    );
    fetches = omega (
      arith,
      h.fetches,
      phase_count-wake may_fetch token c.calls refl,
      length-map c.calls (wake token),
    );
  }

  started-IsCounted :
      {n : ℕ} {c : Client P} (method : Method) (path : Code)
      → IsCounted n c
      → IsCounted n (started method path c)
  unfolding started
  started-IsCounted {n} {c} method path h =
      let call : Pending P = record { method = method; path = path; phase = fetching false } in
      record {
        waits = elim h.waits [
          | inl under_way ↦ inl under_way
          | inr nobody ↦ inr (
              omega (
                arith,
                nobody,
                tally-append (λ (r : Pending P). is_joined r.phase) c.calls (call ∷ []),
              ))
        ];
        flights = omega (arith, h.flights);
        causes = omega (
          arith,
          h.causes,
          length-append c.calls (call ∷ []),
          tally-append (λ (r : Pending P). is_first r.phase) c.calls (call ∷ []),
        );
        fetches = omega (
          arith,
          h.fetches,
          length-append c.calls (call ∷ []),
          tally-append (λ (r : Pending P). may_fetch r.phase) c.calls (call ∷ []),
        );
      }

  pub Work-IsCounted :
      {n : ℕ} {c d : Client P} (w : Work c d) → IsCounted n c → IsCounted (settled_by w n) d
  Work-IsCounted (responds before after r is_retry res e at_fetch) h =
      responded-IsCounted before after r e is_retry res at_fetch h
  Work-IsCounted {c = c} (rejects before after r is_retry e at_fetch) h =
      finished-IsCounted before after r e (err network, c.api) refl refl h
  Work-IsCounted (refreshes token under_way) h = refresh_settled-IsCounted token under_way h
  Work-IsCounted (resumes before after r token e at_wake) h =
      resumed-IsCounted before after r e token at_wake h

  -- A client without requests, before any of its traffic.
  abbrev pub quiet : Api → Client P
  quiet api = record { api = record api { log = [] }; refreshing = false; calls = [] }

  -- However requests overlap, and whatever is answered: at most one refresh is under way at any
  -- time, whoever waits for a refresh waits for one that is under way, there are no more refreshes
  -- than requests that have had a response, and no more than two fetches per request.
  pub Run-IsCounted : (api : Api) {n : ℕ} {c : Client P} → Run (quiet api) n c → IsCounted n c
  Run-IsCounted api here = record {
    waits = inr refl;
    flights = refl;
    causes = omega arith;
    fetches = omega arith;
  }
  Run-IsCounted api (starts method path run) = started-IsCounted method path (Run-IsCounted api run)
  Run-IsCounted api (sets token run) =
      let h = Run-IsCounted api run in
      record { waits = h.waits; flights = h.flights; causes = h.causes; fetches = h.fetches }
  Run-IsCounted api (works run w) = Work-IsCounted w (Run-IsCounted api run)
