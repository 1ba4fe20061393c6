-- ===== src/Api/Concurrent/Alone.antt =====
-- One request by itself.
use travel_planner.Base.{
  ℕ, ◌==◌, ◌≡◌, refl, ap, ◌∙◌, Bool, true, false, not, ◌&&◌, Option, none, some, List, [], ◌∷◌,
  Bool-cases, Option-cases, inl, inr, Code, arith, starts_with, codes, if◌then◌else◌,
}
use travel_planner.Api.{Method, Response, Net, Api, Effect, refresh_sent}
use travel_planner.Api.Request.{
  Out, held, does, fetch_of, answered, signed_out, new_token, request_retry, after_refresh, request,
}
use travel_planner.Api.Concurrent.{
  Work, Phase, fetching, woken, ended, Pending, Client, started, refresh_access_token, is_expired,
  responded, refresh_settled, resumed, responds, rejects, refreshes, resumes,
}
use travel_planner.Api.Concurrent.Progress.{Works, idle, then_works}

held-held : (token : Option Code) → held (held token) ≡ held token
held-held none = refl
held-held (some []) = refl
held-held (some (c ∷ cs)) = refl

-- `new_token` of the answer to a refresh.
abbrev token_of : Option (Bool × Option Code) → Option Code
token_of answer = elim answer [
  | none ↦ none
  | some (is_fine, token) ↦ if is_fine then held token else none
]

held-token_of : (answer : Option (Bool × Option Code)) → held (token_of answer) ≡ token_of answer
held-token_of none = refl
held-token_of (some (true, token)) = held-held token
held-token_of (some (false, token)) = refl

abbrev pub alone : {P : Type 0} → Api → Client P
alone api = record { api = api; refreshing = false; calls = [] }

module _ {P : Type 0} (net : Net P) where
  held-new_token : (log : List Effect) → held (new_token net log) ≡ new_token net log
  held-new_token log = held-token_of (net.refreshed log)

  -- What the section takes as an answer is what the network gives after the effects so far.
  abbrev pub IsOf : {c d : Client P} → Work c d → Type 0
  IsOf {c = c} (responds before after r is_retry res stands phase) =
      net.respond c.api.log ≡ some res
  IsOf {c = c} (rejects before after r is_retry stands phase) = net.respond c.api.log ≡ none
  IsOf {c = c} (refreshes token asked) = token ≡ new_token net c.api.log
  IsOf (resumes before after r token stands phase) = Unit

  abbrev pub AreOf : {c : Client P} {k : ℕ} {d : Client P} → Works c k d → Type 0
  AreOf idle = Unit
  AreOf (then_works ws w) = AreOf ws × IsOf w

  module _ (method : Method) (path : Code) where
    abbrev call : Phase P → Pending P
    call phase = record { method = method; path = path; phase = phase }

    -- The sections that follow `c`, answered by the network, lead to the outcome `out` of its only request.
    abbrev Leads : Client P → Out P → Type 0
    Leads c out =
        (k : ℕ) × (d : Client P) × (ws : Works c k d) × AreOf ws
        × (d.api ≡ out.1)
        × (d.calls ≡ call (ended out.0) ∷ [])

    not_again : (res : Response P) → is_expired true path res ≡ false
    not_again res = ground arith

    retry_alone :
        {c : Client P} {k : ℕ} {d : Client P} (before : Api)
        → (ws : Works c k d) → AreOf ws
        → d.calls ≡ call (fetching true) ∷ []
        → d.api ≡ does (fetch_of method path before) before
        → Leads c (request_retry net method path before)
    unfolding request_retry responded
    retry_alone {d = d} before ws of_net only same =
        elim (Option-cases (net.respond (does (fetch_of method path before) before).log)) [
          | inl failed ↦
              rw (failed, request_retry)
                (
                  _,
                  _,
                  then_works ws (rejects [] [] (call (fetching true)) true only refl),
                  (of_net, ap (λ (t : Api). net.respond t.log) same ∙ failed),
                  same,
                  refl,
                )
          | inr (res, here) ↦
              rw (here, request_retry)
                (
                  _,
                  responded [] (call (fetching true)) [] true res d,
                  then_works ws (responds [] [] (call (fetching true)) true res only refl),
                  (of_net, ap (λ (t : Api). net.respond t.log) same ∙ here),
                  rw (not_again res, responded) (ap (λ s. (answered path res s).1) same),
                  rw (not_again res, responded)
                      (ap (λ s. call (ended (answered path res s).0) ∷ []) same),
                )
        ]

    abbrev sent_by : Api → Api
    sent_by s = does (fetch_of method path s) s

    -- What the request has sent when its refresh begins.
    abbrev asked : Api → Api
    asked api = does refresh_sent (does (fetch_of method path api) api)

    refresh_alone :
        {c : Client P} {k : ℕ} {d : Client P} (token : Option Code) (s : Api)
        → held token ≡ token
        → (ws : Works c k d) → AreOf ws
        → d.calls ≡ call (woken token) ∷ []
        → d.api ≡ s
        → Leads c (after_refresh net method path token s)
    unfolding after_refresh resumed
    refresh_alone {d = d} none s is_held ws of_net only same = (
      _,
      _,
      then_works ws (resumes [] [] (call (woken none)) none only refl),
      (of_net, tt),
      ap signed_out same,
      refl,
    )
    refresh_alone (some []) s is_held ws of_net only same = absurd (cc)
    refresh_alone {d = d} (some (c ∷ cs)) s is_held ws of_net only same =
        retry_alone {d = resumed [] (call (woken (some (c ∷ cs)))) [] (some (c ∷ cs)) d}
          (record s { access_token = some (c ∷ cs) })
          (then_works ws (resumes [] [] (call (woken (some (c ∷ cs)))) (some (c ∷ cs)) only refl))
          (of_net, tt) refl
          (ap (λ (t : Api). sent_by (record t { access_token = some (c ∷ cs) })) same)

    -- A request that no other overlaps does what `request` does, which runs it in one go: there are
    -- sections, each with what the network answers after the effects so far, that lead from its
    -- start to the same result and the same client.
    pub alone-request :
        (api : Api)
        → (k : ℕ) × (d : Client P) × (ws : Works (started method path (alone api)) k d) × AreOf ws
          × (d.api ≡ (request net method path api).1)
          × (d.calls
              ≡ record {
                method = method;
                path = path;
                phase = ended (request net method path api).0;
              }
                ∷ [])
    unfolding started request responded refresh_settled refresh_access_token
    alone-request api =
        elim (Option-cases (net.respond (does (fetch_of method path api) api).log)) [
          | inl failed ↦
              rw (failed, request)
                (
                  _,
                  _,
                  then_works idle (rejects [] [] (call (fetching false)) false refl refl),
                  (tt, failed),
                  refl,
                  refl,
                )
          | inr (res, here) ↦
              elim (Bool-cases (res.status == 401 && not (starts_with path (codes "/auth/")))) [
                | inl expired ↦
                    rw (here, request)
                      (rw expired (
                        refresh_alone (new_token net (asked api).log) (asked api)
                          (held-new_token (asked api).log)
                          (then_works
                            (then_works idle
                              (responds [] [] (call (fetching false)) false res refl refl))
                            (refreshes (new_token net (asked api).log)
                              (rw (expired, responded) refl)))
                          ((tt, here), rw (expired, responded) refl) (rw (expired, responded) refl)
                          (rw (expired, responded) refl)))
                | inr other ↦
                    rw (here, request)
                      (rw other (
                        _,
                        _,
                        then_works idle
                            (responds [] [] (call (fetching false)) false res refl refl),
                        (tt, here),
                        rw (other, responded) refl,
                        rw (other, responded) refl,
                      ))
              ]
        ]
