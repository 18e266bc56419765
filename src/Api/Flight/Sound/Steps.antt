-- ===== src/Api/Flight/Sound/Steps.antt =====
-- That each step of the calls of web/src/lib/api.ts keeps their invariant.
use quagenticus.Base.{
  ℕ, ◌≤◌, ◌<◌, String, Bool, true, false, Option, none, some, List, [], ◌∷◌, ◌≡◌, refl, sym,
  Bool-cases, Option-cases, nat_eq, inl, inr, arith, length, if◌then◌else◌,
}
use mathlib.Core.Path.{subst}
use quagenticus.BoardPage.{truthy}
use quagenticus.Api.Session.{Response}
use quagenticus.Api.Flight.{
  Sender, renews, Promise, under_way, token_set, settled, Phase, idle, sent, waiting, ended,
  refreshed, promise_at, replace_at, Client, set_token, refresh_token, await_promise, respond,
  reject, answer_at, answer_refresh, finally_at, run_finally, go_on, resume_at, resume, begin,
  Event, called, responded, failed, answered, finalized, resumed, token_given, step, run, start,
}
use quagenticus.Api.Flight.Sound.{
  IsFlight, fetches, IsCall, last_told-append, IsSound, length-replace_at, IsFlight-made,
  IsFlight-open, IsFlight-settled, renews-first, IsCall-later, IsCall-few, send_call-IsSound,
  set_call-IsSound,
}

module _ {V : Type 0} where
  abbrev IsRefreshed : Client V → Client V × ℕ → Type 0
  IsRefreshed c (d, p) =
      IsSound d
      × (p < length d.promises)
      × (d.calls ≡ c.calls)
      × ((i : ℕ) → fetches i d.messages ≡ fetches i c.messages)

  refresh_token-IsRefreshed : (c : Client V) → IsSound c → IsRefreshed c (refresh_token c)
  unfolding refresh_token
  refresh_token-IsRefreshed c v = elim (Option-cases c.refresh_promise) [
    | inl e ↦
        rw (e, refresh_token)
          (
            record {
              flight = (refl, refl, subst (λ o. IsFlight o c.promises) e v.flight);
              each = λ i.
                  IsCall-later c.promises (under_way ∷ c.promises) c.messages
                    (refreshed ∷ c.messages) i (c.calls i) (omega arith) (omega arith) (v.each i);
              told = v.told;
            },
            omega arith,
            refl,
            λ i. refl,
          )
    | inr (p, e) ↦
        rw (e, refresh_token)
          (
            v,
            IsFlight-made p c.promises (subst (λ o. IsFlight o c.promises) e v.flight),
            refl,
            λ i. refl,
          )
  ]

  await_promise-IsSound :
      (i : ℕ) (sender : Sender) (res : Response V) (c : Client V) (x : Client V × ℕ)
      → IsRefreshed c x
      → fetches i c.messages ≤ 1
      → IsSound (await_promise i sender res x)
  await_promise-IsSound i sender res c (d, p) (v, l, _, m) h =
      set_call-IsSound i (waiting sender p res) d v (l, omega (arith, m i, h))

  fetches-first :
      (c : Client V) (i : ℕ) (sender : Sender) (retried : Bool)
      → IsSound c
      → c.calls i ≡ sent sender retried
      → fetches i c.messages ≤ (if retried then 2 else 1)
  fetches-first c i sender retried v e = subst (λ x. IsCall c.promises c.messages i x) e (v.each i)

  respond-IsSound :
      (i : ℕ) (res : Response V) (x : Phase V) (c : Client V)
      → c.calls i ≡ x
      → IsSound c
      → IsSound (respond i res x c)
  respond-IsSound i res (sent sender retried) c e v =
      let few = IsCall-few c.promises c.messages i (c.calls i) (v.each i) in
      elim (Bool-cases (renews sender retried res.status)) [
        | inl r ↦ rw r (
            await_promise-IsSound i sender res c (refresh_token c) (refresh_token-IsRefreshed c v) (
              ground (
                arith,
                fetches-first c i sender retried v e,
                renews-first sender retried res.status r,
              )))
        | inr r ↦ rw r (set_call-IsSound i (ended (some res)) c v few)
      ]
  respond-IsSound i res idle c e v = v
  respond-IsSound i res (waiting _ _ _) c e v = v
  respond-IsSound i res (ended _) c e v = v

  reject-IsSound :
      (i : ℕ) (x : Phase V) (c : Client V) → c.calls i ≡ x → IsSound c → IsSound (reject i x c)
  reject-IsSound i (sent sender retried) c e v =
      set_call-IsSound i (ended none) c v
        (IsCall-few c.promises c.messages i (c.calls i) (v.each i))
  reject-IsSound i idle c e v = v
  reject-IsSound i (waiting _ _ _) c e v = v
  reject-IsSound i (ended _) c e v = v

  begin-IsSound :
      (i : ℕ) (sender : Sender) (x : Phase V) (c : Client V)
      → c.calls i ≡ x
      → IsSound c
      → IsSound (begin i sender x c)
  begin-IsSound i sender idle c e v =
      send_call-IsSound i sender false c v
        (subst (λ x. IsCall c.promises c.messages i x) e (v.each i))
  begin-IsSound i sender (sent _ _) c e v = v
  begin-IsSound i sender (waiting _ _ _) c e v = v
  begin-IsSound i sender (ended _) c e v = v

  go_on-IsSound :
      (i : ℕ) (sender : Sender) (res : Response V) (token : Option String) (c : Client V)
      → fetches i c.messages ≤ 1
      → IsSound c
      → IsSound (go_on i sender res token c)
  go_on-IsSound i sender res (some _) c h v = send_call-IsSound i sender true c v h
  go_on-IsSound i sender res none c h v =
      set_call-IsSound i (ended (some res)) c v (omega (arith, h))

  resume_at-IsSound :
      (i : ℕ) (sender : Sender) (res : Response V) (o : Option Promise) (c : Client V)
      → fetches i c.messages ≤ 1
      → IsSound c
      → IsSound (resume_at i sender res o c)
  resume_at-IsSound i sender res (some (settled token)) c h v =
      go_on-IsSound i sender res (truthy token) c h v
  resume_at-IsSound i sender res (some under_way) c h v = v
  resume_at-IsSound i sender res (some (token_set _)) c h v = v
  resume_at-IsSound i sender res none c h v = v

  resume-IsSound :
      (i : ℕ) (x : Phase V) (c : Client V) → c.calls i ≡ x → IsSound c → IsSound (resume i x c)
  resume-IsSound i (waiting sender p res) c e v =
      resume_at-IsSound i sender res (promise_at p c.promises) c
        (subst (λ x. IsCall c.promises c.messages i x) e (v.each i)).1 v
  resume-IsSound i (sent _ _) c e v = v
  resume-IsSound i idle c e v = v
  resume-IsSound i (ended _) c e v = v

  set_token-IsSound : (t : Option String) (c : Client V) → IsSound c → IsSound (set_token t c)
  unfolding set_token
  set_token-IsSound t c v = record {
    flight = v.flight;
    each = v.each;
    told = last_told-append c.told t;
  }

  -- the newest promise makes a step
  replace-IsSound :
      (c : Client V) (p : ℕ) (y : Promise) (o : Option ℕ)
      → IsSound c
      → IsFlight o (replace_at p y c.promises)
      → IsSound (record c { refresh_promise = o; promises = replace_at p y c.promises })
  replace-IsSound c p y o v f = record {
    flight = f;
    each = λ i.
        IsCall-later c.promises (replace_at p y c.promises) c.messages c.messages i (c.calls i)
          (omega (arith, length-replace_at p y c.promises)) (omega arith) (v.each i);
    told = v.told;
  }

  answer_at-IsSound :
      (t : Option String) (p : ℕ) (o : Option Promise) (c : Client V)
      → c.refresh_promise ≡ some p
      → IsSound c
      → IsSound (answer_at t p o c)
  unfolding set_token
  answer_at-IsSound t p (some under_way) c e v =
      subst
        (λ o. IsSound (record (set_token t c) {
          refresh_promise = o;
          promises = replace_at p (token_set t) c.promises;
        }))
        (sym e)
        (replace-IsSound (set_token t c) p (token_set t) (some p) (set_token-IsSound t c v) (
          IsFlight-open p (token_set t) c.promises refl
            (subst (λ o. IsFlight o c.promises) e v.flight)))
  answer_at-IsSound t p (some (token_set _)) c e v = v
  answer_at-IsSound t p (some (settled _)) c e v = v
  answer_at-IsSound t p none c e v = v

  finally_at-IsSound :
      (p : ℕ) (o : Option Promise) (c : Client V)
      → c.refresh_promise ≡ some p
      → IsSound c
      → IsSound (finally_at p o c)
  finally_at-IsSound p (some (token_set t)) c e v = replace-IsSound c p (settled t) none v (
      IsFlight-settled p (settled t) c.promises refl
        (subst (λ o. IsFlight o c.promises) e v.flight))
  finally_at-IsSound p (some under_way) c e v = v
  finally_at-IsSound p (some (settled _)) c e v = v
  finally_at-IsSound p none c e v = v

  answer_refresh-IsSound :
      (t : Option String) (o : Option ℕ) (c : Client V)
      → c.refresh_promise ≡ o
      → IsSound c
      → IsSound (answer_refresh t o c)
  answer_refresh-IsSound t none c e v = v
  answer_refresh-IsSound t (some p) c e v = answer_at-IsSound t p (promise_at p c.promises) c e v

  run_finally-IsSound :
      (o : Option ℕ) (c : Client V) → c.refresh_promise ≡ o → IsSound c → IsSound (run_finally o c)
  run_finally-IsSound none c e v = v
  run_finally-IsSound (some p) c e v = finally_at-IsSound p (promise_at p c.promises) c e v

  step-IsSound : (e : Event V) (c : Client V) → IsSound c → IsSound (step e c)
  unfolding step
  step-IsSound (called i sender) c v = begin-IsSound i sender (c.calls i) c refl v
  step-IsSound (responded i res) c v = respond-IsSound i res (c.calls i) c refl v
  step-IsSound (failed i) c v = reject-IsSound i (c.calls i) c refl v
  step-IsSound (answered t) c v = answer_refresh-IsSound t c.refresh_promise c refl v
  step-IsSound finalized c v = run_finally-IsSound c.refresh_promise c refl v
  step-IsSound (resumed i) c v = resume-IsSound i (c.calls i) c refl v
  step-IsSound (token_given t) c v = set_token-IsSound t c v

  pub run_from-IsSound : (es : List (Event V)) (c : Client V) → IsSound c → IsSound (run es c)
  unfolding run
  run_from-IsSound [] c v = v
  run_from-IsSound (e ∷ es) c v = run_from-IsSound es (step e c) (step-IsSound e c v)

  pub start-IsSound : IsSound (start {V = V})
  start-IsSound = record { flight = tt; each = λ i. omega arith; told = refl }
