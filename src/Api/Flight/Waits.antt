-- ===== src/Api/Flight/Waits.antt =====
-- That no call of web/src/lib/api.ts which waits for a renewal of the token is left waiting.
use quagenticus.Base.{
  ℕ, String, true, false, Option, none, some, List, [], ◌∷◌, ◌≡◌, refl, ap, sym, ◌∙◌, Bool-cases,
  Option-cases, ◌==◌, nat_eq, inl, inr, ◌⊎◌, arith, length, All,
}
use mathlib.Core.Path.{subst}
use quagenticus.BoardPage.{truthy}
use quagenticus.Api.Session.{Response}
use quagenticus.Api.Flight.{
  Sender, Promise, under_way, token_set, settled, Phase, sent, waiting, ended, promise_at,
  replace_at, Client, send_call, set_token, answer_at, answer_refresh, finally_at, run_finally,
  go_on, resume_at, resume, Event, answered, finalized, resumed, step, run, start,
}
use quagenticus.Api.Flight.Sound.Steps.{run_from-IsSound, start-IsSound}
use quagenticus.Api.Flight.Sound.Steps.{run_from-IsSound, start-IsSound}
use quagenticus.Api.Flight.Sound.{
  is_open, IsSettled, IsFlight, IsCall, IsSound, promise_at-made, length-replace_at,
}

settled-at :
    (p : ℕ) (x : Promise) (ps : List Promise)
    → All IsSettled ps
    → promise_at p ps ≡ some x
    → is_open x ≡ false
settled-at p x [] a h = absurd (cc h)
settled-at p x (y ∷ ys) (e, a) h = elim (Bool-cases (p == length ys)) [
  | inl k ↦ ground (arith, k, h, e)
  | inr k ↦ settled-at p x ys a (ground (arith, k, h))
]

-- an open promise is `refreshPromise`
open-current :
    (o : Option ℕ) (ps : List Promise) (p : ℕ) (x : Promise)
    → IsFlight o ps
    → promise_at p ps ≡ some x
    → is_open x ≡ true
    → o ≡ some p
open-current none ps p x f h k = absurd (cc (settled-at p x ps f h, k))
open-current (some q) (y ∷ ys) p x (e, o, a) h k = elim (Bool-cases (p == length ys)) [
  | inl l ↦ ground (arith, e, l)
  | inr l ↦ absurd (cc (settled-at p x ys a (ground (arith, l, h)), k))
]
open-current (some q) [] p x f h k = absurd (cc f)

promise_at-replace_at :
    (p : ℕ) (x y : Promise) (ps : List Promise)
    → promise_at p ps ≡ some x
    → promise_at p (replace_at p y ps) ≡ some y
promise_at-replace_at p x y [] h = absurd (cc h)
promise_at-replace_at p x y (z ∷ zs) h =
    ground (arith, h, length-replace_at p y zs, promise_at-replace_at p x y zs)

-- a settled promise stays as it is while an open one makes a step
promise_at-other :
    (p q : ℕ) (x y : Promise) (u : Option String) (ps : List Promise)
    → promise_at p ps ≡ some (settled u)
    → promise_at q ps ≡ some x
    → is_open x ≡ true
    → promise_at p (replace_at q y ps) ≡ some (settled u)
promise_at-other p q x y u [] h k o = absurd (cc h)
promise_at-other p q x y u (z ∷ zs) h k o =
    ground (arith, h, k, o, length-replace_at q y zs, promise_at-other p q x y u zs)

module _ {V : Type 0} where
  abbrev Finalizes : ℕ → Option String → Client V → Type 0
  Finalizes p u c = promise_at p (run_finally c.refresh_promise c).promises ≡ some (settled u)

  abbrev Settles : ℕ → Client V → Type 0
  Settles p c = (u : Option String) × (promise_at p c.promises ≡ some (settled u))

  finalized-settled :
      (p : ℕ) (u : Option String) (o : Option ℕ) (c : Client V)
      → promise_at p c.promises ≡ some (settled u)
      → promise_at p (run_finally o c).promises ≡ some (settled u)
  finalized-settled p u none c h = h
  finalized-settled p u (some q) c h = go (promise_at q c.promises) refl
    where
      go :
          (x : Option Promise)
          → promise_at q c.promises ≡ x
          → promise_at p (finally_at q x c).promises ≡ some (settled u)
      go (some (token_set t)) e =
          promise_at-other p q (token_set t) (settled t) u c.promises h e refl
      go (some under_way) e = h
      go (some (settled _)) e = h
      go none e = h

  answered-settled :
      (p : ℕ) (u t : Option String) (o : Option ℕ) (c : Client V)
      → promise_at p c.promises ≡ some (settled u)
      → promise_at p (answer_refresh t o c).promises ≡ some (settled u)
  unfolding set_token
  answered-settled p u t none c h = h
  answered-settled p u t (some q) c h = go (promise_at q c.promises) refl
    where
      go :
          (x : Option Promise)
          → promise_at q c.promises ≡ x
          → promise_at p (answer_at t q x c).promises ≡ some (settled u)
      go (some under_way) e = promise_at-other p q under_way (token_set t) u c.promises h e refl
      go (some (token_set _)) e = h
      go (some (settled _)) e = h
      go none e = h

  finalized-token_set :
      (p : ℕ) (u : Option String) (c : Client V)
      → c.refresh_promise ≡ some p
      → promise_at p c.promises ≡ some (token_set u)
      → promise_at p (step finalized c).promises ≡ some (settled u)
  unfolding step
  finalized-token_set p u c e h =
      rw (e, h, step) (promise_at-replace_at p (token_set u) (settled u) c.promises h)

  -- the answer meets the promise that `refreshPromise` is
  answer_refresh-at :
      (p : ℕ) (t : Option String) (c : Client V) (x : Promise)
      → c.refresh_promise ≡ some p
      → promise_at p c.promises ≡ some x
      → answer_refresh t c.refresh_promise c ≡ answer_at t p (some x) c
  answer_refresh-at p t c x e h = ap (λ o. answer_refresh t o c) e ∙ ap (λ o. answer_at t p o c) h

  -- once it is answered and its `finally` has run, a promise that was made has settled
  answered-Settles :
      (p : ℕ) (t : Option String) (c : Client V) (x : Promise)
      → IsFlight c.refresh_promise c.promises
      → promise_at p c.promises ≡ some x
      → Settles p (step finalized (step (answered t) c))
  unfolding step set_token
  answered-Settles p t c (settled u) f h = (
    u,
    finalized-settled p u _ (step (answered t) c) (answered-settled p u t c.refresh_promise c h),
  )
  answered-Settles p t c (token_set u) f h =
      let e = open-current c.refresh_promise c.promises p (token_set u) f h refl in
      (
        u,
        subst (Finalizes p u) (sym (answer_refresh-at p t c (token_set u) e h))
            (finalized-token_set p u c e h),
      )
  answered-Settles p t c under_way f h =
      let e = open-current c.refresh_promise c.promises p under_way f h refl in
      (
        t,
        subst (Finalizes p t) (sym (answer_refresh-at p t c under_way e h)) (
            finalized-token_set p t (answer_at t p (some under_way) c) e
              (promise_at-replace_at p under_way (token_set t) c.promises h)),
      )

  calls-answered :
      (t : Option String) (o : Option ℕ) (c : Client V) → (answer_refresh t o c).calls ≡ c.calls
  unfolding set_token
  calls-answered t none c = refl
  calls-answered t (some p) c = go (promise_at p c.promises)
    where
      go : (x : Option Promise) → (answer_at t p x c).calls ≡ c.calls
      go none = refl
      go (some under_way) = refl
      go (some (token_set _)) = refl
      go (some (settled _)) = refl

  calls-finalized : (o : Option ℕ) (c : Client V) → (run_finally o c).calls ≡ c.calls
  calls-finalized none c = refl
  calls-finalized (some p) c = go (promise_at p c.promises)
    where
      go : (x : Option Promise) → (finally_at p x c).calls ≡ c.calls
      go none = refl
      go (some under_way) = refl
      go (some (token_set _)) = refl
      go (some (settled _)) = refl

  calls-renewed :
      (t : Option String) (c : Client V) → (step finalized (step (answered t) c)).calls ≡ c.calls
  unfolding step
  calls-renewed t c =
      calls-finalized _ (answer_refresh t c.refresh_promise c)
      ∙ calls-answered t c.refresh_promise c

  -- what a call that waited does next: the second and last attempt, or it ends with its 401
  abbrev pub IsResumed : Sender → Response V → Phase V → Type 0
  IsResumed sender res x = (x ≡ sent sender true) ⊎ (x ≡ ended (some res))

  go_on-IsResumed :
      (i : ℕ) (sender : Sender) (res : Response V) (o : Option String) (c : Client V)
      → IsResumed sender res ((go_on i sender res o c).calls i)
  unfolding send_call
  go_on-IsResumed i sender res (some _) c = inl (ground arith)
  go_on-IsResumed i sender res none c = inr (ground arith)

  resumed-IsResumed :
      (i : ℕ) (sender : Sender) (p : ℕ) (res : Response V) (c : Client V)
      → c.calls i ≡ waiting sender p res
      → Settles p c
      → IsResumed sender res ((step (resumed i) c).calls i)
  unfolding step
  resumed-IsResumed i sender p res c e (u, h) =
      subst (λ x. IsResumed sender res ((resume i x c).calls i)) (sym e)
        (subst (λ o. IsResumed sender res ((resume_at i sender res o c).calls i)) (sym h)
          (go_on-IsResumed i sender res (truthy u) c))

  waits-Settles :
      (i : ℕ) (t : Option String) (c : Client V) (sender : Sender) (p : ℕ) (res : Response V)
      → IsSound c
      → c.calls i ≡ waiting sender p res
      → Settles p (step finalized (step (answered t) c))
  waits-Settles i t c sender p res v e =
      let made =
        promise_at-made p c.promises (subst (IsCall c.promises c.messages i) e (v.each i)).0 in
      elim (Option-cases (promise_at p c.promises)) [
        | inl none_at ↦ absurd (cc (made, none_at))
        | inr (x, h) ↦ answered-Settles p t c x v.flight h
      ]

  -- A request or upload that awaits a renewal is never stuck: whatever has happened before, and
  -- whichever promise it was given, once the renewal under way is answered, in any way, its `finally`
  -- has run and the call continues, it has been sent again or has ended with the 401.
  pub run-IsResumed :
      (es : List (Event V)) (i p : ℕ) (sender : Sender) (res : Response V) (t : Option String)
      → (run es start).calls i ≡ waiting sender p res
      → IsResumed sender res
          ((run (answered t ∷ finalized ∷ resumed i ∷ []) (run es start)).calls i)
  unfolding run
  run-IsResumed es i p sender res t e =
      let c = run es start in
      let v = run_from-IsSound es start start-IsSound in
      resumed-IsResumed i sender p res (step finalized (step (answered t) c))
        (ap (λ f. f i) (calls-renewed t c) ∙ e) (waits-Settles i t c sender p res v e)
