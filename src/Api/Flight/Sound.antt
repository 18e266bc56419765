-- ===== src/Api/Flight/Sound.antt =====
-- The invariant of the calls of web/src/lib/api.ts that share a renewal of the token.
pub mod Steps
use quagenticus.Base.{
  ℕ, suc, ◌≤◌, ◌<◌, String, Bool, true, false, Option, none, some, List, [], ◌∷◌, ◌++◌, ◌≡◌, refl,
  ap, sym, ◌∙◌, Bool-cases, Option-cases, not, ◌&&◌, ◌==◌, nat_eq, inl, inr, ◌⊎◌, arith, is_some,
  length, All, keep, if◌then◌else◌,
}
use mathlib.Core.Path.{subst}
use quagenticus.BoardPage.{truthy}
use quagenticus.Api.Session.{Response}
use quagenticus.Api.Flight.{
  Sender, by_request, by_upload, renews, Promise, under_way, token_set, settled, Phase, idle, sent,
  waiting, ended, Message, fetched, refreshed, promise_at, replace_at, Client, set_call, set_token,
  send_call, refresh_token, await_promise, respond, reject, answer_at, answer_refresh, finally_at,
  run_finally, go_on, resume_at, resume, begin, Event, called, responded, failed, answered,
  finalized, resumed, token_given, step, run, start,
}

abbrev pub is_open : Promise → Bool
is_open under_way = true
is_open (token_set _) = true
is_open (settled _) = false

abbrev pub IsSettled : Promise → Type 0
IsSettled x = is_open x ≡ false

-- `refreshPromise` is the newest promise, as long as that is open; the others have settled.
abbrev pub IsFlight : Option ℕ → List Promise → Type 0
IsFlight none ps = All IsSettled ps
IsFlight (some p) [] = true ≡ false
IsFlight (some p) (x ∷ xs) = (p ≡ length xs) × (is_open x ≡ true) × All IsSettled xs

-- how often a call has been sent
abbrev pub fetches : ℕ → List Message → ℕ
fetches i [] = 0
fetches i (refreshed ∷ ms) = fetches i ms
fetches i (fetched j _ ∷ ms) = let n = fetches i ms in if j == i then suc n else n

abbrev budget : {V : Type 0} → Phase V → ℕ
budget idle = 0
budget (sent _ retried) = if retried then 2 else 1
budget (waiting _ _ _) = 1
budget (ended _) = 2

-- A call waits for a promise that has been made, and has been sent as often as its phase says.
abbrev pub IsCall : {V : Type 0} → List Promise → List Message → ℕ → Phase V → Type 0
IsCall ps ms i (waiting _ p _) = (p < length ps) × (fetches i ms ≤ 1)
IsCall ps ms i phase = fetches i ms ≤ budget phase

abbrev last_told : List (Option String) → Option String
last_told [] = none
last_told (t ∷ []) = t
last_told (t ∷ u ∷ ts) = last_told (u ∷ ts)

pub last_told-append :
    (ts : List (Option String)) (t : Option String) → last_told (ts ++ t ∷ []) ≡ t
last_told-append [] t = refl
last_told-append (_ ∷ []) t = refl
last_told-append (_ ∷ u ∷ ts) t = last_told-append (u ∷ ts) t

pub record IsSound {V : Type 0} (c : Client V) : Type 0 where
  pub flight : IsFlight c.refresh_promise c.promises
  pub each : (i : ℕ) → IsCall c.promises c.messages i (c.calls i)
  pub told : last_told c.told ≡ c.access_token

pub length-replace_at :
    (p : ℕ) (y : Promise) (ps : List Promise) → length (replace_at p y ps) ≡ length ps
length-replace_at p y [] = refl
length-replace_at p y (x ∷ xs) = ground (arith, length-replace_at p y xs)

pub promise_at-made : (p : ℕ) (ps : List Promise) → p < length ps → is_some (promise_at p ps) ≡ true
promise_at-made p [] h = absurd (omega (arith, h))
promise_at-made p (x ∷ xs) h = elim (Bool-cases (p == length xs)) [
  | inl e ↦ rw e refl
  | inr e ↦ rw e (promise_at-made p xs (ground (arith, e, h)))
]

same_nat : {i j : ℕ} → i ≡ j → i == j ≡ true
same_nat h = ground (arith, h)

nat_same : {i j : ℕ} → (j == i ≡ true) → j ≡ i
nat_same h = ground (arith, h)

fetches-other :
    (i j : ℕ) (t : Option String) (ms : List Message)
    → j == i ≡ false
    → fetches j (fetched i t ∷ ms) ≡ fetches j ms
fetches-other i j t ms h = ground (arith, h)

fetches-same :
    (i : ℕ) (t : Option String) (ms : List Message)
    → fetches i (fetched i t ∷ ms) ≡ suc (fetches i ms)
fetches-same i t ms = ground (arith)

pub IsFlight-made : (p : ℕ) (ps : List Promise) → IsFlight (some p) ps → p < length ps
IsFlight-made p [] h = absurd (cc h)
IsFlight-made p (x ∷ xs) (e, _, _) = omega (arith, e)

pub IsFlight-open :
    (p : ℕ) (y : Promise) (ps : List Promise)
    → is_open y ≡ true
    → IsFlight (some p) ps
    → IsFlight (some p) (replace_at p y ps)
IsFlight-open p y [] h f = f
IsFlight-open p y (x ∷ xs) h (e, o, a) = rw (same_nat e) (e, h, a)

pub IsFlight-settled :
    (p : ℕ) (y : Promise) (ps : List Promise)
    → is_open y ≡ false
    → IsFlight (some p) ps
    → IsFlight none (replace_at p y ps)
IsFlight-settled p y [] h f = tt
IsFlight-settled p y (x ∷ xs) h (e, o, a) = rw (same_nat e) (h, a)

pub renews-first :
    (sender : Sender) (retried : Bool) (status : ℕ)
    → renews sender retried status ≡ true
    → retried ≡ false
renews-first (by_request path) retried status h = ground (arith, h)
renews-first (by_upload path) retried status h = ground (arith, h)

module _ {V : Type 0} where
  -- what holds of a call stays true when promises and messages of others are added
  pub IsCall-later :
      (ps qs : List Promise) (ms ns : List Message) (i : ℕ) (phase : Phase V)
      → length ps ≤ length qs
      → fetches i ns ≤ fetches i ms
      → IsCall ps ms i phase
      → IsCall qs ns i phase
  IsCall-later ps qs ms ns i idle h k v = omega (arith, k, v)
  IsCall-later ps qs ms ns i (sent _ retried) h k v = omega (arith, k, v)
  IsCall-later ps qs ms ns i (waiting _ p _) h k (l, v) = (omega (arith, h, l), omega (arith, k, v))
  IsCall-later ps qs ms ns i (ended _) h k v = omega (arith, k, v)

  pub IsCall-few :
      (ps : List Promise) (ms : List Message) (i : ℕ) (phase : Phase V)
      → IsCall ps ms i phase
      → fetches i ms ≤ 2
  IsCall-few ps ms i idle v = omega (arith, v)
  IsCall-few ps ms i (sent _ true) v = v
  IsCall-few ps ms i (sent _ false) v = omega (arith, v)
  IsCall-few ps ms i (waiting _ p _) (_, v) = omega (arith, v)
  IsCall-few ps ms i (ended _) v = v

  -- one call of a client is set, and the rest kept
  each-set_call :
      (qs : List Promise) (ns : List Message) (i : ℕ) (x : Phase V) (calls : ℕ → Phase V)
      → IsCall qs ns i x
      → ((j : ℕ) → (j == i ≡ false) → IsCall qs ns j (calls j))
      → (j : ℕ) → IsCall qs ns j (set_call i x calls j)
  each-set_call qs ns i x calls v w j = elim (Bool-cases (j == i)) [
    | inl e ↦ rw (e, nat_same e) v
    | inr e ↦ rw e (w j e)
  ]

  pub send_call-IsSound :
      (i : ℕ) (sender : Sender) (retried : Bool) (c : Client V)
      → IsSound c
      → fetches i c.messages ≤ (if retried then 1 else 0)
      → IsSound (send_call i sender retried c)
  unfolding send_call
  send_call-IsSound i sender retried c v h = record {
    flight = v.flight;
    each =
        each-set_call c.promises (fetched i (truthy c.access_token) ∷ c.messages) i
          (sent sender retried) c.calls
          (ground (arith, h, fetches-same i (truthy c.access_token) c.messages))
          (λ j e.
            IsCall-later c.promises c.promises c.messages
              (fetched i (truthy c.access_token) ∷ c.messages) j (c.calls j) (omega arith)
              (omega (arith, fetches-other i j (truthy c.access_token) c.messages e)) (v.each j));
    told = v.told;
  }

  pub set_call-IsSound :
      (i : ℕ) (x : Phase V) (c : Client V)
      → IsSound c
      → IsCall c.promises c.messages i x
      → IsSound (record c { calls = set_call i x c.calls })
  set_call-IsSound i x c v h = record {
    flight = v.flight;
    each = each-set_call c.promises c.messages i x c.calls h (λ j e. v.each j);
    told = v.told;
  }
