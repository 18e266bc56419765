-- ===== src/Api/Flight.antt =====
-- web/src/lib/api.ts: requests and uploads that run at the same time and share one renewal of the
-- access token (`session`, `request`, `uploadXHR`). The promises that `session.refresh` makes are a
-- store, the newest first; each event is one reply of the network or one continuation of a promise.
pub mod Sound
pub mod Laws
pub mod Waits
use quagenticus.Base.{
  ℕ, String, Bool, true, false, Option, none, some, List, [], ◌∷◌, ◌++◌, if◌then◌else◌, not, ◌&&◌,
  ◌==◌, nat_eq, string_eq, is_some, length,
}
use quagenticus.BoardPage.{strip_prefix, truthy}
use quagenticus.Api.Session.{Response}

-- Who called: `request(path)` or `uploadXHR(path)`.
pub data Sender : Type 0 where
  by_request : String → Sender
  by_upload : String → Sender

-- Whether a 401 makes the caller renew the token.
abbrev pub renews : Sender → Bool → ℕ → Bool
renews (by_request path) retried status =
    status == 401 && not retried && not (is_some (strip_prefix "/auth/" path))
renews (by_upload path) retried status = status == 401 && not retried

-- The promise of `session.refresh`: its `fetch` is under way, the token has been set but `finally`
-- has not run, or it has settled.
pub data Promise : Type 0 where
  under_way : Promise
  token_set : Option String → Promise
  settled : Option String → Promise

-- Where one call stands: `sent` with `retried`, awaiting a promise of the store, or at its end
-- (`none` where the network failed).
pub data Phase (V : Type 0) : Type 0 where
  idle : Phase V
  sent : Sender → Bool → Phase V
  waiting : Sender → ℕ → Response V → Phase V
  ended : Option (Response V) → Phase V

-- What goes out: a call's `fetch` with the token it carries, or a renewal.
pub data Message : Type 0 where
  fetched : ℕ → Option String → Message
  refreshed : Message

-- the promise that a number stands for: how many were made before it
abbrev pub promise_at : ℕ → List Promise → Option Promise
promise_at p [] = none
promise_at p (x ∷ xs) = if p == length xs then some x else promise_at p xs

abbrev pub replace_at : ℕ → Promise → List Promise → List Promise
replace_at p y [] = []
replace_at p y (x ∷ xs) = if p == length xs then y ∷ xs else x ∷ replace_at p y xs

-- `accessToken`, `refreshPromise`, the promises made, the calls, the messages sent, and the tokens
-- that the listeners were told
pub record Client (V : Type 0) : Type 0 where
  pub access_token : Option String
  pub refresh_promise : Option ℕ
  pub promises : List Promise
  pub calls : ℕ → Phase V
  pub messages : List Message
  pub told : List (Option String)

-- What happens next: a call is made, is answered or fails; the renewal is answered; its `finally`
-- runs; a waiting call continues; or `session.set` is called from outside.
pub data Event (V : Type 0) : Type 0 where
  called : ℕ → Sender → Event V
  responded : ℕ → Response V → Event V
  failed : ℕ → Event V
  answered : Option String → Event V
  finalized : Event V
  resumed : ℕ → Event V
  token_given : Option String → Event V

module _ {V : Type 0} where
  abbrev pub set_call : ℕ → Phase V → (ℕ → Phase V) → ℕ → Phase V
  set_call i x calls j = if j == i then x else calls j

  -- `session.set`
  unfoldable pub set_token : Option String → Client V → Client V
  set_token token c = record c { access_token = token; told = c.told ++ token ∷ [] }

  -- one `fetch` of the call `i` with the present token
  unfoldable pub send_call : ℕ → Sender → Bool → Client V → Client V
  send_call i sender retried c = record c {
    calls = set_call i (sent sender retried) c.calls;
    messages = fetched i (truthy c.access_token) ∷ c.messages;
  }

  -- `session.refresh`: the promise that is under way, or a new one
  unfoldable pub refresh_token : Client V → Client V × ℕ
  refresh_token c = elim c.refresh_promise [
    | some p ↦ (c, p)
    | none ↦
        let p = length c.promises in
        (
          record c {
            refresh_promise = some p;
            promises = under_way ∷ c.promises;
            messages = refreshed ∷ c.messages;
          },
          p,
        )
  ]

  abbrev pub await_promise : ℕ → Sender → Response V → Client V × ℕ → Client V
  await_promise i sender res (c, p) = record c { calls = set_call i (waiting sender p res) c.calls }

  -- the response to the call `i` arrives
  abbrev pub respond : ℕ → Response V → Phase V → Client V → Client V
  respond i res (sent sender retried) c =
      let waits = await_promise i sender res (refresh_token c) in
      if renews sender retried res.status
      then waits
      else record c { calls = set_call i (ended (some res)) c.calls }
  respond i res _ c = c

  -- the network fails the call `i`
  abbrev pub reject : ℕ → Phase V → Client V → Client V
  reject i (sent sender retried) c = record c { calls = set_call i (ended none) c.calls }
  reject i _ c = c

  -- the `then` that sets the token that the server has answered, or null
  abbrev pub answer_at : Option String → ℕ → Option Promise → Client V → Client V
  answer_at token p (some under_way) c =
      let told_all = set_token token c in
      record told_all { promises = replace_at p (token_set token) c.promises }
  answer_at token p _ c = c

  abbrev pub answer_refresh : Option String → Option ℕ → Client V → Client V
  answer_refresh token none c = c
  answer_refresh token (some p) c = answer_at token p (promise_at p c.promises) c

  -- the `finally`
  abbrev pub finally_at : ℕ → Option Promise → Client V → Client V
  finally_at p (some (token_set token)) c = record c {
    refresh_promise = none;
    promises = replace_at p (settled token) c.promises;
  }
  finally_at p _ c = c

  abbrev pub run_finally : Option ℕ → Client V → Client V
  run_finally none c = c
  run_finally (some p) c = finally_at p (promise_at p c.promises) c

  -- the continuation behind `await session.refresh()`: with a token, the second attempt
  abbrev pub go_on : ℕ → Sender → Response V → Option String → Client V → Client V
  go_on i sender res (some _) c = send_call i sender true c
  go_on i sender res none c = record c { calls = set_call i (ended (some res)) c.calls }

  abbrev pub resume_at : ℕ → Sender → Response V → Option Promise → Client V → Client V
  resume_at i sender res (some (settled token)) c = go_on i sender res (truthy token) c
  resume_at i sender res _ c = c

  abbrev pub resume : ℕ → Phase V → Client V → Client V
  resume i (waiting sender p res) c = resume_at i sender res (promise_at p c.promises) c
  resume i _ c = c

  abbrev pub begin : ℕ → Sender → Phase V → Client V → Client V
  begin i sender idle c = send_call i sender false c
  begin i sender _ c = c

  -- an event that cannot happen yet changes nothing
  unfoldable pub step : Event V → Client V → Client V
  step (called i sender) c = begin i sender (c.calls i) c
  step (responded i res) c = respond i res (c.calls i) c
  step (failed i) c = reject i (c.calls i) c
  step (answered token) c = answer_refresh token c.refresh_promise c
  step finalized c = run_finally c.refresh_promise c
  step (resumed i) c = resume i (c.calls i) c
  step (token_given token) c = set_token token c

  unfoldable pub run : List (Event V) → Client V → Client V
  run [] c = c
  run (e ∷ es) c = run es (step e c)

  abbrev pub start : Client V
  start = record {
    access_token = none;
    refresh_promise = none;
    promises = [];
    calls = λ i. idle;
    messages = [];
    told = [];
  }
