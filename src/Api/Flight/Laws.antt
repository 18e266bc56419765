-- ===== src/Api/Flight/Laws.antt =====
-- That the calls of web/src/lib/api.ts which share a renewal of the token make one at a time, and
-- are sent at most twice.
use quagenticus.Base.{
  ℕ, ◌≤◌, Option, none, some, List, [], ◌∷◌, ◌≡◌, refl, nat_eq, inl, inr, ◌⊎◌, arith, length, All,
  keep,
}
use quagenticus.Api.Flight.{Promise, promise_at, Event, run, start}
use quagenticus.Api.Flight.Sound.Steps.{run_from-IsSound, start-IsSound}
use quagenticus.Api.Flight.Sound.Steps.{run_from-IsSound, start-IsSound}
use quagenticus.Api.Flight.Sound.{is_open, IsSettled, IsFlight, fetches, IsCall-few}

keep-settled : (ps : List Promise) → All IsSettled ps → keep is_open ps ≡ []
keep-settled [] h = refl
keep-settled (x ∷ xs) (e, h) = rw (e, keep-settled xs h) refl

promise_at-newest :
    (p : ℕ) (x : Promise) (xs : List Promise) → p ≡ length xs → promise_at p (x ∷ xs) ≡ some x
promise_at-newest p x xs h = ground (arith, h)

-- No promise is open and `refreshPromise` is null, or one is, and that is `refreshPromise`.
abbrev pub IsSingle : Option ℕ → List Promise → Type 0
IsSingle current ps =
    ((current ≡ none) × (keep is_open ps ≡ []))
    ⊎ ((p : ℕ) × (x : Promise) × (current ≡ some p)
        × (promise_at p ps ≡ some x)
        × (keep is_open ps ≡ x ∷ []))

IsFlight-IsSingle : (o : Option ℕ) (ps : List Promise) → IsFlight o ps → IsSingle o ps
IsFlight-IsSingle none ps f = inl (refl, keep-settled ps f)
IsFlight-IsSingle (some p) [] f = absurd (cc f)
IsFlight-IsSingle (some p) (x ∷ xs) (e, o, a) =
    inr (p, x, refl, promise_at-newest p x xs e, rw (o, keep-settled xs a) refl)

module _ {V : Type 0} where
  -- Whatever has happened, at most one renewal of the token is under way, and it is the promise that
  -- every further caller of `session.refresh` is given.
  pub run-IsSingle :
      (es : List (Event V)) → IsSingle (run es start).refresh_promise (run es start).promises
  run-IsSingle es = IsFlight-IsSingle _ _ (run_from-IsSound es start start-IsSound).flight

  -- No request and no upload is ever sent more than twice, however many renewals there are.
  fetches-run : (es : List (Event V)) (i : ℕ) → fetches i (run es start).messages ≤ 2
  fetches-run es i =
      let c = run es start in
      IsCall-few c.promises c.messages i (c.calls i)
        ((run_from-IsSound es start start-IsSound).each i)
