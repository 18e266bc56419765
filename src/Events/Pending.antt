-- ===== src/Events/Pending.antt =====
-- That web/src/lib/events.ts loses nothing when it holds events back and keeps one event of each key.
use quagenticus.Base.{
  String, Bool, true, false, none, some, List, [], ◌∷◌, ◌==◌, ◌||◌, string_eq, nat_eq, any, map,
  ◌≡◌, refl, sym, ◌∙◌, arith, if◌then◌else◌, Bool-cases, inl, inr, ◌⊎◌, Dict, All,
}
use Prim.Native.Char.{code}
use Prim.Native.String
use Prim.Native.String.append
use quagenticus.Cache.{renewed_by}
use quagenticus.Cache.Keys.{Resource, key}
use quagenticus.Events.{
  ChangeEvent, Live, pending_key, on_change, flush, fire, cleanup, Arrival, change, timeout, step,
  run, start,
}
use quagenticus.Events.Fresh.{touches}

abbrev pub has_colon : String → Bool
has_colon String.[] = false
has_colon (String.◌∷◌ c s) = code c == 58 || has_colon s

-- A text up to its first colon, and behind it.
abbrev cut : String → String × String
cut String.[] = ("", "")
cut (String.◌∷◌ c s) = let (a, b) = cut s in if code c == 58 then ("", s) else (String.◌∷◌ c a, b)

-- The server's event types and ids have no colon.
abbrev pub IsPlain : ChangeEvent → Type 0
IsPlain ev = (has_colon ev.event_type ≡ false) × (has_colon ev.space_id ≡ false)

abbrev values : Dict ChangeEvent → List ChangeEvent
values = map (λ e. e.1)

-- Every pending event stands at its key.
abbrev IsKeyed : Dict ChangeEvent → Type 0
IsKeyed = All (λ e. (pending_key e.1 ≡ e.0) × IsPlain e.1)

-- What the operations so far have renewed, and the next flush will.
abbrev owes : Resource → Live → Bool
owes r live = renewed_by live.ops (key r) || any (touches r) (values live.pending)

-- The events that have arrived, but for the malformed ones.
abbrev pub received : List Arrival → List ChangeEvent
received [] = []
received (change none ∷ arrivals) = received arrivals
received (change (some ev) ∷ arrivals) = ev ∷ received arrivals
received (timeout ∷ arrivals) = received arrivals

-- The variable `timer` says whether the browser holds a timeout, and if it holds none, nothing is pending.
abbrev IsTimed : Live → Type 0
IsTimed live = (live.scheduled ≡ live.timer) × (live.timer ≡ true ⊎ live.pending ≡ [])

step-IsTimed : (a : Arrival) (live : Live) → IsTimed live → IsTimed (step a live)
unfolding step on_change fire flush
step-IsTimed (change none) live v = v
step-IsTimed (change (some ev)) live (s, t) = (ground (arith, s), inl refl)
step-IsTimed timeout live (s, t) = elim (Bool-cases live.scheduled) [
  | inl e ↦ rw e (refl, inr refl)
  | inr e ↦ rw e (sym e ∙ s, t)
]

run-IsTimed : (arrivals : List Arrival) (live : Live) → IsTimed live → IsTimed (run arrivals live)
unfolding run
run-IsTimed [] live v = v
run-IsTimed (a ∷ arrivals) live v = run-IsTimed arrivals (step a live) (step-IsTimed a live v)

due : (live : Live) → IsTimed live → (live.scheduled ≡ true) ⊎ (live.pending ≡ [])
due live (s, inl t) = inl (s ∙ t)
due live (s, inr n) = inr n

cleared : (live : Live) → IsTimed live → (cleanup live).scheduled ≡ false
unfolding cleanup
cleared live (s, t) = ground (arith, s)

-- After any events and timeouts, a timeout that will flush them is held by the browser whenever an event is
-- pending, and if the effect is then cleaned up no timeout is left behind.
pub run-timer :
    (arrivals : List Arrival)
    → ((run arrivals start).scheduled ≡ true ⊎ (run arrivals start).pending ≡ [])
      × ((cleanup (run arrivals start)).scheduled ≡ false)
run-timer arrivals =
    let v = run-IsTimed arrivals start (refl, inr refl) in
    (due (run arrivals start) v, cleared (run arrivals start) v)
