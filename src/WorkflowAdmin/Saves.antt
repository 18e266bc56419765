-- ===== src/WorkflowAdmin/Saves.antt =====
-- When the rules of web/src/components/admin/WorkflowAdmin.tsx are saved.
use quagenticus.Base.{
  String, Bool, true, false, Option, none, some, List, [], ◌∷◌, ◌≡◌, refl, sym, if◌then◌else◌, ℕ,
  ◌==◌, string_eq, ==_refl,
}
use mathlib.Core.Path.{subst}
use quagenticus.Api.Catalogs.{Transition}
use quagenticus.WorkflowAdmin.{
  toggle, edit, Patch, Rule, Page, Saving, sending, reloading, Event, selected, loaded, toggled,
  edited, save, answered, settled, adopt, select, change, start_save, answer_save, end_save, step,
  run, start,
}

-- While a save is pending, no box is clicked and no other tracker is chosen. Transitions may arrive, but not while
-- the request of the save has no answer.
abbrev IsFree : Event → Option Saving → Type 0
IsFree (selected _ _) (some _) = ⊥
IsFree (toggled _ _) (some _) = ⊥
IsFree (edited _ _) (some _) = ⊥
IsFree (loaded _) (some (sending _ _)) = ⊥
IsFree _ _ = Unit

-- The button to save is not clicked while the transitions of the tracker are loading.
abbrev IsReady : Event → Bool → Type 0
IsReady save is_loading = is_loading ≡ false
IsReady _ is_loading = Unit

abbrev pub IsCalm : List Event → Page → Type 0
IsCalm [] p = Unit
IsCalm (e ∷ es) p = IsFree e p.saving × IsReady e p.is_loading × IsCalm es (step e p)

-- A save that is pending is of the rules shown, which the server has once it has answered.
abbrev IsSent : Option Saving → Page → Type 0
IsSent none p = Unit
IsSent (some (sending tracker sent)) p =
    (p.tracker == tracker ≡ true) × (sent ≡ p.rules) × (p.is_loading ≡ false) × (p.dirty ≡ true)
IsSent (some reloading) p = (p.rules ≡ p.known) × (p.is_loading ≡ false)

-- What is shown without changes is what the server is known to have, unless it is loading.
abbrev IsClean : Page → Type 0
IsClean p = p.is_loading ≡ false → p.dirty ≡ false → p.rules ≡ p.known

record IsSaved (p : Page) : Type 0 where
  is_sent : IsSent p.saving p
  is_clean : IsClean p

adopt-IsSaved :
    (o : Option Saving) (transitions : List Transition) (p : Page)
    → p.saving ≡ o
    → IsFree (loaded transitions) o
    → IsSaved (adopt transitions p)
adopt-IsSaved none transitions p e f = record {
  is_sent = subst (λ o. IsSent o (adopt transitions p)) (sym e) tt;
  is_clean = λ l d. refl;
}
adopt-IsSaved (some (sending _ _)) transitions p e f = absurd f
adopt-IsSaved (some reloading) transitions p e f = record {
  is_sent = subst (λ o. IsSent o (adopt transitions p)) (sym e) (refl, refl);
  is_clean = λ l d. refl;
}

select-IsSaved :
    (o : Option Saving) (tracker : String) (cached : Option (List Transition)) (p : Page)
    → p.saving ≡ o
    → IsFree (selected tracker cached) o
    → IsSaved (select cached (record p { tracker = tracker }))
select-IsSaved (some _) tracker cached p e f = absurd f
select-IsSaved none tracker (some transitions) p e f =
    adopt-IsSaved none transitions (record p { tracker = tracker }) e tt
select-IsSaved none tracker none p e f = record {
  is_sent = subst (λ o. IsSent o (record p { tracker = tracker; is_loading = true })) (sym e) tt;
  is_clean = λ l d. absurd (cc l);
}

choose :
    (b : Bool) (x y : Page)
    → (b ≡ true → IsSaved x)
    → (b ≡ false → IsSaved y)
    → IsSaved (if b then x else y)
choose true x y h k = h refl
choose false x y h k = k refl

change-IsSaved :
    (o : Option Saving) (rules : List Rule) (p : Page)
    → p.saving ≡ o
    → (o ≡ none)
    → IsSaved p
    → IsSaved (change rules p)
change-IsSaved (some _) rules p e n h = absurd (cc n)
change-IsSaved none rules p e n h =
    choose p.is_loading p (record p { rules = rules; dirty = true }) (λ _. h)
      (λ _. record {
        is_sent = subst (λ o. IsSent o (record p { rules = rules; dirty = true })) (sym e) tt;
        is_clean = λ _ d. absurd (cc d);
      })

-- A click on a box is free only if no save is pending.
toggled-none :
    (o : Option Saving) (from : Option String) (to : String) → IsFree (toggled from to) o → o ≡ none
toggled-none none from to f = refl
toggled-none (some _) from to f = absurd f

edited-none : (o : Option Saving) (i : ℕ) (patch : Patch) → IsFree (edited i patch) o → o ≡ none
edited-none none i patch f = refl
edited-none (some _) i patch f = absurd f

start_save-IsSaved :
    (o : Option Saving) (p : Page)
    → p.saving ≡ o
    → p.is_loading ≡ false
    → IsSaved p
    → IsSaved (start_save o p)
start_save-IsSaved (some _) p e l h = h
start_save-IsSaved none p e l h =
    choose p.dirty (record p { saving = some (sending p.tracker p.rules) }) p
      (λ d. record {
        is_sent = (==_refl p.tracker, refl, l, d);
        is_clean = λ _ n. absurd (cc (d, n));
      })
      (λ _. h)

answer_save-IsSaved :
    (success : Bool) (o : Option Saving) (p : Page)
    → p.saving ≡ o
    → IsSent o p
    → IsSaved p
    → IsSaved (answer_save success o p)
answer_save-IsSaved success none p e s h = h
answer_save-IsSaved success (some reloading) p e s h = h
answer_save-IsSaved true (some (sending tracker sent)) p e (t, same, l, d) h =
    rw t (record { is_sent = (sym same, l); is_clean = λ _ n. absurd (cc (d, n)) })
answer_save-IsSaved false (some (sending tracker sent)) p e (t, same, l, d) h = record {
  is_sent = tt;
  is_clean = λ _ n. absurd (cc (d, n));
}

end_save-IsSaved :
    (o : Option Saving) (p : Page) → p.saving ≡ o → IsSent o p → IsSaved p → IsSaved (end_save o p)
end_save-IsSaved none p e s h = h
end_save-IsSaved (some (sending _ _)) p e s h = h
end_save-IsSaved (some reloading) p e (k, l) h = record { is_sent = tt; is_clean = λ _ _. k }

step-IsSaved :
    (e : Event) (p : Page)
    → IsFree e p.saving
    → IsReady e p.is_loading
    → IsSaved p
    → IsSaved (step e p)
unfolding step
step-IsSaved (selected tracker cached) p f r h = select-IsSaved p.saving tracker cached p refl f
step-IsSaved (loaded transitions) p f r h = adopt-IsSaved p.saving transitions p refl f
step-IsSaved (toggled from to) p f r h =
    change-IsSaved p.saving (toggle from to p.rules) p refl (toggled-none p.saving from to f) h
step-IsSaved (edited i patch) p f r h =
    change-IsSaved p.saving (edit i patch p.rules) p refl (edited-none p.saving i patch f) h
step-IsSaved save p f r h = start_save-IsSaved p.saving p refl r h
step-IsSaved (answered success) p f r h = answer_save-IsSaved success p.saving p refl h.is_sent h
step-IsSaved settled p f r h = end_save-IsSaved p.saving p refl h.is_sent h

run_from-IsSaved : (es : List Event) (p : Page) → IsCalm es p → IsSaved p → IsSaved (run es p)
unfolding run
run_from-IsSaved [] p c h = h
run_from-IsSaved (e ∷ es) p (f, r, c) h = run_from-IsSaved es (step e p) c (step-IsSaved e p f r h)

-- When the transitions of the chosen tracker are there and the page has nothing to save, the server is known to
-- have the rules that it shows; provided that no box was clicked and no other tracker chosen while a save was
-- pending, that no transitions arrived while the request of a save had no answer, and that the button to save was
-- not clicked while the transitions of the tracker were loading.
pub rules-run :
    (tracker : String) (es : List Event)
    → IsCalm es (start tracker)
    → (run es (start tracker)).is_loading ≡ false
    → (run es (start tracker)).dirty ≡ false
    → (run es (start tracker)).rules ≡ (run es (start tracker)).known
rules-run tracker es c l d =
    (run_from-IsSaved es (start tracker) c
        (record { is_sent = tt; is_clean = λ h _. absurd (cc h) })).is_clean
      l d
