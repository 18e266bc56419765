-- ===== src/WorkflowAdmin/Rules.antt =====
-- The rules of a workflow in web/src/components/admin/WorkflowAdmin.tsx: one box is one rule.
use quagenticus.Base.{
  ℕ, zero, suc, String, Bool, true, false, Option, none, some, List, [], ◌∷◌, ◌++◌, ◌≡◌, refl, sym,
  ap, ◌∙◌, ◌==◌, ◌||◌, ◌&&◌, not, string_eq, if◌then◌else◌, keep, map, All, arith, eq_iff,
  Bool-cases, inl, inr,
}
use mathlib.Core.Path.{subst}
use quagenticus.WorkflowAdmin.{
  Rule, key, rule_key, has_rule, new_rule, toggle, Patch, role, agents, comment, assignee,
  readiness, patch_rule, edit, rule_of, Page, Saving, sending, reloading, Event, selected, loaded,
  toggled, edited, save, answered, settled, change, start_save, answer_save, end_save, step, run,
  start,
}

-- No two rules have the same statuses.
abbrev pub IsDistinct : List Rule → Type 0
IsDistinct [] = Unit
IsDistinct (r ∷ rules) = (has_rule (rule_key r) rules ≡ false) × IsDistinct rules

has_rule-append :
    (k : String) (rules : List Rule) (r : Rule)
    → has_rule k (rules ++ r ∷ []) ≡ has_rule k rules || rule_key r == k
has_rule-append k [] r = ground arith
has_rule-append k (x ∷ rules) r = ground (arith, has_rule-append k rules r)

has_rule-keep :
    (k j : String) (rules : List Rule)
    → has_rule k (keep (λ r. not (rule_key r == j)) rules) ≡ has_rule k rules && not (j == k)
has_rule-keep k j [] = refl
has_rule-keep k j (x ∷ rules) =
    ground
      (arith, eq_iff (rule_key x) k, eq_iff (rule_key x) j, eq_iff j k, has_rule-keep k j rules)

same_has : (k j : String) (rules : List Rule) → j == k ≡ true → has_rule j rules ≡ has_rule k rules
same_has k j rules h = ap (λ i. has_rule i rules) ((eq_iff j k).0 h)

off : (b a : Bool) → (b ≡ true → a ≡ true) → a && not b ≡ (if b then not a else a)
off true true h = refl
off true false h = h refl
off false true h = refl
off false false h = refl

on : (b a : Bool) → (b ≡ true → a ≡ false) → a || b ≡ (if b then not a else a)
on true true h = h refl
on true false h = refl
on false true h = refl
on false false h = refl

-- A click on a box of the table changes whether there is a rule between its two statuses, and between
-- no two others.
has_rule-toggle :
    (from : Option String) (to k : String) (rules : List Rule)
    → has_rule k (toggle from to rules)
      ≡ (if key from to == k then not (has_rule k rules) else has_rule k rules)
unfolding toggle
has_rule-toggle from to k rules = elim (Bool-cases (has_rule (key from to) rules)) [
  | inl e ↦
      rw (e, toggle)
        (has_rule-keep k (key from to) rules
          ∙ off (key from to == k) (has_rule k rules)
              (λ h. sym (same_has k (key from to) rules h) ∙ e))
  | inr e ↦
      rw (e, toggle)
        (has_rule-append k rules (new_rule from to)
          ∙ on (key from to == k) (has_rule k rules)
              (λ h. sym (same_has k (key from to) rules h) ∙ e))
]

keep-IsDistinct :
    (j : String) (rules : List Rule)
    → IsDistinct rules
    → IsDistinct (keep (λ r. not (rule_key r == j)) rules)
keep-IsDistinct j [] h = tt
keep-IsDistinct j (x ∷ rules) (e, h) = elim (Bool-cases (rule_key x == j)) [
  | inl k ↦ rw k (keep-IsDistinct j rules h)
  | inr k ↦ rw k (has_rule-keep (rule_key x) j rules ∙ rw e refl, keep-IsDistinct j rules h)
]

append-IsDistinct :
    (rules : List Rule) (r : Rule)
    → IsDistinct rules
    → has_rule (rule_key r) rules ≡ false
    → IsDistinct (rules ++ r ∷ [])
append-IsDistinct [] r h k = (refl, tt)
append-IsDistinct (x ∷ rules) r (e, h) k = (
  has_rule-append (rule_key x) rules r
      ∙ ground (arith, e, k, eq_iff (rule_key r) (rule_key x), eq_iff (rule_key x) (rule_key r)),
  append-IsDistinct rules r h (ground (arith, k)),
)

toggle-IsDistinct :
    (from : Option String) (to : String) (rules : List Rule)
    → IsDistinct rules
    → IsDistinct (toggle from to rules)
unfolding toggle
toggle-IsDistinct from to rules h = elim (Bool-cases (has_rule (key from to) rules)) [
  | inl e ↦ rw (e, toggle) (keep-IsDistinct (key from to) rules h)
  | inr e ↦ rw (e, toggle) (append-IsDistinct rules (new_rule from to) h e)
]

key-patch_rule : (patch : Patch) (r : Rule) → rule_key (patch_rule patch r) ≡ rule_key r
key-patch_rule (role x checked) r = refl
key-patch_rule (agents checked) r = refl
key-patch_rule (comment checked) r = refl
key-patch_rule (assignee checked) r = refl
key-patch_rule (readiness checked) r = refl

has_rule-edit :
    (k : String) (i : ℕ) (patch : Patch) (rules : List Rule)
    → has_rule k (edit i patch rules) ≡ has_rule k rules
unfolding edit
has_rule-edit k i patch [] = refl
has_rule-edit k zero patch (r ∷ rules) =
    ap (λ x. x == k || has_rule k rules) (key-patch_rule patch r)
has_rule-edit k (suc i) patch (r ∷ rules) =
    ap (λ b. rule_key r == k || b) (has_rule-edit k i patch rules)

edit-IsDistinct :
    (i : ℕ) (patch : Patch) (rules : List Rule) → IsDistinct rules → IsDistinct (edit i patch rules)
unfolding edit
edit-IsDistinct i patch [] h = tt
edit-IsDistinct zero patch (r ∷ rules) (e, h) =
    (ap (λ k. has_rule k rules) (key-patch_rule patch r) ∙ e, h)
edit-IsDistinct (suc i) patch (r ∷ rules) (e, h) =
    (has_rule-edit (rule_key r) i patch rules ∙ e, edit-IsDistinct i patch rules h)

-- the transitions that arrive are of distinct statuses
abbrev IsLoad : Event → Type 0
IsLoad (loaded transitions) = IsDistinct (map rule_of transitions)
IsLoad (selected _ (some transitions)) = IsDistinct (map rule_of transitions)
IsLoad _ = Unit

change-IsDistinct :
    (rules : List Rule) (p : Page)
    → IsDistinct rules
    → IsDistinct p.rules
    → IsDistinct (change rules p).rules
change-IsDistinct rules p k h = elim (Bool-cases p.is_loading) [ inl e ↦ rw e h | inr e ↦ rw e k ]

rules-start_save : (o : Option Saving) (p : Page) → (start_save o p).rules ≡ p.rules
rules-start_save (some _) p = refl
rules-start_save none p = elim (Bool-cases p.dirty) [ inl e ↦ rw e refl | inr e ↦ rw e refl ]

rules-answer_save :
    (success : Bool) (o : Option Saving) (p : Page) → (answer_save success o p).rules ≡ p.rules
rules-answer_save true (some (sending _ _)) p = refl
rules-answer_save false (some (sending _ _)) p = refl
rules-answer_save success (some reloading) p = refl
rules-answer_save success none p = refl

rules-end_save : (o : Option Saving) (p : Page) → (end_save o p).rules ≡ p.rules
rules-end_save (some reloading) p = refl
rules-end_save (some (sending _ _)) p = refl
rules-end_save none p = refl

step-IsDistinct :
    (e : Event) (p : Page) → IsLoad e → IsDistinct p.rules → IsDistinct (step e p).rules
unfolding step
step-IsDistinct (selected tracker none) p l h = h
step-IsDistinct (selected tracker (some transitions)) p l h = l
step-IsDistinct (loaded transitions) p l h = l
step-IsDistinct (toggled from to) p l h =
    change-IsDistinct (toggle from to p.rules) p (toggle-IsDistinct from to p.rules h) h
step-IsDistinct (edited i patch) p l h =
    change-IsDistinct (edit i patch p.rules) p (edit-IsDistinct i patch p.rules h) h
step-IsDistinct save p l h = subst IsDistinct (sym (rules-start_save p.saving p)) h
step-IsDistinct (answered success) p l h =
    subst IsDistinct (sym (rules-answer_save success p.saving p)) h
step-IsDistinct settled p l h = subst IsDistinct (sym (rules-end_save p.saving p)) h

run_from-IsDistinct :
    (es : List Event) (p : Page) → All IsLoad es → IsDistinct p.rules → IsDistinct (run es p).rules
unfolding run
run_from-IsDistinct [] p l h = h
run_from-IsDistinct (e ∷ es) p (l, ls) h =
    run_from-IsDistinct es (step e p) ls (step-IsDistinct e p l h)

-- Whatever is chosen, clicked, saved or loaded, there is at most one rule between two statuses; provided that this
-- holds of the transitions that arrive.
pub run-IsDistinct :
    (tracker : String) (es : List Event) → All IsLoad es → IsDistinct (run es (start tracker)).rules
run-IsDistinct tracker es l = run_from-IsDistinct es (start tracker) l tt
