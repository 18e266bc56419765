-- ===== src/RequirementsList/Selection.antt =====
-- The boxes of the table of web/src/pages/RequirementsList.tsx.
use quagenticus.Base.{
  String, Bool, true, false, List, [], ◌∷◌, ◌++◌, ◌≡◌, refl, ap, sym, ◌∙◌, ==_refl, ◌==◌, ◌&&◌,
  ◌||◌, not, string_eq, ltb, length, if◌then◌else◌, all, elem, add, keep, map, arith, eq_iff,
  Bool-cases, inl, inr,
}
use quagenticus.Api.Documents.{RequirementSummary}
use quagenticus.RequirementsList.{all_selected, toggle_all, toggle_one, set_of}

elem-append : (a b : String) (xs : List String) → elem a (xs ++ b ∷ []) ≡ elem a xs || b == a
elem-append a b [] = ground arith
elem-append a b (x ∷ xs) = ground (arith, elem-append a b xs)

or-false : (b : Bool) → b ≡ b || false
or-false true = refl
or-false false = refl

or-true : (b : Bool) → b || true ≡ true
or-true true = refl
or-true false = refl

already : (a b : String) (xs : List String) → elem b xs ≡ true → elem a xs ≡ elem a xs || b == a
already a b xs e = elim (Bool-cases (b == a)) [
  | inl k ↦ rw (k, ap (λ c. elem c xs) (sym ((eq_iff b a).0 k)) ∙ e) refl
  | inr k ↦ rw k (or-false _)
]

elem-add : (a b : String) (xs : List String) → elem a (add b xs) ≡ elem a xs || b == a
elem-add a b xs = elim (Bool-cases (elem b xs)) [
  | inl e ↦ rw e (already a b xs e)
  | inr e ↦ rw e (elem-append a b xs)
]

elem-set_of : (a : String) (ids s : List String) → elem a (set_of ids s) ≡ elem a s || elem a ids
elem-set_of a [] s = ground arith
elem-set_of a (id ∷ ids) s = elem-set_of a ids (add id s) ∙ ground (arith, elem-add a id s)

abbrev ids_of : List RequirementSummary → List String
ids_of items = map (λ i. i.id) items

all-elem :
    (items : List RequirementSummary) (s : List String)
    → ((id : String) → elem id (ids_of items) ≡ true → elem id s ≡ true)
    → all (λ i. elem i.id s) items ≡ true
all-elem [] s h = refl
all-elem (i ∷ items) s h =
    rw (h i.id (rw (==_refl i.id) refl)) (all-elem items s (λ id e. h id (rw e (or-true _))))

all_selected-set_of :
    (items : List RequirementSummary)
    → ltb 0 (length items) ≡ true
    → all_selected items (set_of (ids_of items) []) ≡ true
unfolding all_selected
all_selected-set_of items h =
    rw h (all-elem items (set_of (ids_of items) []) (λ id k. elem-set_of id (ids_of items) [] ∙ k))

all_selected-none :
    (items : List RequirementSummary) → ltb 0 (length items) ≡ true → all_selected items [] ≡ false
unfolding all_selected
all_selected-none [] h = cc h
all_selected-none (i ∷ items) h = rw h refl

-- The box in the head of the table selects every row if not every row was selected, and else none;
-- provided that there is a row.
all_selected-toggle_all :
    (items : List RequirementSummary) (selected : List String)
    → ltb 0 (length items) ≡ true
    → all_selected items (toggle_all items selected) ≡ not (all_selected items selected)
unfolding toggle_all
all_selected-toggle_all items selected h = elim (Bool-cases (all_selected items selected)) [
  | inl e ↦
      ap (λ b. all_selected items (if b then [] else set_of (ids_of items) [])) e
      ∙ all_selected-none items h
      ∙ ap not (sym e)
  | inr e ↦
      ap (λ b. all_selected items (if b then [] else set_of (ids_of items) [])) e
      ∙ all_selected-set_of items h
      ∙ ap not (sym e)
]

absent :
    (j id : String) (xs : List String)
    → elem id xs ≡ false
    → elem j xs || id == j ≡ (if id == j then not (elem j xs) else elem j xs)
absent j id xs e = elim (Bool-cases (id == j)) [
  | inl k ↦ rw (k, ap (λ c. elem c xs) (sym ((eq_iff id j).0 k)) ∙ e) refl
  | inr k ↦ rw k (sym (or-false _))
]

elem-keep :
    (id j : String) (xs : List String)
    → elem j (keep (λ x. not (x == id)) xs) ≡ elem j xs && not (id == j)
elem-keep id j [] = refl
elem-keep id j (x ∷ xs) = ground (arith, eq_iff x id, eq_iff id j, eq_iff x j, elem-keep id j xs)

-- The box of a row changes the selection of that row, and of no other.
elem-toggle_one :
    (id j : String) (selected : List String)
    → elem j (toggle_one id selected) ≡ (if id == j then not (elem j selected) else elem j selected)
unfolding toggle_one
elem-toggle_one id j selected = elim (Bool-cases (elem id selected)) [
  | inl e ↦
      rw (e, toggle_one)
        (elem-keep id j selected ∙ ground (arith, eq_iff id j, already j id selected e))
  | inr e ↦ rw (e, toggle_one) (elem-append j id selected ∙ absent j id selected e)
]
