-- ===== src/RequirementsList/Filters.antt =====
-- What web/src/pages/RequirementsList.tsx asks for, its order, and that a saved view asks for the same.
use quagenticus.Base.{
  String, Bool, true, false, Option, none, some, List, [], ◌∷◌, ◌≡◌, refl, sym, ap, ◌∙◌, ◌==◌, ◌&&◌,
  not, string_eq, if◌then◌else◌, or_else, is_some, elem, Dict, lookup, assign, lookup-assign,
  set_param, lookup-set_param, arith, eq_iff, All, Bool-cases, inl, inr,
}
use quagenticus.BoardPage.{truthy}
use quagenticus.RequirementsList.{
  filter_keys, assign_given, given, only_open, filters, sort_by, AriaSort, ascending, descending,
  unsorted, aria_sort, view_filters, save_view,
}

lookup-assign_given :
    (k j : String) (o : Option String) (f : Dict String)
    → lookup j (assign_given k o f) ≡ (if k == j && is_some o then o else lookup j f)
lookup-assign_given k j none f = ground arith
lookup-assign_given k j (some v) f = ground (arith, lookup-assign k j v f)

within :
    (b : Bool) (o d : Option String)
    → (if b && is_some o then o else (if is_some o then o else d)) ≡ (if is_some o then o else d)
within true none d = refl
within true (some v) d = refl
within false o d = refl

lookup-given :
    (params : Dict String) (ks : List String) (f : Dict String) (j : String)
    → lookup j (given params ks f) ≡ (
        if elem j ks && is_some (truthy (lookup j params))
        then truthy (lookup j params)
        else lookup j f)
unfolding given
lookup-given params [] f j = refl
lookup-given params (k ∷ ks) f j =
    let rest = lookup-given params ks (assign_given k (truthy (lookup k params)) f) j in
    let first = lookup-assign_given k j (truthy (lookup k params)) f in
    elim (Bool-cases (k == j)) [
      | inl e ↦
          let same : lookup j params ≡ lookup k params =
            ap (λ i. lookup i params) (sym ((eq_iff k j).0 e)) in
          rw (rest, first, same, e) (within (elem j ks) (truthy (lookup k params)) (lookup j f))
      | inr e ↦ rw (rest, first, e) refl
    ]

flip : (a b : String) → a == b ≡ b == a
flip a b = ground (arith, eq_iff a b, eq_iff b a)

and_true : (b : Bool) (x y : Option String) → (if b then x else y) ≡ (if b && true then x else y)
and_true true x y = refl
and_true false x y = refl

and_false : (b : Bool) (x y : Option String) → y ≡ (if b && false then x else y)
and_false true x y = refl
and_false false x y = refl

empty :
    (b : Bool) (o : Option String) → (if b && is_some o then o else none) ≡ (if b then o else none)
empty true none = refl
empty true (some v) = refl
empty false o = refl

lookup-all :
    (params : Dict String) (k : String)
    → lookup k (given params filter_keys [])
      ≡ (if elem k filter_keys then truthy (lookup k params) else none)
lookup-all params k =
    lookup-given params filter_keys [] k ∙ empty (elem k filter_keys) (truthy (lookup k params))

-- What is asked for at a key.
abbrev pub asked : Dict String → String → Option String
asked params k =
    if k == "open" && only_open params
    then some "true"
    else if elem k filter_keys
    then truthy (lookup k params)
    else none

-- The query of the list has, at each of the eleven keys of the filters and at no other, what the address
-- has there, if that is not empty; and it asks for the open requirements if the address names neither
-- `open` nor a status.
lookup-filters : (params : Dict String) (k : String) → lookup k (filters params) ≡ asked params k
unfolding filters
lookup-filters params k = elim (Bool-cases (only_open params)) [
  | inl e ↦
      rw (e, filters)
        (lookup-assign "open" k "true" (given params filter_keys [])
          ∙ rw (lookup-all params k, flip "open" k) (and_true (k == "open") _ _))
  | inr e ↦ rw (e, filters) (lookup-all params k ∙ and_false (k == "open") _ _)
]

given-cong :
    (p q : Dict String) (ks : List String) (f : Dict String)
    → All (λ k. lookup k p ≡ lookup k q) ks
    → given p ks f ≡ given q ks f
unfolding given
given-cong p q [] f h = refl
given-cong p q (k ∷ ks) f (e, h) =
    ap (λ o. given p ks (assign_given k (truthy o) f)) e ∙ given-cong p q ks _ h

-- No key stands twice.
abbrev IsUnique : Dict String → Type 0
IsUnique [] = Unit
IsUnique ((k, v) ∷ d) = (lookup k d ≡ none) × IsUnique d

abbrev first_of : Option String → Option String → Option String
first_of none b = b
first_of (some a) b = some a

lookup-view_filters :
    (params f : Dict String) (j : String)
    → IsUnique params
    → lookup j (view_filters params f)
      ≡ (if j == "offset" then lookup j f else first_of (lookup j params) (lookup j f))
unfolding view_filters
lookup-view_filters [] f j u = ground arith
lookup-view_filters ((k, v) ∷ params) f j (e, u) =
    rw (lookup-view_filters params (if k == "offset" then f else assign k v f) j u)
      (ground (arith, e, eq_iff k j, lookup-assign k j v f))

first_of-none : (o : Option String) → first_of o none ≡ o
first_of-none none = refl
first_of-none (some a) = refl

lookup-save_view :
    (params : Dict String) (j : String)
    → IsUnique params
    → lookup j (save_view params) ≡ (if j == "offset" then none else lookup j params)
unfolding save_view
lookup-save_view params j u =
    lookup-view_filters params [] j u
    ∙ ap (λ o. if j == "offset" then none else o) (first_of-none (lookup j params))

-- A view that is saved asks for what the address asked for, and starts on the first page; provided that
-- no key stands twice in the address.
pub filters-save_view :
    (params : Dict String)
    → IsUnique params
    → (filters (save_view params) ≡ filters params) × (lookup "offset" (save_view params) ≡ none)
unfolding filters
filters-save_view params u =
    let same : (j : String)
        → (j == "offset" ≡ false)
        → lookup j (save_view params) ≡ lookup j params =
      λ j h. lookup-save_view params j u ∙ ap (λ b. if b then none else lookup j params) h in
    let all = given-cong (save_view params) params filter_keys [] (
      same "q" refl,
      (
        same "status_id" refl,
        (
          same "tracker_id" refl,
          (
            same "priority_id" refl,
            (
              same "assignee" refl,
              (
                same "label_id" refl,
                (
                  same "milestone_id" refl,
                  (
                    same "open" refl,
                    (same "overdue" refl, (same "sort" refl, (same "dir" refl, tt))),
                  ),
                ),
              ),
            ),
          ),
        ),
      ),
    ) in
    (rw (same "open" refl, same "status_id" refl, all) refl, lookup-save_view params "offset" u)

abbrev turned : AriaSort → AriaSort
turned descending = ascending
turned ascending = descending
turned unsorted = descending

abbrev direction : Bool → String
direction asc = if asc then "asc" else "desc"

turns :
    (c d e : Bool)
    → (if e then (if direction (c && not d) == "asc" then ascending else descending) else unsorted)
      ≡ (if e
          then turned (if c then (if d then ascending else descending) else unsorted)
          else unsorted)
turns true true true = refl
turns true false true = refl
turns false true true = refl
turns false false true = refl
turns c d false = refl

-- A click on the head of a column orders by it, downwards unless it did so before, and by no other.
aria_sort-sort_by :
    (params : Dict String) (k j : String)
    → aria_sort j (sort_by k params) ≡ (if k == j then turned (aria_sort k params) else unsorted)
unfolding aria_sort sort_by
aria_sort-sort_by params k j =
    let current = or_else (lookup "sort" params) "updated" in
    let dir = or_else (lookup "dir" params) "" in
    let asc = if current == k && not (dir == "asc") then "asc" else "desc" in
    let first = set_param "sort" k params in
    let sorted : lookup "sort" (sort_by k params) ≡ some k =
      lookup-set_param "dir" "sort" asc first ∙ lookup-set_param "sort" "sort" k params in
    let directed : lookup "dir" (sort_by k params) ≡ some asc =
      lookup-set_param "dir" "dir" asc first in
    rw (sorted, directed) (turns (current == k) (dir == "asc") (k == j))
