-- ===== src/BoardPage/Columns.antt =====
-- Which cards the columns hold, and where, over the updates of a drag.
use quagenticus.Base.{
  ℕ, zero, suc, ◌+◌, ◌<◌, ◌≡◌, refl, ap, ◌∙◌, String, Bool, Bool-cases, Option, none, some, List,
  [], ◌∷◌, ◌++◌, map, not, ◌==◌, string_eq, if◌then◌else◌, lookup, assign, any, find, keep, take,
  drop, or_else, eq_iff, count, count-append, All, take-append-drop, arith, inl, inr,
}
use quagenticus.Api.Types.{BoardCard}
use quagenticus.BoardPage.{Columns, has_id, status_of_card, strip_prefix, find_status, truthy}
use mathlib.Core.List.{map-append}

-- how many cards of the list have the id
abbrev pub count_id : String → List BoardCard → ℕ
count_id id cards = count id (map (λ c. c.id) cards)

-- how many cards of the board have the id
abbrev pub total_id : String → Columns → ℕ
total_id id [] = 0
total_id id ((status, cards) ∷ columns) = count_id id cards + total_id id columns

pub count_id-append :
    (id : String) (xs ys : List BoardCard)
    → count_id id (xs ++ ys) ≡ count_id id xs + count_id id ys
count_id-append id xs ys = rw map-append (count-append id _ _)

pub count_id-insert :
    (id : String) (n : ℕ) (card : BoardCard) (cards : List BoardCard)
    → count_id id (take n cards ++ card ∷ drop n cards) ≡ count_id id (card ∷ cards)
count_id-insert id n card cards = ground (
  arith,
  count_id-append id (take n cards) (card ∷ drop n cards),
  count_id-append id (take n cards) (drop n cards),
  ap (count_id id) (take-append-drop n cards),
)

-- Replacing a column changes the total by the difference of the two columns.
pub total_id-assign :
    (id k : String) (cards : List BoardCard) (columns : Columns)
    → total_id id (assign k cards columns) + count_id id (or_else (lookup k columns) [])
      ≡ total_id id columns + count_id id cards
total_id-assign id k cards [] = omega arith
total_id-assign id k cards ((j, old) ∷ columns) = ground (arith, total_id-assign id k cards columns)

pub count_id-keep :
    (active id : String) (cards : List BoardCard)
    → count_id id (keep (λ c. not (has_id active c)) cards)
      ≡ (if id == active then 0 else count_id id cards)
count_id-keep active id [] = ground arith
count_id-keep active id (c ∷ cards) =
    ground
      (arith, count_id-keep active id cards, eq_iff c.id active, eq_iff c.id id, eq_iff id active)

pub find-eq-some :
    (id : String) (cards : List BoardCard) {c : BoardCard}
    → find (has_id id) cards ≡ some c
    → (c.id ≡ id) × (0 < count_id id cards)
find-eq-some id [] h = cc
find-eq-some id (c ∷ cards) {c = d} h =
    ground (arith, find-eq-some id cards {c = d}, eq_iff c.id id)

-- Every card lies in the column of its status.
abbrev pub Placed : Columns → Type 0
Placed [] = Unit
Placed ((status, cards) ∷ columns) = All (λ c. c.status_id ≡ status) cards × Placed columns

pub Placed-assign :
    (k : String) (cards : List BoardCard) (columns : Columns)
    → All (λ c. c.status_id ≡ k) cards
    → Placed columns
    → Placed (assign k cards columns)
Placed-assign k cards [] h p = (h, tt)
Placed-assign k cards ((j, old) ∷ columns) h (q, p) = elim (Bool-cases (j == k)) [
  | inl same ↦ rw same (h, p)
  | inr other ↦ rw other (q, Placed-assign k cards columns h p)
]

pub Placed-lookup :
    (k : String) (columns : Columns)
    → Placed columns
    → All (λ c. c.status_id ≡ k) (or_else (lookup k columns) [])
Placed-lookup k [] p = tt
Placed-lookup k ((j, old) ∷ columns) (q, p) = elim (Bool-cases (j == k)) [
  | inl same ↦ rw same (rw ((eq_iff j k).0 same) at q)
  | inr other ↦ rw other (Placed-lookup k columns p)
]

pub All-keep :
    (k : String) (p : BoardCard → Bool) (cards : List BoardCard)
    → All (λ c. c.status_id ≡ k) cards
    → All (λ c. c.status_id ≡ k) (keep p cards)
All-keep k p [] h = tt
All-keep k p (c ∷ cards) (q, h) = elim (Bool-cases (p c)) [
  | inl same ↦ rw same (q, All-keep k p cards h)
  | inr other ↦ rw other (All-keep k p cards h)
]

pub All-insert :
    (k : String) (n : ℕ) (card : BoardCard) (cards : List BoardCard)
    → card.status_id ≡ k
    → All (λ c. c.status_id ≡ k) cards
    → All (λ c. c.status_id ≡ k) (take n cards ++ card ∷ drop n cards)
All-insert k zero card cards e h = (e, h)
All-insert k (suc n) card [] e h = (e, tt)
All-insert k (suc n) card (c ∷ cards) e (q, h) = (q, All-insert k n card cards e h)

-- What an update of a drag keeps: how often each id stands on the board, and that every card lies
-- in the column of its status.
pub record Keeps (prev next : Columns) : Type 0 where
  pub totals : (id : String) → total_id id next ≡ total_id id prev
  pub placed : Placed next

pub Keeps-refl : (prev : Columns) → Placed prev → Keeps prev prev
Keeps-refl prev p = record { totals = λ id. refl; placed = p }

pub Keeps-trans : {a b c : Columns} → Keeps a b → Keeps b c → Keeps a c
Keeps-trans h k = record { totals = λ id. k.totals id ∙ h.totals id; placed = k.placed }

pub truthy-eq-some : (o : Option String) {s : String} → truthy o ≡ some s → o ≡ some s
truthy-eq-some none h = cc
truthy-eq-some (some t) h = ground arith

-- The column in which `findStatus` finds a card is on the board.
pub lookup_of_status_of_card :
    (id s : String) (columns : Columns)
    → status_of_card id columns ≡ some s
    → (cards : List BoardCard) × (lookup s columns ≡ some cards)
lookup_of_status_of_card id s [] h = cc
lookup_of_status_of_card id s ((j, cards) ∷ columns) h = elim (Bool-cases (any (has_id id) cards)) [
  | inl here ↦ (cards, ground (arith, eq_iff j s))
  | inr later ↦
      let (found, e) = lookup_of_status_of_card id s columns (rw later at h) in
      elim (Bool-cases (j == s)) [
        | inl same ↦ (cards, rw same refl)
        | inr other ↦ (found, rw other e)
      ]
]

pub lookup_of_find_status :
    (id s : String) (columns : Columns)
    → strip_prefix "col:" id ≡ none
    → find_status columns id ≡ some s
    → (cards : List BoardCard) × (lookup s columns ≡ some cards)
unfolding find_status
lookup_of_find_status id s columns card h =
    lookup_of_status_of_card id s columns (rw (card, find_status) at h)
