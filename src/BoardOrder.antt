-- ===== src/BoardOrder.antt =====
-- web/src/lib/boardOrder.ts: the neighbours of a dropped card, and the move inside a column.
pub mod Laws
use quagenticus.Base.{
  ℕ, suc, ◌+◌, ◌-◌, Option, none, some, List, [], ◌∷◌, ◌++◌, Eq, ◌==◌, index_of, get_elem?, take,
  drop, length, ltb, if◌then◌else◌,
}

-- `{ before_id?, after_id? }`; `undefined` is `none`
pub record Neighbours {ℓ} (A : Type ℓ) : Type ℓ where
  pub before_id : Option A
  pub after_id : Option A

-- `copy.splice(at, 1)`: the element taken out, and what is left
abbrev pub splice_out {ℓ} : {A : Type ℓ} → List A → ℕ → Option A × List A
splice_out xs at = (get_elem? xs at, take at xs ++ drop (suc at) xs)

-- `copy.splice(at, 0, item)`
abbrev pub splice_in {ℓ} : {A : Type ℓ} → List A → ℕ → A → List A
splice_in xs at item = take at xs ++ item ∷ drop at xs

-- the two fields at the index `idx`
abbrev pub around {ℓ} : {A : Type ℓ} → List A → ℕ → Neighbours A
around ordered_ids idx = record {
  before_id = if ltb 0 idx then get_elem? ordered_ids (idx - 1) else none;
  after_id = if ltb idx (length ordered_ids - 1) then get_elem? ordered_ids (idx + 1) else none;
}

module _ {ℓ} {A : Type ℓ} ⦃e : Eq A⦄ where
  unfoldable pub neighbours : List A → A → Neighbours A
  neighbours ordered_ids moved_id = elim (index_of moved_id ordered_ids) [
    | none ↦ record { before_id = none; after_id = none }
    | some idx ↦ around ordered_ids idx
  ]

-- Out of range the source inserts `undefined`: `none` stands for that result.
unfoldable pub array_move {ℓ} : {A : Type ℓ} → List A → ℕ → ℕ → Option (List A)
array_move arr from to =
    let (taken, rest) = splice_out arr from in
    elim taken [ none ↦ none | some item ↦ some (splice_in rest to item) ]
