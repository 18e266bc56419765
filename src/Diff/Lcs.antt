-- ===== src/Diff/Lcs.antt =====
-- The specification: the length of a longest common subsequence.
use quagenticus.Base.{
  ℕ, suc, max, ◌≤◌, ◌≡◌, true, false, Bool-cases, List, [], ◌∷◌, Eq, ◌==◌, length, arith, ◌⊎◌, inl,
  inr,
}

module _ {ℓ} {A : Type ℓ} where
  -- `Sub zs xs`: the list `zs` is a subsequence of `xs`.
  pub data Sub : List A → List A → Type ℓ where
    stop : Sub [] []
    skip : {zs xs : List A} {x : A} → Sub zs xs → Sub zs (x ∷ xs)
    pick : {zs xs : List A} {z x : A} → z ≡ x → Sub zs xs → Sub (z ∷ zs) (x ∷ xs)

  Sub-tail : {z : A} {zs xs : List A} → Sub (z ∷ zs) xs → Sub zs xs
  Sub-tail (skip s) = skip (Sub-tail s)
  Sub-tail (pick e s) = skip s

  Sub-tails : {z x : A} {zs xs : List A} → Sub (z ∷ zs) (x ∷ xs) → Sub zs xs
  Sub-tails (skip s) = Sub-tail s
  Sub-tails (pick e s) = s

  Sub-head : {z x : A} {zs xs : List A} → Sub (z ∷ zs) (x ∷ xs) → (z ≡ x) ⊎ Sub (z ∷ zs) xs
  Sub-head (skip s) = inr s
  Sub-head (pick e s) = inl e

module _ {ℓ} {A : Type ℓ} ⦃e : Eq A⦄ where
  unfoldable pub lcs : List A → List A → ℕ
  lcs [] ys = 0
  lcs (x ∷ xs) [] = 0
  lcs (x ∷ xs) (y ∷ ys) = elim (x == y) [
    | true ↦ suc (lcs xs ys)
    | false ↦ max (lcs xs (y ∷ ys)) (lcs (x ∷ xs) ys)
  ]

  pub lcs-le-length : (xs ys : List A) → lcs xs ys ≤ length xs
  unfolding lcs
  lcs-le-length [] ys = omega arith
  lcs-le-length (x ∷ xs) [] = omega arith
  lcs-le-length (x ∷ xs) (y ∷ ys) =
      ground (arith, lcs-le-length xs ys, lcs-le-length xs (y ∷ ys), lcs-le-length (x ∷ xs) ys)

  -- No common subsequence is longer than `lcs`.
  pub Sub-le-lcs : (xs ys zs : List A) → Sub zs xs → Sub zs ys → length zs ≤ lcs xs ys
  unfolding lcs
  Sub-le-lcs xs ys [] s t = omega arith
  Sub-le-lcs [] ys (z ∷ zs) s t = elim s [ ]
  Sub-le-lcs (x ∷ xs) [] (z ∷ zs) s t = elim t [ ]
  Sub-le-lcs (x ∷ xs) (y ∷ ys) (z ∷ zs) s t = elim (Bool-cases (x == y)) [
    | inl same ↦ rw (same, lcs) (omega (arith, Sub-le-lcs xs ys zs (Sub-tails s) (Sub-tails t)))
    | inr other ↦ elim (Sub-head s) [
      | inr later ↦ rw (other, lcs) (omega (arith, Sub-le-lcs xs (y ∷ ys) (z ∷ zs) later t))
      | inl here ↦ elim (Sub-head t) [
        | inr later ↦ rw (other, lcs) (omega (arith, Sub-le-lcs (x ∷ xs) ys (z ∷ zs) s later))
        | inl there ↦ absurd (ground (arith, e.same_iff x y, here, there))
      ]
    ]
  ]
