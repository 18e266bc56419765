-- ===== src/Diff/Longest.antt =====
-- The walk of web/src/lib/diff.ts keeps as many lines as can be kept.
use quagenticus.Base.{
  ℕ, zero, suc, ◌*◌, ◌^◌, ◌≤◌, ◌<◌, ◌≡◌, refl, List, [], ◌∷◌, nat_eq, list_eq, Text, length, drop,
  arith,
}
use quagenticus.Diff.{table, dels, adds, walk, split_lines, diff_lines, diff_lists}
use quagenticus.Diff.Lcs.{Sub, lcs, Sub-le-lcs}
use quagenticus.Diff.Table.{cell-table}
use quagenticus.Diff.Walk.{kept, length-split_lines}

kept-dels : (i : ℕ) (xs : List Text) → kept (dels i xs) ≡ 0
unfolding dels
kept-dels i [] = refl
kept-dels i (x ∷ xs) = kept-dels (suc i) xs

kept-adds : (j : ℕ) (ys : List Text) → kept (adds j ys) ≡ 0
unfolding adds
kept-adds j [] = refl
kept-adds j (y ∷ ys) = kept-adds (suc j) ys

drop-suc :
    (i : ℕ) (a : List Text) {x : Text} {xs : List Text} → drop i a ≡ x ∷ xs → drop (suc i) a ≡ xs
drop-suc zero [] h = cc
drop-suc zero (y ∷ a) h = cc
drop-suc (suc i) [] h = cc
drop-suc (suc i) (y ∷ a) h = drop-suc i a h

module _ (a b : List Text) (small : length a < 2 ^ 32) where
  kept-walk :
      (i j : ℕ) (xs ys : List Text)
      → drop i a ≡ xs
      → drop j b ≡ ys
      → kept (walk (table a b) i j xs ys) ≡ lcs xs ys
  unfolding walk lcs
  kept-walk i j [] ys p q = kept-adds j ys
  kept-walk i j (x ∷ xs) [] p q = kept-dels i (x ∷ xs)
  kept-walk i j (x ∷ xs) (y ∷ ys) p q = ground (
    arith,
    kept-walk (suc i) (suc j) xs ys (drop-suc i a p) (drop-suc j b q),
    kept-walk (suc i) j xs (y ∷ ys) (drop-suc i a p) q,
    kept-walk i (suc j) (x ∷ xs) ys p (drop-suc j b q),
    cell-table a b (suc i) j small,
    cell-table a b i (suc j) small,
    drop-suc i a p,
    drop-suc j b q,
  )

le-mul : (n m : ℕ) → 0 < m → n ≤ n * m
le-mul n m h = grind arith

-- For two texts whose numbers of lines have a product of at most 4,000,000, no common subsequence
-- of their lines is longer than the number of unchanged lines that the difference shows.
pub kept-longest :
    (old_text new_text : Text) (zs : List Text)
    → length (split_lines old_text) * length (split_lines new_text) ≤ 4_000_000
    → Sub zs (split_lines old_text)
    → Sub zs (split_lines new_text)
    → length zs ≤ kept (diff_lines old_text new_text)
unfolding diff_lines diff_lists
kept-longest old_text new_text zs h s t =
    let a = split_lines old_text in
    let b = split_lines new_text in
    let few : length a < 2 ^ 32 =
      omega (arith, le-mul (length a) (length b) (length-split_lines new_text)) in
    ground (arith, kept-walk a b few 0 0 a b refl refl, Sub-le-lcs a b zs s t, h)
