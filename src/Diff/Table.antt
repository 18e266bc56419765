-- ===== src/Diff/Table.antt =====
-- The table of web/src/lib/diff.ts holds the lengths of longest common subsequences.
use quagenticus.Base.{
  ℕ, zero, suc, ◌^◌, ◌<◌, ◌≡◌, refl, ◌∙◌, List, [], ◌∷◌, nat_eq, list_eq, Text, length, get_or,
  drop, arith,
}
use quagenticus.Diff.{fill_row, zeros, table, cell}
use quagenticus.Diff.Lcs.{lcs, lcs-le-length}

get_or-zeros : (n j : ℕ) → get_or (zeros n) j 0 ≡ 0
get_or-zeros zero j = refl
get_or-zeros (suc n) zero = refl
get_or-zeros (suc n) (suc j) = get_or-zeros n j

get_or-drop-one : (row : List ℕ) (j : ℕ) → get_or (drop 1 row) j 0 ≡ get_or row (suc j) 0
get_or-drop-one [] j = refl
get_or-drop-one (v ∷ row) j = refl

-- `row` holds, at each `j`, the length for `xs` and the lines of `b` from `j` on.
abbrev IsRow : List Text → List Text → List ℕ → Type 0
IsRow xs b row = (j : ℕ) → get_or row j 0 ≡ lcs xs (drop j b)

-- The sum in a cell does not wrap, since it is at most the number of lines.
fill_row-IsRow :
    (x : Text) (xs b : List Text) (below : List ℕ)
    → suc (length xs) < 2 ^ 32
    → IsRow xs b below
    → IsRow (x ∷ xs) b (fill_row x b below)
unfolding fill_row lcs
fill_row-IsRow x xs [] below small h zero = refl
fill_row-IsRow x xs [] below small h (suc j) = refl
fill_row-IsRow x xs (y ∷ ys) below small h zero = ground (
  arith,
  h 0,
  h 1,
  lcs-le-length xs ys,
  fill_row-IsRow x xs ys (drop 1 below) small (λ j. get_or-drop-one below j ∙ h (suc j)) 0,
)
fill_row-IsRow x xs (y ∷ ys) below small h (suc j) =
    fill_row-IsRow x xs ys (drop 1 below) small (λ k. get_or-drop-one below k ∙ h (suc k)) j

table-IsRow : (b a : List Text) → length a < 2 ^ 32 → IsRow a b (get_or (table a b) 0 [])
unfolding table lcs
table-IsRow b [] small = λ j. get_or-zeros (suc (length b)) j
table-IsRow b (x ∷ xs) small =
    fill_row-IsRow x xs b (get_or (table xs b) 0 []) small (table-IsRow b xs (omega arith))

-- With fewer than 2 ^ 32 lines on the old side, the cell at `i` and `j` is the length of a longest
-- common subsequence of the old lines from `i` on and the new lines from `j` on.
pub cell-table :
    (a b : List Text) (i j : ℕ)
    → length a < 2 ^ 32
    → cell (table a b) i j ≡ lcs (drop i a) (drop j b)
unfolding table lcs
cell-table a b zero j small = table-IsRow b a small j
cell-table [] b (suc i) j small = refl
cell-table (x ∷ xs) b (suc i) j small = cell-table xs b i j (omega arith)
