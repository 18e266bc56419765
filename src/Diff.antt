-- ===== src/Diff.antt =====
-- web/src/lib/diff.ts: the line-based difference of two texts, by a table of longest common
-- subsequences and a walk through it.
pub mod Lcs
pub mod Table
pub mod Walk
pub mod Longest
use quagenticus.Base.{
  ℕ, zero, suc, ◌+◌, ◌*◌, ◌%◌, ◌^◌, max, Bool, true, false, Option, none, some, List, [], ◌∷◌, ◌++◌,
  ◌==◌, nat_eq, list_eq, Text, newline, leb, ltb, if◌then◌else◌, length, get_or, drop,
}

pub data LineType : Type 0 where
  same add del : LineType

pub record DiffLine : Type 0 where
  pub type : LineType
  pub text : Text
  pub old_no : Option ℕ
  pub new_no : Option ℕ

abbrev pub same_line : Text → ℕ → ℕ → DiffLine
same_line t i j = record { type = same; text = t; old_no = some i; new_no = some j }

abbrev pub del_line : Text → ℕ → DiffLine
del_line t i = record { type = del; text = t; old_no = some i; new_no = none }

abbrev pub add_line : Text → ℕ → DiffLine
add_line t j = record { type = add; text = t; old_no = none; new_no = some j }

-- a code unit in front of the first line
abbrev pub extend : ℕ → List Text → List Text
extend c [] = (c ∷ []) ∷ []
extend c (line ∷ lines) = (c ∷ line) ∷ lines

-- `text.split('\n')`, which is never empty
unfoldable pub split_lines : Text → List Text
split_lines [] = [] ∷ []
split_lines (c ∷ s) =
    let lines = split_lines s in if c == newline then [] ∷ lines else extend c lines

-- A `Uint32Array` keeps the value modulo 2 ^ 32.
abbrev pub u32 : ℕ → ℕ
u32 n = n % 2 ^ 32

-- The row `dp[i]` for the line `x`, from the row `dp[i + 1]`; the inner loop runs from the right.
unfoldable pub fill_row : Text → List Text → List ℕ → List ℕ
fill_row x [] below = 0 ∷ []
fill_row x (y ∷ ys) below =
    let row = fill_row x ys (drop 1 below) in
    (if x == y then u32 (get_or below 1 0 + 1) else max (get_or below 0 0) (get_or row 0 0)) ∷ row

abbrev pub zeros : ℕ → List ℕ
zeros zero = []
zeros (suc n) = 0 ∷ zeros n

-- `dp`; the outer loop runs from the last line up
unfoldable pub table : List Text → List Text → List (List ℕ)
table [] b = zeros (suc (length b)) ∷ []
table (x ∷ xs) b = let rows = table xs b in fill_row x b (get_or rows 0 []) ∷ rows

-- `dp[i][j]`
abbrev pub cell : List (List ℕ) → ℕ → ℕ → ℕ
cell rows i j = get_or (get_or rows i []) j 0

-- the last two loops, from the index `i` and from the index `j`
unfoldable pub dels : ℕ → List Text → List DiffLine
dels i [] = []
dels i (x ∷ xs) = del_line x (suc i) ∷ dels (suc i) xs

unfoldable pub adds : ℕ → List Text → List DiffLine
adds j [] = []
adds j (y ∷ ys) = add_line y (suc j) ∷ adds (suc j) ys

-- The loop `while (i < n && j < m)` and the two behind it; the lists are `a` from `i` on and `b`
-- from `j` on.
unfoldable pub walk : List (List ℕ) → ℕ → ℕ → List Text → List Text → List DiffLine
walk dp i j [] ys = adds j ys
walk dp i j (x ∷ xs) [] = dels i (x ∷ xs)
walk dp i j (x ∷ xs) (y ∷ ys) = elim (x == y) [
  | true ↦ same_line x (suc i) (suc j) ∷ walk dp (suc i) (suc j) xs ys
  | false ↦ elim (leb (cell dp i (suc j)) (cell dp (suc i) j)) [
    | true ↦ del_line x (suc i) ∷ walk dp (suc i) j xs (y ∷ ys)
    | false ↦ add_line y (suc j) ∷ walk dp i (suc j) (x ∷ xs) ys
  ]
]

abbrev pub limit : ℕ
limit = 4_000_000

unfoldable pub diff_lists : List Text → List Text → List DiffLine
diff_lists a b =
    if ltb limit (length a * length b) then dels 0 a ++ adds 0 b else walk (table a b) 0 0 a b

unfoldable pub diff_lines : Text → Text → List DiffLine
diff_lines old_text new_text = diff_lists (split_lines old_text) (split_lines new_text)
