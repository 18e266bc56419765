-- ===== src/Diff/Walk.antt =====
-- What the list of lines that `diffLines` returns says of the two texts.
use quagenticus.Base.{
  ℕ, suc, ◌*◌, ◌<◌, ◌≡◌, refl, ap, Bool-cases, none, some, List, [], ◌∷◌, ◌++◌, ◌==◌, nat_eq,
  list_eq, append-nil, Text, newline, leb, ltb, length, arith, inl, inr,
}
use quagenticus.Diff.{
  DiffLine, same, add, del, same_line, del_line, add_line, extend, split_lines, table, cell, dels,
  adds, walk, limit, diff_lists, diff_lines,
}

-- the lines of the old text, and those of the new one
abbrev pub old_side : List DiffLine → List Text
old_side [] = []
old_side (l ∷ d) =
    let rest = old_side d in elim l.type [ same ↦ l.text ∷ rest | del ↦ l.text ∷ rest | add ↦ rest ]

abbrev pub new_side : List DiffLine → List Text
new_side [] = []
new_side (l ∷ d) =
    let rest = new_side d in elim l.type [ same ↦ l.text ∷ rest | add ↦ l.text ∷ rest | del ↦ rest ]

-- the number of unchanged lines
abbrev pub kept : List DiffLine → ℕ
kept [] = 0
kept (l ∷ d) = let rest = kept d in elim l.type [ same ↦ suc rest | add ↦ rest | del ↦ rest ]

-- The line numbers of one side: present exactly on the lines of that side, counted from `i + 1` on.
abbrev pub OldNumbered : ℕ → List DiffLine → Type 0
OldNumbered i [] = Unit
OldNumbered i (l ∷ d) = elim l.type [
  | add ↦ (l.old_no ≡ none) × OldNumbered i d
  | _ ↦ (l.old_no ≡ some (suc i)) × OldNumbered (suc i) d
]

abbrev pub NewNumbered : ℕ → List DiffLine → Type 0
NewNumbered j [] = Unit
NewNumbered j (l ∷ d) = elim l.type [
  | del ↦ (l.new_no ≡ none) × NewNumbered j d
  | _ ↦ (l.new_no ≡ some (suc j)) × NewNumbered (suc j) d
]

-- A list of lines that tells how the old lines become the new ones.
pub record IsDiff (i j : ℕ) (a b : List Text) (d : List DiffLine) : Type 0 where
  pub old : old_side d ≡ a
  pub new : new_side d ≡ b
  pub old_numbered : OldNumbered i d
  pub new_numbered : NewNumbered j d

module _ {i j : ℕ} {a b : List Text} {d : List DiffLine} (x : Text) where
  IsDiff-add : IsDiff i (suc j) a b d → IsDiff i j a (x ∷ b) (add_line x (suc j) ∷ d)
  IsDiff-add r = record {
    old = r.old;
    new = ap (x ∷◌) r.new;
    old_numbered = (refl, r.old_numbered);
    new_numbered = (refl, r.new_numbered);
  }

  IsDiff-del : IsDiff (suc i) j a b d → IsDiff i j (x ∷ a) b (del_line x (suc i) ∷ d)
  IsDiff-del r = record {
    old = ap (x ∷◌) r.old;
    new = r.new;
    old_numbered = (refl, r.old_numbered);
    new_numbered = (refl, r.new_numbered);
  }

  IsDiff-same :
      (y : Text)
      → x ≡ y
      → IsDiff (suc i) (suc j) a b d
      → IsDiff i j (x ∷ a) (y ∷ b) (same_line x (suc i) (suc j) ∷ d)
  IsDiff-same y e r = record {
    old = ap (x ∷◌) r.old;
    new = cc (e, r.new);
    old_numbered = (refl, r.old_numbered);
    new_numbered = (refl, r.new_numbered);
  }

IsDiff-nil : (i j : ℕ) → IsDiff i j [] [] []
IsDiff-nil i j = record { old = refl; new = refl; old_numbered = tt; new_numbered = tt }

adds-IsDiff : (i j : ℕ) (ys : List Text) → IsDiff i j [] ys (adds j ys)
unfolding adds
adds-IsDiff i j [] = IsDiff-nil i j
adds-IsDiff i j (y ∷ ys) = IsDiff-add y (adds-IsDiff i (suc j) ys)

dels-append-IsDiff :
    (i j : ℕ) (xs ys : List Text) (d : List DiffLine)
    → ((k : ℕ) → IsDiff k j [] ys d)
    → IsDiff i j xs ys (dels i xs ++ d)
unfolding dels
dels-append-IsDiff i j [] ys d h = h i
dels-append-IsDiff i j (x ∷ xs) ys d h = IsDiff-del x (dels-append-IsDiff (suc i) j xs ys d h)

dels-IsDiff : (i j : ℕ) (xs : List Text) → IsDiff i j xs [] (dels i xs)
dels-IsDiff i j xs = rw append-nil at (dels-append-IsDiff i j xs [] [] λ k. IsDiff-nil k j)

walk-IsDiff :
    (dp : List (List ℕ)) (i j : ℕ) (xs ys : List Text) → IsDiff i j xs ys (walk dp i j xs ys)
unfolding walk
walk-IsDiff dp i j [] ys = adds-IsDiff i j ys
walk-IsDiff dp i j (x ∷ xs) [] = dels-IsDiff i j (x ∷ xs)
walk-IsDiff dp i j (x ∷ xs) (y ∷ ys) = elim (Bool-cases (x == y)) [
  | inl e ↦
      rw (e, walk)
        (IsDiff-same x y ((list_eq.same_iff x y).0 e) (walk-IsDiff dp (suc i) (suc j) xs ys))
  | inr e ↦ elim (Bool-cases (leb (cell dp i (suc j)) (cell dp (suc i) j))) [
    | inl f ↦ rw (e, walk) (rw (f, walk) (IsDiff-del x (walk-IsDiff dp (suc i) j xs (y ∷ ys))))
    | inr f ↦ rw (e, walk) (rw (f, walk) (IsDiff-add y (walk-IsDiff dp i (suc j) (x ∷ xs) ys)))
  ]
]

-- For any two lists of lines, beyond the limit of the table and below it: the unchanged and the
-- removed lines are the old lines in their order, the unchanged and the added ones the new lines,
-- and on each side the lines are numbered from 1 on, those of the other side not at all.
pub diff_lists-IsDiff : (a b : List Text) → IsDiff 0 0 a b (diff_lists a b)
unfolding diff_lists
diff_lists-IsDiff a b = elim (Bool-cases (ltb limit (length a * length b))) [
  | inl large ↦
      rw (large, diff_lists) (dels-append-IsDiff 0 0 a b (adds 0 b) λ k. adds-IsDiff k 0 b)
  | inr small ↦ rw (small, diff_lists) (walk-IsDiff (table a b) 0 0 a b)
]

-- `lines.join('\n')`
abbrev pub join_lines : List Text → Text
join_lines [] = []
join_lines (line ∷ []) = line
join_lines (line ∷ next ∷ lines) = line ++ newline ∷ join_lines (next ∷ lines)

join_lines-extend :
    (c : ℕ) (lines : List Text)
    → 0 < length lines
    → join_lines (extend c lines) ≡ c ∷ join_lines lines
join_lines-extend c [] h = absurd (omega arith)
join_lines-extend c (line ∷ []) h = refl
join_lines-extend c (line ∷ next ∷ lines) h = refl

join_lines-nil :
    (lines : List Text) → 0 < length lines → join_lines ([] ∷ lines) ≡ newline ∷ join_lines lines
join_lines-nil [] h = absurd (omega arith)
join_lines-nil (line ∷ lines) h = refl

length-extend : (c : ℕ) (lines : List Text) → 0 < length (extend c lines)
length-extend c [] = omega arith
length-extend c (line ∷ lines) = omega arith

pub length-split_lines : (s : Text) → 0 < length (split_lines s)
unfolding split_lines
length-split_lines [] = omega arith
length-split_lines (c ∷ s) = elim (Bool-cases (c == newline)) [
  | inl e ↦ rw (e, split_lines) (omega arith)
  | inr e ↦ rw (e, split_lines) (length-extend c (split_lines s))
]

join_lines-split_lines : (s : Text) → join_lines (split_lines s) ≡ s
unfolding split_lines
join_lines-split_lines [] = refl
join_lines-split_lines (c ∷ s) = elim (Bool-cases (c == newline)) [
  | inl e ↦
      rw (e, split_lines)
        (cc (
          join_lines-nil (split_lines s) (length-split_lines s),
          join_lines-split_lines s,
          (nat_eq.same_iff c newline).0 e,
        ))
  | inr e ↦
      rw (e, split_lines)
        (cc (join_lines-extend c (split_lines s) (length-split_lines s), join_lines-split_lines s))
]

-- For every two texts, nothing of either is lost: joining the unchanged and the removed lines gives
-- the old text back, and joining the unchanged and the added lines the new one.
pub diff_lines-sides :
    (old_text new_text : Text)
    → (join_lines (old_side (diff_lines old_text new_text)) ≡ old_text)
      × (join_lines (new_side (diff_lines old_text new_text)) ≡ new_text)
unfolding diff_lines
diff_lines-sides s t =
    let d = diff_lists-IsDiff (split_lines s) (split_lines t) in
    (rw d.old (join_lines-split_lines s), rw d.new (join_lines-split_lines t))
