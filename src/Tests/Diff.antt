-- ===== src/Tests/Diff.antt =====
-- web/src/lib/diff.ts on two short texts.
use quagenticus.Base.{◌≤◌, ◌≡◌, refl, List, [], ◌∷◌, Text, codes, length, arith}
use quagenticus.Diff.{
  cell, same_line, del_line, add_line, split_lines, fill_row, table, dels, adds, walk, diff_lists,
  diff_lines,
}
use quagenticus.Diff.Lcs.{lcs, Sub, stop, skip, pick}
use quagenticus.Diff.Walk.{
  IsDiff, kept, join_lines, old_side, new_side, diff_lists-IsDiff, diff_lines-sides,
}
use quagenticus.Diff.Table.{cell-table}
use quagenticus.Diff.Longest.{kept-longest}

abbrev old_text : Text
old_text = codes "a\nb\nc"

abbrev new_text : Text
new_text = codes "b\nc\nd"

abbrev old_lines : List Text
old_lines = codes "a" ∷ codes "b" ∷ codes "c" ∷ []

abbrev new_lines : List Text
new_lines = codes "b" ∷ codes "c" ∷ codes "d" ∷ []

abbrev common : List Text
common = codes "b" ∷ codes "c" ∷ []

split_old : split_lines old_text ≡ old_lines
unfolding split_lines
split_old = refl

diff_of_lines :
    diff_lists old_lines new_lines
    ≡ del_line (codes "a") 1
      ∷ same_line (codes "b") 2 1
      ∷ same_line (codes "c") 3 2
      ∷ add_line (codes "d") 3
      ∷ []
unfolding diff_lists table fill_row walk dels adds
diff_of_lines = refl

diff_lists-IsDiff_example : IsDiff 0 0 old_lines new_lines (diff_lists old_lines new_lines)
diff_lists-IsDiff_example = diff_lists-IsDiff old_lines new_lines

diff_lines-sides_example :
    (join_lines (old_side (diff_lines old_text new_text)) ≡ old_text)
    × (join_lines (new_side (diff_lines old_text new_text)) ≡ new_text)
diff_lines-sides_example = diff_lines-sides old_text new_text

common-Sub_old : Sub common (split_lines old_text)
unfolding split_lines
common-Sub_old = skip (pick refl (pick refl stop))

common-Sub_new : Sub common (split_lines new_text)
unfolding split_lines
common-Sub_new = pick refl (pick refl (skip stop))

kept-longest_example : length common ≤ kept (diff_lines old_text new_text)
unfolding split_lines
kept-longest_example =
    kept-longest old_text new_text common (omega arith) common-Sub_old common-Sub_new

cell-table_example : cell (table old_lines new_lines) 0 0 ≡ 2
unfolding lcs
cell-table_example = cell-table old_lines new_lines 0 0 (omega arith)
