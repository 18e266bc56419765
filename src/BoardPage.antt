-- ===== src/BoardPage.antt =====
-- web/src/pages/Board.tsx: the local copy of the board's columns, and how a drag changes it.
pub mod Drop
pub mod Session
pub mod Columns
pub mod Hover
use quagenticus.Base.{
  String, Bool, Option, none, some, List, [], ◌∷◌, ◌++◌, map, not, ◌==◌, string_eq, if◌then◌else◌,
  Dict, lookup, assign, any, find, find_index, keep, take, drop, length, or_else, same_char,
}
use quagenticus.Api.Types.{Board, BoardCard, BoardColumn}
use mathlib.Core.List.{foldl}

-- `Record<string, BoardCard[]>`, by status
abbrev pub Columns : Type 0
Columns = Dict (List BoardCard)

abbrev pub has_id : String → BoardCard → Bool
has_id id c = c.id == id

-- the body of the loop of `toColumns`
abbrev pub put_column : Columns → BoardColumn → Columns
put_column out c = assign c.status_id c.cards out

-- `toColumns`; a board that is not loaded yet is `none`
unfoldable pub to_columns : Option Board → Columns
to_columns none = []
to_columns (some board) = foldl put_column [] board.columns

-- `id.startsWith('col:')` and `id.slice(4)`
abbrev pub strip_prefix : String → String → Option String
strip_prefix String.[] s = some s
strip_prefix (String.◌∷◌ c p) String.[] = none
strip_prefix (String.◌∷◌ c p) (String.◌∷◌ d s) = if same_char c d then strip_prefix p s else none

-- the column that holds the card
abbrev pub status_of_card : String → Columns → Option String
status_of_card id [] = none
status_of_card id ((status, cards) ∷ columns) =
    if any (has_id id) cards then some status else status_of_card id columns

-- `findStatus`: the id of a column's drop zone is "col:" and the status, any other is a card's
unfoldable pub find_status : Columns → String → Option String
find_status columns id = elim (strip_prefix "col:" id) [
  | some status ↦ some status
  | none ↦ status_of_card id columns
]

-- The empty string is false in a test, as `null` is.
abbrev pub truthy : Option String → Option String
truthy none = none
truthy (some s) = if s == "" then none else some s

-- The object that the update of `onDragOver` returns: the card leaves `from` and enters `to` above
-- the card under the pointer, or last when the pointer is over no card of that column.
unfoldable pub relocate :
    String → String → String → String → List BoardCard → BoardCard → Columns → Columns
relocate active over from to cards card prev =
    let target = or_else (lookup to prev) [] in
    let index = or_else (find_index (has_id over) target) (length target) in
    assign to (take index target ++ record card { status_id = to } ∷ drop index target)
      (assign from (keep (λ c. not (has_id active c)) cards) prev)

-- The update of `onDragOver` at the previous columns; `none` where the source throws, because there
-- is no column `from`.
unfoldable pub move_across : String → String → String → String → Columns → Option Columns
move_across active over from to prev = elim (lookup from prev) [
  | none ↦ none
  | some cards ↦ elim (find (has_id active) cards) [
    | none ↦ some prev
    | some card ↦ some (relocate active over from to cards card prev)
  ]
]

-- `onDragOver`: `columns` are those of the last render, `prev` those of the state's update.
unfoldable pub on_drag_over : Columns → String → Option String → Columns → Option Columns
on_drag_over columns active none prev = some prev
on_drag_over columns active (some over) prev = elim (truthy (find_status columns active)) [
  | none ↦ some prev
  | some from ↦ elim (truthy (find_status columns over)) [
    | none ↦ some prev
    | some to ↦ if from == to then some prev else move_across active over from to prev
  ]
]
