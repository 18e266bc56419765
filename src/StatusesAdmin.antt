-- ===== src/StatusesAdmin.antt =====
-- `StatusesAdmin` of web/src/components/admin/WorkflowAdmin.tsx: the order of the statuses, which is that of
-- the columns of every board, and their names. `trim` is the browser's `String.trim`.
pub mod Swaps
use quagenticus.Base.{
  ℕ, zero, suc, ◌+◌, ◌-◌, String, Bool, Option, none, some, List, ◌==◌, ◌||◌, string_eq, nat_eq,
  length, if◌then◌else◌,
}
use quagenticus.BoardOrder.{splice_out, splice_in}

-- the two buttons, of `delta` -1 and 1
pub data Direction : Type 0 where
  up down : Direction

-- Whether the button of the status at `i` is disabled.
abbrev pub disabled : List String → ℕ → Direction → Bool
disabled ids i up = i == 0
disabled ids i down = i == length ids - 1

-- `index + delta`; the first status has no button up
abbrev pub place : ℕ → Direction → ℕ
place index up = index - 1
place index down = index + 1

-- `move`: the order that is sent
abbrev pub move : List String → ℕ → Direction → Option (List String)
move ids index d =
    let (taken, rest) = splice_out ids index in
    elim taken [ none ↦ none | some id ↦ some (splice_in rest (place index d) id) ]

-- a click of a button
unfoldable pub click : List String → ℕ → Direction → Option (List String)
click ids i d = if disabled ids i d then none else move ids i d

-- The name that is sent when the field of a name is left, and when the form of a new status is sent.
abbrev pub rename : (String → String) → String → String → Option String
rename trim value name = if trim value == "" || value == name then none else some (trim value)

abbrev pub new_name : (String → String) → String → Option String
new_name trim name = if trim name == "" then none else some (trim name)
