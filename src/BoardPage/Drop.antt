-- ===== src/BoardPage/Drop.antt =====
-- web/src/pages/Board.tsx: the end of a drag (`onDragEnd`), its optimistic update, and what the reply
-- of the server does to the cached board. The dialog's answer and the reply are arguments.
pub mod Order
pub mod Request
pub mod Reply
use quagenticus.Base.{
  ℕ, ◌-◌, String, Bool, true, false, Option, none, some, List, [], ◌∷◌, map, not, ◌==◌, ◌&&◌,
  string_eq, nat_eq, if◌then◌else◌, lookup, assign, find, find_index, length, or_else, index_of,
}
use quagenticus.Api.Types.{Board, BoardCard, BoardColumn, WorkflowStatus}
use quagenticus.BoardOrder.{neighbours, array_move}
use quagenticus.BoardPage.{Columns, has_id, to_columns, find_status, truthy}

-- `{ resolution?: string }`
pub record Extras : Type 0 where
  pub resolution : Option String

abbrev pub no_extras : Extras
no_extras = record { resolution = none }

-- `askTransitionExtras` of web/src/components/requirement/StatusSelect.tsx. The second argument is
-- what the dialog resolves to, `none` for `false`.
unfoldable pub ask_transition_extras : WorkflowStatus → Option String → Option Extras
ask_transition_extras target v =
    if not target.requires_resolution
    then some no_extras
    else elim v [ none ↦ none | some text ↦ some (record { resolution = some text }) ]

-- The argument of `move.mutate`.
pub record MoveRequest : Type 0 where
  pub id : String
  pub to_status_id : Option String
  pub before_id : Option String
  pub after_id : Option String
  pub resolution : Option String

-- How `onDragEnd` ends: it returns, it sets the columns back to those of the board, it throws on a
-- missing column, or it sets the optimistic columns and sends the request.
pub data Outcome : Type 0 where
  ignored reset throws : Outcome
  moved : MoveRequest → Columns → Outcome

abbrev pub ids_of : List BoardCard → List String
ids_of = map (λ c. c.id)

-- The new order of the column; `splice(-1, 1)` takes the last element.
unfoldable pub reorder : List String → String → String → Option (List String)
reorder ordered id over = elim (index_of over ordered) [
  | none ↦ some ordered
  | some over_index ↦ elim (index_of id ordered) [
    | none ↦ array_move ordered (length ordered - 1) over_index
    | some from_index ↦
        if from_index == over_index then some ordered else array_move ordered from_index over_index
  ]
]

-- `board?.columns.find(…)?.cards.findIndex(…) ?? -1`, with `none` for -1
unfoldable pub server_index : Option Board → String → String → Option ℕ
server_index none status id = none
server_index (some board) status id =
    elim (find (λ (c : BoardColumn). c.status_id == status) board.columns) [
      | none ↦ none
      | some column ↦ find_index (has_id id) column.cards
    ]

abbrev pub same_index : Option ℕ → Option ℕ → Bool
same_index none none = true
same_index none (some _) = false
same_index (some _) none = false
same_index (some i) (some j) = i == j

-- `byId.get(id)`: of several entries of a key a `Map` keeps the last.
abbrev pub find_last : String → List BoardCard → Option BoardCard
find_last id [] = none
find_last id (c ∷ cards) = elim (find_last id cards) [
  | some later ↦ some later
  | none ↦ if has_id id c then some c else none
]

abbrev pub by_id : String → Columns → Option BoardCard
by_id id [] = none
by_id id ((status, cards) ∷ columns) = elim (by_id id columns) [
  | some later ↦ some later
  | none ↦ find_last id cards
]

-- `ordered.map((cid) => byId.get(cid)!).filter(Boolean)`
abbrev pub cards_of : (String → Option BoardCard) → List String → List BoardCard
cards_of get [] = []
cards_of get (cid ∷ ordered) =
    let rest = cards_of get ordered in elim (get cid) [ none ↦ rest | some card ↦ card ∷ rest ]

unfoldable pub optimistic : Columns → String → List String → Columns
optimistic columns status ordered =
    assign status (cards_of (λ cid. by_id cid columns) ordered) columns

-- The part of `onDragEnd` behind the dialog.
unfoldable pub send : Columns → String → String → Bool → List String → Extras → Outcome
send columns id status changed_status ordered extras =
    moved
      (record {
        id = id;
        to_status_id = if changed_status then some status else none;
        before_id = (neighbours ordered id).before_id;
        after_id = (neighbours ordered id).after_id;
        resolution = extras.resolution;
      })
      (optimistic columns status ordered)

-- `extras`; `none` where the dialog was cancelled
unfoldable pub extras_for : List WorkflowStatus → String → Bool → Option String → Option Extras
extras_for statuses status changed_status answer =
    if changed_status
    then elim (find (λ (s : WorkflowStatus). s.id == status) statuses) [
      | none ↦ some no_extras
      | some target ↦ ask_transition_extras target answer
    ]
    else some no_extras

-- `onDragEnd` once the column of the card and its cards are known.
unfoldable pub drop_in :
    Columns
    → Option Board
    → List WorkflowStatus
    → Option String
    → String
    → String
    → String
    → String
    → List BoardCard
    → Outcome
drop_in columns board statuses answer origin id over status cards =
    elim (reorder (ids_of cards) id over) [
      | none ↦ throws
      | some ordered ↦
          let changed_status = not (status == origin) in
          if not changed_status && same_index (index_of id ordered) (server_index board status id)
          then reset
          else elim (extras_for statuses status changed_status answer) [
            | none ↦ reset
            | some extras ↦ send columns id status changed_status ordered extras
          ]
    ]

-- `onDragEnd`: `over` is the drop target, `origin` the column in which the drag began.
unfoldable pub on_drag_end :
    Columns
    → Option Board
    → List WorkflowStatus
    → Option String
    → Option String
    → String
    → Option String
    → Outcome
on_drag_end columns board statuses answer origin id none = reset
on_drag_end columns board statuses answer origin id (some over) = elim (truthy origin) [
  | none ↦ reset
  | some from ↦ elim (truthy (find_status columns id)) [
    | none ↦ ignored
    | some status ↦ elim (lookup status columns) [
      | none ↦ throws
      | some cards ↦ drop_in columns board statuses answer from id over status cards
    ]
  ]
]
