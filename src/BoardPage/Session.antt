-- ===== src/BoardPage/Session.antt =====
-- web/src/pages/Board.tsx: a whole drag, from the columns of the cached board over any number of
-- hovers (`onDragStart`, `onDragOver`, `onDragCancel`).
use quagenticus.Base.{◌≡◌, refl, ◌∙◌, String, Option, none, some, List, [], ◌∷◌, arith}
use quagenticus.Api.Types.{Board}
use quagenticus.BoardPage.{Columns, to_columns, find_status, strip_prefix, on_drag_over}
use quagenticus.BoardPage.Columns.{total_id, Placed, Keeps, Keeps-refl, Keeps-trans}
use quagenticus.BoardPage.Hover.{on_drag_over-Keeps}
use quagenticus.BoardPage.Drop.{moved, MoveRequest, on_drag_end}
use quagenticus.BoardPage.Drop.Order.{IsBoard}
use quagenticus.BoardPage.Drop.Request.{Shows, on_drag_end-Shows}
use quagenticus.Api.Types.{WorkflowStatus}

-- The states `activeId`, `originStatus` and `columns`. The ids of cards are those of the server, and never empty:
-- a text in `active_id` is a card that is dragged.
pub record DragState : Type 0 where
  pub active_id : Option String
  pub origin_status : Option String
  pub columns : Columns

unfoldable pub on_drag_start : String → DragState → DragState
on_drag_start active st = record st {
  active_id = some active;
  origin_status = find_status st.columns active;
}

pub on_drag_cancel : Option Board → DragState → DragState
on_drag_cancel board st = record st { active_id = none; columns = to_columns board }

-- The effect that copies the server's board into `columns`, except while a card is dragged.
unfoldable pub sync_columns : Option Board → DragState → DragState
sync_columns board st = elim st.active_id [
  | none ↦ record st { columns = to_columns board }
  | some _ ↦ st
]

-- What may happen between the start of a drag and its end: the server's board arrives anew, or the
-- pointer moves over a target or over none.
pub data Event : Type 0 where
  arrives : Option Board → Event
  hovers : Option String → Event

-- The handler of one event; `none` where it throws. Outside a drag there is no hover.
unfoldable pub step : Event → DragState → Option DragState
step (arrives board) st = some (sync_columns board st)
step (hovers over) st = elim st.active_id [
  | none ↦ some st
  | some active ↦ elim (on_drag_over st.columns active over st.columns) [
    | none ↦ none
    | some next ↦ some (record st { columns = next })
  ]
]

unfoldable pub run : List Event → DragState → Option DragState
run [] st = some st
run (e ∷ events) st = elim (step e st) [ none ↦ none | some next ↦ run events next ]

-- One state of a drag against another: the same card is dragged from the same column, and the
-- columns hold the same cards, each in the column of its status.
pub record Drags (prev next : DragState) : Type 0 where
  pub active : next.active_id ≡ prev.active_id
  pub origin : next.origin_status ≡ prev.origin_status
  pub keeps : Keeps prev.columns next.columns

step-Drags :
    (e : Event) (st : DragState) (active : String)
    → st.active_id ≡ some active
    → strip_prefix "col:" active ≡ none
    → total_id active st.columns ≡ 1
    → Placed st.columns
    → (next : DragState) × (step e st ≡ some next) × Drags st next
unfolding step sync_columns
step-Drags (arrives board) st active a card once p = (
  st,
  ground (arith, a),
  record { active = refl; origin = refl; keeps = Keeps-refl st.columns p },
)
step-Drags (hovers over) st active a card once p =
    let (next, e, k) = on_drag_over-Keeps st.columns active over card once p in
    (
      record st { columns = next },
      ground (arith, a, e),
      record { active = refl; origin = refl; keeps = k },
    )

-- However the pointer moves during a drag of a card that stands once on the board and whose id does
-- not begin with "col:", every card lying in the column of its status, and whatever boards arrive
-- from the server meanwhile, no handler throws; the dragged card and the column in which the drag
-- began stay; every id stands on the board as often as at the start, and every card lies in the
-- column of its status.
pub run-Drags :
    (events : List Event) (st : DragState) (active : String)
    → st.active_id ≡ some active
    → strip_prefix "col:" active ≡ none
    → total_id active st.columns ≡ 1
    → Placed st.columns
    → (last : DragState) × (run events st ≡ some last) × Drags st last
unfolding run
run-Drags [] st active a card once p =
    (st, refl, record { active = refl; origin = refl; keeps = Keeps-refl st.columns p })
run-Drags (e ∷ events) st active a card once p =
    let (next, s, d) = step-Drags e st active a card once p in
    let (last, r, l) =
      run-Drags events next active (d.active ∙ a) card (d.keeps.totals active ∙ once)
        d.keeps.placed in
    (
      last,
      rw (s, run) r,
      record {
        active = l.active ∙ d.active;
        origin = l.origin ∙ d.origin;
        keeps = Keeps-trans d.keeps l.keeps;
      },
    )

-- A whole drag of a card whose id does not begin with "col:", on a board with distinct ids and each
-- card in the column of its status, that ends in a drop which sends a request: the request agrees
-- with what is shown, it names a target status exactly when the card is dropped in another column
-- than the one it stood in at the start, and the columns shown hold every id as often as the board
-- at the start.
pub drag_and_drop-Shows :
    (events : List Event) (st last : DragState) (active : String) (board : Option Board)
    (statuses : List WorkflowStatus) (answer over : Option String) (req : MoveRequest)
    (next : Columns)
    → IsBoard st.columns
    → strip_prefix "col:" active ≡ none
    → total_id active st.columns ≡ 1
    → run events (on_drag_start active st) ≡ some last
    → on_drag_end last.columns board statuses answer last.origin_status active over ≡ moved req next
    → Shows last.columns (find_status st.columns active) active req next × Keeps st.columns next
unfolding on_drag_start
drag_and_drop-Shows events st last active board statuses answer over req next b card once ran h =
    let (reached, r, dr) =
      run-Drags events (on_drag_start active st) active refl card once b.placed in
    let same : last ≡ reached = cc (ran, r) in
    let d : Drags (on_drag_start active st) last = rw same dr in
    let is_board : IsBoard last.columns = record {
      distinct = λ id. rw (d.keeps.totals id) (b.distinct id);
      placed = d.keeps.placed;
    } in
    let s =
      on_drag_end-Shows last.columns board statuses answer (find_status st.columns active) active
        over req next is_board (rw d.origin at h) in
    (s, Keeps-trans d.keeps s.keeps)
