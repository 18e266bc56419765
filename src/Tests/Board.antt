-- ===== src/Tests/Board.antt =====
-- The board of web/src/pages/Board.tsx and web/src/lib/boardOrder.ts on a board of two columns.
use quagenticus.Base.{
  ◌≤◌, ◌≡◌, refl, String, true, false, none, some, List, [], ◌∷◌, eq_iff, arith, ◌==◌, string_eq,
  nat_eq, Bool-cases, inl, inr, length,
}
use quagenticus.Api.Types.{Board, BoardCard, BoardColumn, WorkflowStatus}
use quagenticus.BoardOrder.{array_move, neighbours}
use quagenticus.BoardPage.{Columns, to_columns, find_status, on_drag_over, move_across, relocate}
use quagenticus.BoardPage.Columns.{total_id, Keeps}
use quagenticus.BoardPage.Drop.{
  moved, reset, MoveRequest, on_drag_end, drop_in, reorder, extras_for, ask_transition_extras, send,
  optimistic, server_index,
}
use quagenticus.BoardPage.Drop.Order.{IsBoard}
use quagenticus.BoardPage.Drop.Request.{Shows, on_drag_end-Shows}
use quagenticus.BoardPage.Drop.Reply.{PageState, Move}
use quagenticus.BoardPage.Session.{
  DragState, Event, arrives, hovers, step, sync_columns, Drags, run, on_drag_start, run-Drags,
  drag_and_drop-Shows,
}
use quagenticus.Cache.Keys.{space, SpaceKey}

abbrev card : String → String → BoardCard
card id status = record {
  id = id;
  ref_key = none;
  title = "";
  tracker_id = "t";
  tracker_key = "task";
  tracker_icon = none;
  status_id = status;
  is_closed = false;
  priority_id = "p";
  priority_key = "normal";
  priority_name = "Normal";
  priority_color = none;
  lead_user_id = none;
  board_position = 0;
  start_date = none;
  due_date = none;
  done_ratio = 0;
  readiness_score = none;
  updated_at = "";
  claimed_by_agent_id = none;
  claimed_by_agent_name = none;
  labels = [];
  members = [];
  comment_count = 0;
  attachment_count = 0;
  children_count = 0;
  children_done = 0;
}

abbrev column : String → List BoardCard → BoardColumn
column status cards = record {
  id = status;
  status_id = status;
  status_key = status;
  name = status;
  color = none;
  ord = 0;
  wip_limit = none;
  is_collapsed = false;
  is_closed = false;
  is_agent_claimable = false;
  requires_resolution = false;
  total = length cards;
  cards = cards;
}

abbrev board : Board
board = record {
  id = "main";
  space_id = "s";
  name = "Main";
  closed_days = 14;
  columns =
      column "todo" (card "a" "todo" ∷ card "b" "todo" ∷ [])
      ∷ column "done" (card "c" "done" ∷ [])
      ∷ [];
  hidden_columns = [];
}

abbrev columns : Columns
columns = ("todo", card "a" "todo" ∷ card "b" "todo" ∷ []) ∷ ("done", card "c" "done" ∷ []) ∷ []

-- the columns once "a" has been moved over "c"
abbrev hovered : Columns
hovered = ("todo", card "b" "todo" ∷ []) ∷ ("done", card "a" "done" ∷ card "c" "done" ∷ []) ∷ []

-- the target status, which requires a resolution
abbrev statuses : List WorkflowStatus
statuses =
    (record {
      id = "done";
      key = "done";
      name = "Done";
      color = none;
      ord = 1;
      is_default = false;
      is_closed = true;
      is_agent_claimable = false;
      requires_resolution = true;
    })
    ∷ []

abbrev request : MoveRequest
request = record {
  id = "a";
  to_status_id = some "done";
  before_id = none;
  after_id = some "c";
  resolution = some "fixed";
}

to_columns-board : to_columns (some board) ≡ columns
unfolding to_columns
to_columns-board = refl

on_drag_over_other_column : on_drag_over columns "a" (some "c") columns ≡ some hovered
unfolding on_drag_over find_status move_across relocate
on_drag_over_other_column = refl

drop_on_itself :
    on_drag_end hovered (some board) statuses (some "fixed") (some "todo") "a" (some "a")
    ≡ moved request hovered
unfolding on_drag_end drop_in reorder extras_for ask_transition_extras send optimistic neighbours
    find_status server_index
drop_on_itself = refl

drop_cancelled : on_drag_end hovered (some board) statuses none (some "todo") "a" (some "a") ≡ reset
unfolding on_drag_end drop_in reorder extras_for ask_transition_extras find_status server_index
drop_cancelled = refl

abbrev dragging : DragState
dragging = record { active_id = some "a"; origin_status = some "todo"; columns = columns }

abbrev resting : DragState
resting = record { active_id = none; origin_status = none; columns = columns }

abbrev dragged : DragState
dragged = record { active_id = some "a"; origin_status = some "todo"; columns = hovered }

abbrev movements : List Event
movements = hovers (some "b") ∷ arrives (some board) ∷ hovers none ∷ hovers (some "c") ∷ []

run-movements : run movements (on_drag_start "a" resting) ≡ some dragged
unfolding run step on_drag_start sync_columns on_drag_over find_status move_across relocate
run-movements = refl

columns-distinct : (id : String) → total_id id columns ≤ 1
columns-distinct id = elim (Bool-cases ("a" == id)) [
  | inl e ↦ rw (← (eq_iff "a" id).0 e) (omega arith)
  | inr ne_a ↦ elim (Bool-cases ("b" == id)) [
    | inl e ↦ rw (← (eq_iff "b" id).0 e) (omega arith)
    | inr ne_b ↦ elim (Bool-cases ("c" == id)) [
      | inl e ↦ rw (← (eq_iff "c" id).0 e) (omega arith)
      | inr ne_c ↦ rw (ne_a, ne_b, ne_c) (omega arith)
    ]
  ]
]

hovered-distinct : (id : String) → total_id id hovered ≤ 1
hovered-distinct id = elim (Bool-cases ("a" == id)) [
  | inl e ↦ rw (← (eq_iff "a" id).0 e) (omega arith)
  | inr ne_a ↦ elim (Bool-cases ("b" == id)) [
    | inl e ↦ rw (← (eq_iff "b" id).0 e) (omega arith)
    | inr ne_b ↦ elim (Bool-cases ("c" == id)) [
      | inl e ↦ rw (← (eq_iff "c" id).0 e) (omega arith)
      | inr ne_c ↦ rw (ne_a, ne_b, ne_c) (omega arith)
    ]
  ]
]

columns-IsBoard : IsBoard columns
columns-IsBoard = record {
  distinct = columns-distinct;
  placed = ((refl, (refl, tt)), ((refl, tt), tt));
}

hovered-IsBoard : IsBoard hovered
hovered-IsBoard = record {
  distinct = hovered-distinct;
  placed = ((refl, tt), ((refl, (refl, tt)), tt));
}

drag_and_drop-Shows_example :
    Shows hovered (some "todo") "a" request hovered × Keeps columns hovered
unfolding find_status
drag_and_drop-Shows_example =
    drag_and_drop-Shows movements resting dragged "a" (some board) statuses (some "fixed")
      (some "a") request hovered columns-IsBoard refl refl run-movements drop_on_itself

on_drag_end-Shows_example : Shows hovered (some "todo") "a" request hovered
on_drag_end-Shows_example =
    on_drag_end-Shows hovered (some board) statuses (some "fixed") (some "todo") "a" (some "a")
      request hovered hovered-IsBoard drop_on_itself

run-Drags_example : (last : DragState) × (run movements dragging ≡ some last) × Drags dragging last
run-Drags_example = run-Drags movements dragging "a" refl refl refl columns-IsBoard.placed

abbrev done_status : WorkflowStatus
done_status = record {
  id = "done";
  key = "done";
  name = "Done";
  color = none;
  ord = 1;
  is_default = false;
  is_closed = true;
  is_agent_claimable = false;
  requires_resolution = true;
}

reorder_down : reorder ("a" ∷ "b" ∷ "c" ∷ []) "a" "c" ≡ some ("b" ∷ "c" ∷ "a" ∷ [])
unfolding reorder array_move
reorder_down = refl

abbrev move : Move
move = record {
  id = "a";
  space_id = "s";
  board_key = space "s" (SpaceKey.board "main");
  changed_status = true;
}

abbrev page : PageState
page = record { cached = some board; columns = columns; ops = [] }
