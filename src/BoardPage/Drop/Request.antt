-- ===== src/BoardPage/Drop/Request.antt =====
-- What `onDragEnd` of web/src/pages/Board.tsx sends, on all of its branches.
use quagenticus.Base.{
  ◌≡◌, refl, ◌∙◌, String, Bool, true, false, Option, Option-cases, none, some, List, not, ◌==◌,
  ◌&&◌, string_eq, if◌then◌else◌, lookup, count, arith, inl, inr, index_of, find,
}
use quagenticus.Api.Types.{Board, BoardCard, WorkflowStatus}
use quagenticus.BoardOrder.{neighbours}
use quagenticus.BoardPage.{Columns, find_status, truthy}
use quagenticus.BoardPage.Columns.{count_id, Keeps, truthy-eq-some}
use quagenticus.BoardPage.Drop.{
  Extras, MoveRequest, moved, ids_of, reorder, optimistic, send, extras_for, ask_transition_extras,
  drop_in, on_drag_end, same_index, server_index,
}
use quagenticus.BoardPage.Drop.Order.{IsBoard, reorder-count, optimistic-ids, optimistic-Keeps}

-- A drop that sent something, taken apart.
record Sends (columns : Columns) (board : Option Board) (statuses : List WorkflowStatus)
    (answer : Option String) (origin id over status : String) (cards : List BoardCard)
    (req : MoveRequest) (next : Columns) : Type 0 where
  ordered : List String
  extras : Extras
  arranged : reorder (ids_of cards) id over ≡ some ordered
  answered : extras_for statuses status (not (status == origin)) answer ≡ some extras
  sent : send columns id status (not (status == origin)) ordered extras ≡ moved req next
  differs :
      (status == origin) && same_index (index_of id ordered) (server_index board status id) ≡ false

module _ (columns : Columns) (board : Option Board) (statuses : List WorkflowStatus)
    (answer : Option String) where
  drop_in-Sends :
      (origin id over status : String) (cards : List BoardCard) (req : MoveRequest) (next : Columns)
      → drop_in columns board statuses answer origin id over status cards ≡ moved req next
      → Sends columns board statuses answer origin id over status cards req next
  unfolding drop_in
  drop_in-Sends origin id over status cards req next h =
      elim (Option-cases (reorder (ids_of cards) id over)) [
        | inl e ↦ absurd (ground (arith, e))
        | inr (ordered, e) ↦
            elim (Option-cases (extras_for statuses status (not (status == origin)) answer)) [
              | inl f ↦ absurd (ground (arith, e, f))
              | inr (extras, f) ↦ record {
                ordered = ordered;
                extras = extras;
                arranged = e;
                answered = f;
                sent = ground (arith, e, f);
                differs = ground (arith, e, f);
              }
            ]
      ]

  -- A drop that sent something found the card in a column, from which it was dropped.
  on_drag_end-Sends :
      (origin : Option String) (id : String) (over : Option String) (req : MoveRequest)
      (next : Columns)
      → on_drag_end columns board statuses answer origin id over ≡ moved req next
      → (from : String) × (target : String) × (status : String) × (cards : List BoardCard) × (origin
          ≡ some from)
        × (find_status columns id ≡ some status)
        × (lookup status columns ≡ some cards)
        × Sends columns board statuses answer from id target status cards req next
  unfolding on_drag_end
  on_drag_end-Sends origin id none req next h = cc
  on_drag_end-Sends origin id (some over) req next h = elim (Option-cases (truthy origin)) [
    | inl e ↦ absurd (ground (arith, e))
    | inr (from, e) ↦ elim (Option-cases (truthy (find_status columns id))) [
      | inl f ↦ absurd (ground (arith, e, f))
      | inr (status, f) ↦ elim (Option-cases (lookup status columns)) [
        | inl g ↦ absurd (ground (arith, e, f, g))
        | inr (cards, g) ↦ (
          from,
          over,
          status,
          cards,
          truthy-eq-some origin e,
          truthy-eq-some _ f,
          g,
          drop_in-Sends from id over status cards req next (ground (arith, e, f, g)),
        )
      ]
    ]
  ]

-- What the user sees while the request is under way agrees with what the request says.
pub record Shows (columns : Columns) (origin : Option String) (id : String) (req : MoveRequest)
    (next : Columns) : Type 0 where
  pub from : String
  pub status : String
  pub shown : List BoardCard
  pub began : origin ≡ some from
  pub found : find_status columns id ≡ some status
  pub at : lookup status next ≡ some shown
  pub card : req.id ≡ id
  pub to : req.to_status_id ≡ (if status == from then none else some status)
  pub above : req.before_id ≡ (neighbours (ids_of shown) id).before_id
  pub below : req.after_id ≡ (neighbours (ids_of shown) id).after_id
  pub keeps : Keeps columns next

send-Shows :
    (columns : Columns) (origin : Option String) (from id status : String) (cards : List BoardCard)
    (ordered : List String) (extras : Extras) (req : MoveRequest) (next : Columns)
    → IsBoard columns
    → origin ≡ some from
    → find_status columns id ≡ some status
    → lookup status columns ≡ some cards
    → ((a : String) → count a ordered ≡ count_id a cards)
    → send columns id status (not (status == from)) ordered extras ≡ moved req next
    → Shows columns origin id req next
unfolding send
send-Shows columns origin from id status cards ordered extras req next b began found at same h =
    let (shown, e, f) = optimistic-ids columns b status cards ordered at same in
    let k = optimistic-Keeps columns b status cards ordered at same in
    let n : next ≡ optimistic columns status ordered = cc in
    record {
      from = from;
      status = status;
      shown = shown;
      began = began;
      found = found;
      at = rw n e;
      card = ground arith;
      to = ground arith;
      above = rw f (ground arith);
      below = rw f (ground arith);
      keeps = rw n k;
    }

-- On a board with distinct ids whose cards lie in the columns of their statuses, a drop that sends
-- a request asks for what it shows: the request names the dropped card; it has a target status
-- exactly when the card's column is not the one in which the drag began; `before_id` and `after_id`
-- are the neighbours of the card in the optimistic column; and the optimistic columns hold every id
-- as often as before, each card in the column of its status.
pub on_drag_end-Shows :
    (columns : Columns) (board : Option Board) (statuses : List WorkflowStatus)
    (answer : Option String) (origin : Option String) (id : String) (over : Option String)
    (req : MoveRequest) (next : Columns)
    → IsBoard columns
    → on_drag_end columns board statuses answer origin id over ≡ moved req next
    → Shows columns origin id req next
on_drag_end-Shows columns board statuses answer origin id over req next b h =
    let (from, target, status, cards, began, found, at, s) =
      on_drag_end-Sends columns board statuses answer origin id over req next h in
    send-Shows columns origin from id status cards s.ordered s.extras req next b began found at
      (λ a. reorder-count (ids_of cards) id target a s.arranged) s.sent

extras_for-resolution :
    (statuses : List WorkflowStatus) (status : String) (changed : Bool) (answer : Option String)
    (extras : Extras) (target : WorkflowStatus)
    → changed ≡ true
    → extras_for statuses status changed answer ≡ some extras
    → find (λ (s : WorkflowStatus). s.id == status) statuses ≡ some target
    → target.requires_resolution ≡ true
    → (text : String) × (answer ≡ some text) × (extras.resolution ≡ some text)
unfolding extras_for ask_transition_extras
extras_for-resolution statuses status changed none extras target c h f r =
    absurd (ground (arith, c, h, f, r))
extras_for-resolution statuses status changed (some text) extras target c h f r =
    (text, refl, ground (arith, c, h, f, r))

send-fields :
    (columns : Columns) (id status s : String) (changed : Bool) (ordered : List String)
    (extras : Extras) (req : MoveRequest) (next : Columns)
    → send columns id status changed ordered extras ≡ moved req next
    → req.to_status_id ≡ some s
    → (changed ≡ true) × (status ≡ s) × (req.resolution ≡ extras.resolution)
unfolding send
send-fields columns id status s changed ordered extras req next h e = ground arith

-- A card that is sent into a status of which the statuses that are loaded say that it requires a resolution:
-- the dialog was answered, and the request carries its text, which may be empty.
on_drag_end-resolution :
    (columns : Columns) (board : Option Board) (statuses : List WorkflowStatus)
    (answer : Option String) (origin : Option String) (id : String) (over : Option String)
    (req : MoveRequest) (next : Columns) (s : String) (target : WorkflowStatus)
    → on_drag_end columns board statuses answer origin id over ≡ moved req next
    → req.to_status_id ≡ some s
    → find (λ (t : WorkflowStatus). t.id == s) statuses ≡ some target
    → target.requires_resolution ≡ true
    → (text : String) × (answer ≡ some text) × (req.resolution ≡ some text)
on_drag_end-resolution columns board statuses answer origin id over req next s target h e f r =
    let (from, over', status, cards, began, found, at, p) =
      on_drag_end-Sends columns board statuses answer origin id over req next h in
    let (c, same, q) = send-fields columns id status s _ p.ordered p.extras req next p.sent e in
    let (text, a, t) =
      extras_for-resolution statuses status _ answer p.extras target c p.answered (rw same f) r in
    (text, a, q ∙ t)
