-- ===== src/BoardPage/Drop/Reply.antt =====
-- web/src/pages/Board.tsx: the page's state around `move.mutate`. The cached board is set
-- optimistically, and the reply of the server confirms it or rolls it back.
use quagenticus.Base.{
  ◌≡◌, refl, String, Bool, Option, none, some, List, [], ◌∷◌, map, ◌==◌, string_eq, if◌then◌else◌,
  lookup, any, or_else, eq_iff, arith,
}
use quagenticus.Api.Types.{Board, BoardCard, BoardColumn}
use quagenticus.BoardPage.{Columns, to_columns}
use quagenticus.Cache.{Key, Op, invalidate}
use quagenticus.Cache.Keys.{requirement, RequirementKey}
use quagenticus.Hooks.{below_space}
use quagenticus.Base.{◌++◌}

-- `qc.getQueryData(boardKey)`, the state `columns`, and the operations asked of the rest of the cache
pub record PageState : Type 0 where
  pub cached : Option Board
  pub columns : Columns
  pub ops : List Op

-- what the callbacks of the move know of it
pub record Move : Type 0 where
  pub id : String
  pub space_id : String
  pub board_key : Key
  pub changed_status : Bool

pub data Reply : Type 0 where
  success : BoardCard → Reply
  failure : Reply

abbrev show_column : Columns → BoardColumn → BoardColumn
show_column optimistic c = record c { cards = or_else (lookup c.status_id optimistic) c.cards }

-- `setColumns(optimistic)`, and the cached board if there is one
unfoldable pub begin_move : Columns → PageState → PageState
begin_move optimistic st = record {
  cached = elim st.cached [
    | none ↦ none
    | some previous ↦
        some (record previous { columns = map (show_column optimistic) previous.columns })
  ];
  columns = optimistic;
  ops = st.ops;
}

abbrev replace_card : BoardCard → BoardColumn → BoardColumn
replace_card card c = record c { cards = map (λ x. if x.id == card.id then card else x) c.cards }

-- what `onSuccess` invalidates
abbrev success_ops : Move → List Op
success_ops m =
    if m.changed_status
    then invalidate (requirement m.id RequirementKey.all)
      ∷ invalidate (below_space m.space_id "requirements")
      ∷ []
    else []

-- `onSuccess` and `onError`; `previous` is the cached board before the move.
unfoldable pub replied : Move → Option Board → Reply → PageState → PageState
replied m previous (success card) st = record st {
  cached = elim st.cached [
    | none ↦ none
    | some b ↦ some (record b { columns = map (replace_card card) b.columns })
  ];
  ops = st.ops ++ success_ops m;
}
replied m previous failure st = record st {
  cached = elim previous [ none ↦ st.cached | some b ↦ some b ];
  columns = to_columns previous;
}

-- the same with `onSettled` behind it
unfoldable pub on_reply : Move → Option Board → Reply → PageState → PageState
on_reply m previous reply st =
    let after = replied m previous reply st in
    record after { ops = after.ops ++ invalidate m.board_key ∷ [] }

abbrev has_status : String → List BoardColumn → Bool
has_status s = any (λ (c : BoardColumn). c.status_id == s)

-- the ids of the columns, which no reply changes
abbrev pub card_ids : Board → List (List String)
card_ids b = map (λ (c : BoardColumn). map (λ (x : BoardCard). x.id) c.cards) b.columns

map-replace_card :
    (card : BoardCard) (cards : List BoardCard)
    → map
        (λ (x : BoardCard). x.id)
        (map (λ (x : BoardCard). if x.id == card.id then card else x) cards)
      ≡ map (λ (x : BoardCard). x.id) cards
map-replace_card card [] = refl
map-replace_card card (x ∷ cards) = ground (arith, map-replace_card card cards, eq_iff x.id card.id)

card_ids-replace :
    (card : BoardCard) (cols : List BoardColumn)
    → map
        (λ (c : BoardColumn). map (λ (x : BoardCard). x.id) c.cards)
        (map (replace_card card) cols)
      ≡ map (λ (c : BoardColumn). map (λ (x : BoardCard). x.id) c.cards) cols
card_ids-replace card [] = refl
card_ids-replace card (c ∷ cols) = cc (map-replace_card card c.cards, card_ids-replace card cols)

-- A confirmed move keeps the order that is shown: the reply's card takes the place of the card with
-- its id, in every column of the cached board the ids stay, in their order, and the columns are not
-- touched.
on_reply-success-ids :
    (m : Move) (previous : Option Board) (card : BoardCard) (b : Board) (columns : Columns)
    (ops : List Op)
    → (after : Board) × ((on_reply m previous
          (success card)
          (record { cached = some b; columns = columns; ops = ops })).cached
        ≡ some after)
      × (card_ids after ≡ card_ids b)
      × ((on_reply m previous
            (success card)
            (record { cached = some b; columns = columns; ops = ops })).columns
          ≡ columns)
unfolding on_reply replied
on_reply-success-ids m previous card b columns ops = (
  record b { columns = map (replace_card card) b.columns },
  refl,
  card_ids-replace card b.columns,
  refl,
)
