-- ===== src/BoardPage/Drop/Order.antt =====
-- What a drop sends to the server, and what it shows meanwhile.
use quagenticus.Base.{
  ◌≤◌, ◌<◌, ◌≡◌, refl, ap, ◌∙◌, String, Bool-cases, Option, Option-cases, none, some, List, [], ◌∷◌,
  ◌==◌, string_eq, lookup, find, eq_iff, lookup-assign, count, All, arith, inl, inr, index_of,
  length, ◌-◌, ==_refl, nat_eq,
}
use quagenticus.Api.Types.{BoardCard}
use quagenticus.BoardOrder.Laws.{array_move-count}
use quagenticus.BoardPage.{Columns, has_id}
use quagenticus.BoardPage.Columns.{
  count_id, total_id, Placed, Keeps, total_id-assign, Placed-assign, Placed-lookup,
}
use quagenticus.BoardPage.Drop.{ids_of, reorder, find_last, by_id, cards_of, optimistic}

-- A new order holds every id as often as the column did.
pub reorder-count :
    (ordered : List String) (id over a : String) {next : List String}
    → reorder ordered id over ≡ some next
    → count a next ≡ count a ordered
unfolding reorder
reorder-count ordered id over a {next} h = elim (Option-cases (index_of over ordered)) [
  | inl e ↦ ground (arith, e)
  | inr (o, e) ↦ elim (Option-cases (index_of id ordered)) [
    | inl f ↦ array_move-count ordered (length ordered - 1) o a (ground (arith, e, f))
    | inr (i, f) ↦ ground (arith, e, f, array_move-count ordered i o a {ys = next})
  ]
]

find_last-none :
    (id : String) (cards : List BoardCard) → count_id id cards ≡ 0 → find_last id cards ≡ none
find_last-none id [] h = refl
find_last-none id (c ∷ cards) h = ground (arith, find_last-none id cards)

-- Where an id occurs at most once, the last card with it is the first.
find_last-find :
    (id : String) (cards : List BoardCard)
    → count_id id cards ≤ 1
    → find_last id cards ≡ find (has_id id) cards
find_last-find id [] h = refl
find_last-find id (c ∷ cards) h = ground (arith, find_last-none id cards, find_last-find id cards)

by_id-none : (id : String) (columns : Columns) → total_id id columns ≡ 0 → by_id id columns ≡ none
by_id-none id [] h = refl
by_id-none id ((status, cards) ∷ columns) h =
    ground (arith, by_id-none id columns, find_last-none id cards)

count_id-le-total_id :
    (id status : String) (columns : Columns) {cards : List BoardCard}
    → lookup status columns ≡ some cards
    → count_id id cards ≤ total_id id columns
count_id-le-total_id id status [] at = cc
count_id-le-total_id id status ((j, here) ∷ columns) {cards} at =
    ground (arith, count_id-le-total_id id status columns {cards = cards})

-- On a board where every id stands at most once, the map by id finds a column's cards in it.
by_id-find :
    (id status : String) (columns : Columns) {cards : List BoardCard}
    → total_id id columns ≤ 1
    → lookup status columns ≡ some cards
    → 0 < count_id id cards
    → by_id id columns ≡ find (has_id id) cards
by_id-find id status [] once at pos = cc
by_id-find id status ((j, here) ∷ columns) {cards} once at pos = ground (
  arith,
  by_id-find id status columns {cards = cards},
  by_id-none id columns,
  find_last-find id here,
  find_last-none id here,
  count_id-le-total_id id status columns {cards = cards},
)

find-defined :
    (id status : String) (cards : List BoardCard)
    → 0 < count_id id cards
    → All (λ c. c.status_id ≡ status) cards
    → (c : BoardCard) × (find (has_id id) cards ≡ some c) × (c.id ≡ id) × (c.status_id ≡ status)
find-defined id status [] pos h = absurd (omega arith)
find-defined id status (c ∷ cards) pos (q, h) = elim (Bool-cases (c.id == id)) [
  | inl same ↦ (c, rw same refl, (eq_iff c.id id).0 same, q)
  | inr other ↦
      let (d, e, f, g) = find-defined id status cards (rw other at pos) h in (d, rw other e, f, g)
]

All_of_count :
    (P : String → Type 0) (xs : List String) → ((a : String) → 0 < count a xs → P a) → All P xs
All_of_count P [] h = tt
All_of_count P (x ∷ xs) h =
    (h x (rw (==_refl x) (omega arith)), All_of_count P xs (λ a pos. h a (ground (arith, pos))))

-- The cards that `ordered` names, one for each id, in its order.
module _ (get : String → Option BoardCard) (status : String) where
  abbrev Gets : String → Type 0
  Gets cid = (c : BoardCard) × (get cid ≡ some c) × (c.id ≡ cid) × (c.status_id ≡ status)

  cards_of-cons :
      (cid : String) (ordered : List String) {c : BoardCard}
      → get cid ≡ some c
      → cards_of get (cid ∷ ordered) ≡ c ∷ cards_of get ordered
  cards_of-cons cid ordered e = rw (e, cards_of) refl

  ids_of-cards_of :
      (ordered : List String) → All Gets ordered → ids_of (cards_of get ordered) ≡ ordered
  ids_of-cards_of [] h = refl
  ids_of-cards_of (cid ∷ ordered) ((c, e, f, g), h) =
      rw (cards_of-cons cid ordered e) (cc (f, ids_of-cards_of ordered h))

  All-cards_of :
      (ordered : List String)
      → All Gets ordered
      → All (λ c. c.status_id ≡ status) (cards_of get ordered)
  All-cards_of [] h = tt
  All-cards_of (cid ∷ ordered) ((c, e, f, g), h) =
      rw (cards_of-cons cid ordered e) (g, All-cards_of ordered h)

-- The columns of a board whose cards have distinct ids and lie in the columns of their statuses.
pub record IsBoard (columns : Columns) : Type 0 where
  pub distinct : (id : String) → total_id id columns ≤ 1
  pub placed : Placed columns

module _ (columns : Columns) (b : IsBoard columns) (status : String) (cards : List BoardCard)
    (ordered : List String) (at : lookup status columns ≡ some cards)
    (same : (a : String) → count a ordered ≡ count_id a cards) where
  get : String → Option BoardCard
  get cid = by_id cid columns

  ordered-Gets : All (Gets get status) ordered
  unfolding get
  ordered-Gets = All_of_count _ ordered λ a pos.
      let in_column : 0 < count_id a cards = rw (same a) at pos in
      let (c, e, f, g) =
        find-defined a status cards in_column (rw at at (Placed-lookup status columns b.placed)) in
      (c, by_id-find a status columns (b.distinct a) at in_column ∙ e, f, g)

  -- The optimistic column shows the cards in the new order.
  pub optimistic-ids :
      (shown : List BoardCard) × (lookup status (optimistic columns status ordered) ≡ some shown)
      × (ids_of shown ≡ ordered)
  unfolding optimistic get
  optimistic-ids = (
    cards_of get ordered,
    rw (lookup-assign status status _ columns, ==_refl status),
    ids_of-cards_of get status ordered ordered-Gets,
  )

  pub optimistic-Keeps : Keeps columns (optimistic columns status ordered)
  unfolding optimistic get
  optimistic-Keeps = record {
    totals = λ id. omega (
      arith,
      rw at at (total_id-assign id status (cards_of get ordered) columns),
      ap (count id) (ids_of-cards_of get status ordered ordered-Gets),
      same id,
    );
    placed = Placed-assign status _ columns (All-cards_of get status ordered ordered-Gets) b.placed;
  }
