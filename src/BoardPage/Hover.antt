-- ===== src/BoardPage/Hover.antt =====
-- What `onDragOver` of web/src/pages/Board.tsx keeps when it moves a card between columns.
use quagenticus.Base.{
  ℕ, ◌+◌, ◌≡◌, refl, String, Bool-cases, Option, Option-cases, none, some, List, [], ◌∷◌, ◌++◌, not,
  ◌==◌, string_eq, lookup, assign, find, keep, take, drop, or_else, eq_iff, lookup-assign, arith,
  inl, inr, ◌≢◌,
}
use quagenticus.Api.Types.{BoardCard}
use quagenticus.BoardPage.{
  Columns, relocate, has_id, strip_prefix, find_status, truthy, move_across, on_drag_over,
}
use quagenticus.BoardPage.Columns.{
  count_id, total_id, count_id-insert, total_id-assign, count_id-keep, find-eq-some, Placed,
  Placed-assign, Placed-lookup, All-keep, All-insert, Keeps, Keeps-refl, truthy-eq-some,
  lookup_of_find_status,
}

-- Taking the active card out of one column and putting it into another keeps every total.
module _ (active from to : String) (prev : Columns) (cards target : List BoardCard)
    (card : BoardCard) (once : total_id active prev ≡ 1) (at : lookup from prev ≡ some cards)
    (found : find (has_id active) cards ≡ some card) (source : or_else (lookup to prev) [] ≡ target)
    (ne : from ≢ to) where
  once_in_column : count_id active cards ≡ 1
  once_in_column =
      omega (
        arith,
        (rw at at (total_id-assign active from [] prev)),
        (find-eq-some active cards found).1,
      )

  kept : List BoardCard
  kept = keep (λ c. not (has_id active c)) cards

  without : Columns
  without = assign from kept prev

  total_id-without :
      (id : String) → total_id id without + count_id id cards ≡ total_id id prev + count_id id kept
  unfolding without
  total_id-without id = rw at at (total_id-assign id from kept prev)

  target-without : or_else (lookup to without) [] ≡ target
  unfolding without
  target-without = ground (arith, lookup-assign from to kept prev, eq_iff from to)

  total_id-moved :
      (id : String) (n : ℕ)
      → total_id id
          (assign to (take n target ++ record card { status_id = to } ∷ drop n target) without)
        ≡ total_id id prev
  unfolding kept
  total_id-moved id n =
      let moved = take n target ++ record card { status_id = to } ∷ drop n target in
      let t : total_id id (assign to moved without) + count_id id target
          ≡ total_id id without + count_id id moved =
        rw target-without at (total_id-assign id to moved without) in
      let u : count_id id moved ≡ count_id id (record card { status_id = to } ∷ target) =
        count_id-insert id n _ target in
      ground (
        arith,
        t,
        u,
        total_id-without id,
        count_id-keep active id cards,
        once_in_column,
        (find-eq-some active cards found).0,
        eq_iff card.id id,
        eq_iff id active,
      )

relocate-Keeps :
    (active over from to : String) (prev : Columns) (cards : List BoardCard) (card : BoardCard)
    → from ≢ to
    → total_id active prev ≡ 1
    → Placed prev
    → lookup from prev ≡ some cards
    → find (has_id active) cards ≡ some card
    → Keeps prev (relocate active over from to cards card prev)
unfolding relocate without kept
relocate-Keeps active over from to prev cards card ne once p at found =
    let target = or_else (lookup to prev) [] in
    record {
      totals =
          λ id. total_id-moved active from to prev cards target card once at found refl ne id _;
      placed = Placed-assign to _ _ (All-insert to _ _ target refl (Placed-lookup to prev p)) (
          Placed-assign from _ prev (All-keep from _ cards (rw at at (Placed-lookup from prev p)))
            p);
    }

move_across-Keeps :
    (active over from to : String) (prev : Columns) (cards : List BoardCard)
    → from ≢ to
    → total_id active prev ≡ 1
    → Placed prev
    → lookup from prev ≡ some cards
    → (next : Columns) × (move_across active over from to prev ≡ some next) × Keeps prev next
unfolding move_across
move_across-Keeps active over from to prev cards ne once p at =
    elim (Option-cases (find (has_id active) cards)) [
      | inl missing ↦ (prev, ground (arith, at, missing), Keeps-refl prev p)
      | inr (card, found) ↦ (
        relocate active over from to cards card prev,
        ground (arith, at, found),
        relocate-Keeps active over from to prev cards card ne once p at found,
      )
    ]

-- Hovering anywhere, with a card that stands once on the board and whose id does not begin with
-- "col:", never throws if every card lies in the column of its status: there are next columns, on
-- which every id stands as often as before and every card lies in the column of its status.
pub on_drag_over-Keeps :
    (columns : Columns) (active : String) (over : Option String)
    → strip_prefix "col:" active ≡ none
    → total_id active columns ≡ 1
    → Placed columns
    → (next : Columns) × (on_drag_over columns active over columns ≡ some next) × Keeps columns next
unfolding on_drag_over
on_drag_over-Keeps columns active none card once p = (columns, refl, Keeps-refl columns p)
on_drag_over-Keeps columns active (some over) card once p =
    elim (Option-cases (truthy (find_status columns active))) [
      | inl e ↦ (columns, rw (e, on_drag_over) refl, Keeps-refl columns p)
      | inr (from, e) ↦ elim (Option-cases (truthy (find_status columns over))) [
        | inl f ↦ (columns, ground (arith, e, f), Keeps-refl columns p)
        | inr (to, f) ↦ elim (Bool-cases (from == to)) [
          | inl same ↦ (columns, ground (arith, e, f, same), Keeps-refl columns p)
          | inr other ↦
              let (cards, at) =
                lookup_of_find_status active from columns card (truthy-eq-some _ e) in
              let (next, g, k) =
                move_across-Keeps active over from to columns cards (ground (arith, eq_iff from to))
                  once p at in
              (next, ground (arith, e, f, other, g), k)
        ]
      ]
    ]
