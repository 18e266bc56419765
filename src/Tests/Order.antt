-- ===== src/Tests/Order.antt =====
-- web/src/lib/boardOrder.ts on a list of three.
use quagenticus.Base.{ℕ, ◌≡◌, refl, some, List, [], ◌∷◌, nat_eq, arith, get_elem?}
use quagenticus.BoardOrder.{array_move, neighbours, splice_out}
use quagenticus.BoardOrder.Laws.{array_move-place, neighbours-between}

abbrev three : List ℕ
three = 1 ∷ 2 ∷ 3 ∷ []

abbrev rotated : List ℕ
rotated = 3 ∷ 1 ∷ 2 ∷ []

moved_up : array_move three 2 0 ≡ some rotated
unfolding array_move
moved_up = refl

array_move-place_example :
    (get_elem? rotated 0 ≡ get_elem? three 2) × ((splice_out rotated 0).1 ≡ (splice_out three 2).1)
array_move-place_example = array_move-place three 2 0 moved_up (omega arith)

neighbours-between_example : neighbours three 2 ≡ record { before_id = some 1; after_id = some 3 }
neighbours-between_example = neighbours-between (1 ∷ []) (3 ∷ []) 2 refl
