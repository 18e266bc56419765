-- ===== src/BoardOrder/Laws.antt =====
-- What the two functions of web/src/lib/boardOrder.ts guarantee.
use quagenticus.Base.{
  ℕ, zero, suc, ◌+◌, ◌<◌, ◌≡◌, refl, ap, Option, none, some, List, [], ◌∷◌, ◌++◌, Eq, ==_refl,
  false, true, elem, count, count-append, index_of, get_elem?, length, take, drop, arith, inl,
  is_some, Option-cases, sym, ◌∙◌, ◌≤◌, inr, length-append, length-take, take-append-drop,
  take-append_le,
}
use quagenticus.BoardOrder.{around, neighbours, array_move, splice_out, splice_in}

module _ {ℓ} {A : Type ℓ} where
  abbrev pub last? : List A → Option A
  last? [] = none
  last? (x ∷ []) = some x
  last? (_ ∷ y ∷ ys) = last? (y ∷ ys)

  abbrev pub head? : List A → Option A
  head? [] = none
  head? (x ∷ _) = some x

  get_elem?-append : (xs ys : List A) (i : ℕ) → i ≡ length xs → get_elem? (xs ++ ys) i ≡ head? ys
  get_elem?-append [] [] i h = refl
  get_elem?-append [] (y ∷ ys) zero h = refl
  get_elem?-append [] (y ∷ ys) (suc i) h = absurd (omega arith)
  get_elem?-append (x ∷ xs) ys zero h = absurd (omega arith)
  get_elem?-append (x ∷ xs) ys (suc i) h = get_elem?-append xs ys i (omega arith)

  get_elem?-append_cons :
      (xs ys : List A) (m : A) (i : ℕ) → i ≡ length xs + 1 → get_elem? (xs ++ m ∷ ys) i ≡ head? ys
  get_elem?-append_cons [] ys m zero h = absurd (omega arith)
  get_elem?-append_cons [] ys m (suc i) h = get_elem?-append [] ys i (omega arith)
  get_elem?-append_cons (x ∷ xs) ys m zero h = absurd (omega arith)
  get_elem?-append_cons (x ∷ xs) ys m (suc i) h = get_elem?-append_cons xs ys m i (omega arith)

  get_elem?-before :
      (x : A) (xs ys : List A) → get_elem? (x ∷ xs ++ ys) (length xs) ≡ last? (x ∷ xs)
  get_elem?-before x [] ys = refl
  get_elem?-before x (y ∷ xs) ys = get_elem?-before y xs ys

  take-cons-drop :
      (xs : List A) (i : ℕ) {x : A}
      → get_elem? xs i ≡ some x
      → take i xs ++ x ∷ drop (suc i) xs ≡ xs
  take-cons-drop [] i h = cc
  take-cons-drop (x ∷ xs) zero h = cc
  take-cons-drop (x ∷ xs) (suc i) h = ap (x ∷◌) (take-cons-drop xs i h)

  take-splice_in :
      (rest : List A) (to : ℕ) (x : A)
      → to ≤ length rest
      → take to (splice_in rest to x) ≡ take to rest
  take-splice_in rest to x h =
      take-append_le to (take to rest) _ (omega (arith, length-take to rest))

  drop-splice_in :
      (rest : List A) (to : ℕ) (x : A)
      → to ≤ length rest
      → drop (suc to) (splice_in rest to x) ≡ drop to rest
  drop-splice_in rest zero x h = refl
  drop-splice_in [] (suc to) x h = absurd (omega arith)
  drop-splice_in (y ∷ rest) (suc to) x h = drop-splice_in rest to x (omega arith)

  get_elem?-splice_in :
      (rest : List A) (to : ℕ) (x : A)
      → to ≤ length rest
      → get_elem? (splice_in rest to x) to ≡ some x
  get_elem?-splice_in rest to x h =
      get_elem?-append (take to rest) (x ∷ drop to rest) to (omega (arith, length-take to rest))

  length-splice_out :
      (xs : List A) (i : ℕ) {x : A}
      → get_elem? xs i ≡ some x
      → suc (length (splice_out xs i).1) ≡ length xs
  length-splice_out [] i h = cc
  length-splice_out (x ∷ xs) zero h = refl
  length-splice_out (x ∷ xs) (suc i) h = ap suc (length-splice_out xs i h)

  array_move-eq-some :
      (xs : List A) (from to : ℕ) {ys : List A}
      → array_move xs from to ≡ some ys
      → (x : A) × (get_elem? xs from ≡ some x) × (ys ≡ splice_in (splice_out xs from).1 to x)
  unfolding array_move
  array_move-eq-some xs from to h = elim (Option-cases (get_elem? xs from)) [
    | inl e ↦ absurd (ground arith)
    | inr (x, e) ↦ (x, e, ground arith)
  ]

  get_elem?-defined : (xs : List A) (i : ℕ) → i < length xs → is_some (get_elem? xs i) ≡ true
  get_elem?-defined [] i h = absurd (omega arith)
  get_elem?-defined (x ∷ xs) zero h = refl
  get_elem?-defined (x ∷ xs) (suc i) h = get_elem?-defined xs i (omega arith)

  -- The move is defined wherever the source position is an index of the list.
  array_move-defined :
      (xs : List A) (from to : ℕ) → from < length xs → is_some (array_move xs from to) ≡ true
  unfolding array_move
  array_move-defined xs from to h = ground (arith, get_elem?-defined xs from h)

  -- A move within the list puts the element of `from` at `to`, and leaves the order of all the
  -- others: taking the element out of the result gives what taking it out of the list gives.
  pub array_move-place :
      (xs : List A) (from to : ℕ) {ys : List A}
      → array_move xs from to ≡ some ys
      → to < length xs
      → (get_elem? ys to ≡ get_elem? xs from) × ((splice_out ys to).1 ≡ (splice_out xs from).1)
  array_move-place xs from to h lt =
      let (x, e, same) = array_move-eq-some xs from to h in
      let rest = (splice_out xs from).1 in
      let le : to ≤ length rest = omega (arith, length-splice_out xs from e) in
      (
        rw same (get_elem?-splice_in rest to x le ∙ sym e),
        rw (same, take-splice_in rest to x le, drop-splice_in rest to x le)
            (take-append-drop to rest),
      )

module _ {ℓ} {A : Type ℓ} ⦃e : Eq A⦄ where
  -- Whatever the positions, a move that is defined permutes the list: every value occurs as often.
  pub array_move-count :
      (xs : List A) (from to : ℕ) (a : A) {ys : List A}
      → array_move xs from to ≡ some ys
      → count a ys ≡ count a xs
  array_move-count xs from to a h =
      let (x, at, same) = array_move-eq-some xs from to h in
      let rest = (splice_out xs from).1 in
      rw same (
        ground (
          arith,
          count-append a (take to rest) (x ∷ drop to rest),
          count-append a (take to rest) (drop to rest),
          ap (count a) (take-append-drop to rest),
          count-append a (take from xs) (drop (suc from) xs),
          count-append a (take from xs) (x ∷ drop (suc from) xs),
          ap (count a) (take-cons-drop xs from at),
        ))

  index_of-append :
      (xs ys : List A) (m : A) → elem m xs ≡ false → index_of m (xs ++ m ∷ ys) ≡ some (length xs)
  index_of-append [] ys m h = rw (==_refl m)
  index_of-append (x ∷ xs) ys m h = ground (arith, index_of-append xs ys m)

  index_of-absent : (xs : List A) (m : A) → elem m xs ≡ false → index_of m xs ≡ none
  index_of-absent [] m h = refl
  index_of-absent (x ∷ xs) m h = ground (arith, index_of-absent xs m)

  around-append :
      (xs ys : List A) (m : A)
      → around (xs ++ m ∷ ys) (length xs) ≡ record { before_id = last? xs; after_id = head? ys }
  around-append [] [] m = ground arith
  around-append [] (y ∷ ys) m = ground arith
  around-append (x ∷ xs) [] m =
      ground (arith, get_elem?-before x xs (m ∷ []), length-append xs (m ∷ []))
  around-append (x ∷ xs) (y ∷ ys) m = ground (
    arith,
    get_elem?-before x xs (m ∷ y ∷ ys),
    get_elem?-append_cons xs (y ∷ ys) m (length xs + 1) refl,
    length-append xs (m ∷ y ∷ ys),
  )

  -- At the first place where the moved id stands, `before_id` is the id just above it and
  -- `after_id` the one just below it; at an end of the column that side is undefined.
  pub neighbours-between :
      (xs ys : List A) (m : A)
      → elem m xs ≡ false
      → neighbours (xs ++ m ∷ ys) m ≡ record { before_id = last? xs; after_id = head? ys }
  unfolding neighbours
  neighbours-between xs ys m h = rw (index_of-append xs ys m h, neighbours) (around-append xs ys m)

  -- An id that is not in the column has no neighbours.
  pub neighbours-absent :
      (xs : List A) (m : A)
      → elem m xs ≡ false
      → neighbours xs m ≡ record { before_id = none; after_id = none }
  unfolding neighbours
  neighbours-absent xs m h = rw (index_of-absent xs m h, neighbours)
