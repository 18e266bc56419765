-- ===== src/StatusesAdmin/Swaps.antt =====
-- What the buttons of web/src/components/admin/WorkflowAdmin.tsx do to the order of the statuses.
use quagenticus.Base.{
  ℕ, suc, ◌+◌, ◌-◌, String, false, none, some, List, [], ◌∷◌, ◌++◌, ◌==◌, ◌≡◌, refl, ap, ◌∙◌,
  length, get_elem?, length-append, arith, nat_eq,
}
use quagenticus.BoardOrder.{splice_out, splice_in}
use quagenticus.StatusesAdmin.{Direction, up, down, disabled, place, move, click}

module _ (ys : List String) (a b : String) where
  -- the first of the two taken out, and put in again behind the second
  get_elem?-first : (xs : List String) → get_elem? (xs ++ a ∷ b ∷ ys) (length xs) ≡ some a
  get_elem?-first [] = refl
  get_elem?-first (x ∷ xs) = get_elem?-first xs

  splice_out-first :
      (xs : List String) → (splice_out (xs ++ a ∷ b ∷ ys) (length xs)).1 ≡ xs ++ b ∷ ys
  splice_out-first [] = refl
  splice_out-first (x ∷ xs) = ap (λ l. x ∷ l) (splice_out-first xs)

  splice_in-behind :
      (xs : List String) → splice_in (xs ++ b ∷ ys) (suc (length xs)) a ≡ xs ++ b ∷ a ∷ ys
  splice_in-behind [] = refl
  splice_in-behind (x ∷ xs) = ap (λ l. x ∷ l) (splice_in-behind xs)

  -- the second taken out, and put in again before the first
  get_elem?-second : (xs : List String) → get_elem? (xs ++ a ∷ b ∷ ys) (suc (length xs)) ≡ some b
  get_elem?-second [] = refl
  get_elem?-second (x ∷ xs) = get_elem?-second xs

  splice_out-second :
      (xs : List String) → (splice_out (xs ++ a ∷ b ∷ ys) (suc (length xs))).1 ≡ xs ++ a ∷ ys
  splice_out-second [] = refl
  splice_out-second (x ∷ xs) = ap (λ l. x ∷ l) (splice_out-second xs)

  splice_in-before : (xs : List String) → splice_in (xs ++ a ∷ ys) (length xs) b ≡ xs ++ b ∷ a ∷ ys
  splice_in-before [] = refl
  splice_in-before (x ∷ xs) = ap (λ l. x ∷ l) (splice_in-before xs)

  -- the first of the two is not the last of all, and the second is not the first
  not_last : (xs : List String) → disabled (xs ++ a ∷ b ∷ ys) (length xs) down ≡ false
  not_last xs = ground (arith, length-append xs (a ∷ b ∷ ys))

behind : (n : ℕ) → n + 1 ≡ suc n
behind n = omega arith

before : (n : ℕ) → suc n - 1 ≡ n
before n = omega arith

not_first : (n : ℕ) → (suc n == 0) ≡ false
not_first n = ground arith

move-of :
    (ids rest : List String) (i : ℕ) (d : Direction) (a : String)
    → get_elem? ids i ≡ some a
    → (splice_out ids i).1 ≡ rest
    → move ids i d ≡ some (splice_in rest (place i d) a)
move-of ids rest i d a h k =
    ap
      (λ o. elim o [ none ↦ none | some id ↦ some (splice_in (splice_out ids i).1 (place i d) id) ])
      h
    ∙ ap (λ l. some (splice_in l (place i d) a)) k

move-down :
    (xs ys : List String) (a b : String)
    → move (xs ++ a ∷ b ∷ ys) (length xs) down ≡ some (xs ++ b ∷ a ∷ ys)
move-down xs ys a b =
    move-of (xs ++ a ∷ b ∷ ys) (xs ++ b ∷ ys) (length xs) down a (get_elem?-first ys a b xs)
      (splice_out-first ys a b xs)
    ∙ ap (λ n. some (splice_in (xs ++ b ∷ ys) n a)) (behind (length xs))
    ∙ ap some (splice_in-behind ys a b xs)

move-up :
    (xs ys : List String) (a b : String)
    → move (xs ++ a ∷ b ∷ ys) (suc (length xs)) up ≡ some (xs ++ b ∷ a ∷ ys)
move-up xs ys a b =
    move-of (xs ++ a ∷ b ∷ ys) (xs ++ a ∷ ys) (suc (length xs)) up b (get_elem?-second ys a b xs)
      (splice_out-second ys a b xs)
    ∙ ap (λ n. some (splice_in (xs ++ a ∷ ys) n b)) (before (length xs))
    ∙ ap some (splice_in-before ys a b xs)

-- The button down of a status and the button up of the status below it are enabled and do the same: the order
-- that is sent has these two exchanged and all others in their places.
pub click-swaps :
    (xs ys : List String) (a b : String)
    → (click (xs ++ a ∷ b ∷ ys) (length xs) down ≡ some (xs ++ b ∷ a ∷ ys))
      × (click (xs ++ a ∷ b ∷ ys) (suc (length xs)) up ≡ some (xs ++ b ∷ a ∷ ys))
unfolding click
click-swaps xs ys a b =
    (rw (not_last ys a b xs) (move-down xs ys a b), rw (not_first (length xs)) (move-up xs ys a b))
