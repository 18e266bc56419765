-- ===== src/Refs/Trigger/Laws.antt =====
-- That a trigger of web/src/lib/refs.ts stands right before the caret, with its sign and its query.
use quagenticus.Base.{
  ℕ, ◌+◌, ◌-◌, ◌≤◌, Bool, true, Option, none, some, [], ◌∷◌, ◌++◌, ◌≡◌, refl, sym, ap, ◌∙◌, ◌==◌,
  nat_eq, if◌then◌else◌, Text, codes, take, drop, slice, length, length-append, length-take,
  take-append-drop, elem, arith, Bool-cases, Option-cases, inl, inr, append_assoc,
}
use mathlib.Core.Path.{subst}
use quagenticus.MarkdownToolbar.Laws.{slice-middle}
use quagenticus.Refs.Trigger.{
  hash, at, wiki, ActiveTrigger, Mark, wiki_here, find_wiki, first_of, boundary, mark_here,
  mark_behind, find_mark, kind_of, mark_trigger, wiki_trigger, detect_trigger,
}

-- A text that ends with another.
abbrev EndsWith : Text → Text → Type 0
EndsWith s t = (front : Text) × (s ≡ front ++ t)

later-EndsWith : (c : ℕ) (s t : Text) → EndsWith s t → EndsWith (c ∷ s) t
later-EndsWith c s t (f, e) = (c ∷ f, ap (λ x. c ∷ x) e)

wiki_here-EndsWith : (s q : Text) → wiki_here s ≡ some q → EndsWith s (codes "[[" ++ q)
wiki_here-EndsWith [] q h = absurd (cc h)
wiki_here-EndsWith (c ∷ []) q h = absurd (cc h)
wiki_here-EndsWith (c ∷ d ∷ s) q h = ([], ground (arith, h))

find_wiki-EndsWith : (s q : Text) → find_wiki s ≡ some q → EndsWith s (codes "[[" ++ q)
find_wiki-EndsWith [] q h = absurd (cc h)
find_wiki-EndsWith (c ∷ s) q h = elim (Option-cases (wiki_here (c ∷ s))) [
  | inl e ↦
      later-EndsWith c s _ (find_wiki-EndsWith s q (sym (ap (λ o. first_of o (find_wiki s)) e) ∙ h))
  | inr (r, e) ↦ wiki_here-EndsWith (c ∷ s) q (e ∙ sym (ap (λ o. first_of o (find_wiki s)) e) ∙ h)
]

-- the end of the text before the caret, cut out of the whole
slice-end :
    (value front rest : Text) (caret start : ℕ)
    → caret ≤ length value
    → take caret value ≡ front ++ rest
    → start ≡ caret - length rest
    → slice value start caret ≡ rest
slice-end value front rest caret start k e h =
    let n : caret ≡ length front + length rest =
      omega (arith, k, length-take caret value, ap length e, length-append front rest) in
    ap (λ v. slice v start caret)
      (sym (take-append-drop caret value)
        ∙ ap (λ v. v ++ drop caret value) e
        ∙ append_assoc front rest _)
    ∙ slice-middle front rest (drop caret value) start caret (omega (arith, h, n)) n

some_inj : {A : Type 0} {a b : A} → some a ≡ some b → a ≡ b
some_inj h = cc h

-- the sign of a trigger
abbrev pub IsSigned : ActiveTrigger → Text → Type 0
IsSigned t sign = elim t.kind [
  | hash ↦ sign ≡ codes "#"
  | at ↦ sign ≡ codes "@"
  | wiki ↦ sign ≡ codes "[["
]

abbrev IsFound : Text → ℕ → ActiveTrigger → Type 0
IsFound value caret t =
    (sign : Text) × IsSigned t sign
    × (t.end ≡ caret)
    × (t.start ≤ caret)
    × (slice value t.start t.end ≡ sign ++ t.query)

module _ (letter : ℕ → Bool) where
  -- a mark has one of the two signs
  abbrev IsMark : Text → Mark → Type 0
  IsMark s m = EndsWith s (m.sign ∷ m.query) × (elem m.sign (codes "#@") ≡ true)

  mark_here-IsMark : (s : Text) (m : Mark) → mark_here letter s ≡ some m → IsMark s m
  mark_here-IsMark [] m h = absurd (cc h)
  mark_here-IsMark (c ∷ s) m h = (([], ground (arith, h)), ground (arith, h))

  later_mark : (c : ℕ) (s : Text) (m : Mark) → IsMark s m → IsMark (c ∷ s) m
  later_mark c s m (e, k) = (later-EndsWith c s _ e, k)

  at_boundary :
      (c : ℕ) (s : Text) (r : Mark)
      → (if boundary c then mark_here letter s else none) ≡ some r
      → mark_here letter s ≡ some r
  at_boundary c s r h = elim (Bool-cases (boundary c)) [
    | inl e ↦ sym (ap (λ b. if b then mark_here letter s else none) e) ∙ h
    | inr e ↦ absurd (cc (sym (ap (λ b. if b then mark_here letter s else none) e) ∙ h))
  ]

  mark_behind-IsMark : (s : Text) (m : Mark) → mark_behind letter s ≡ some m → IsMark s m
  mark_behind-IsMark [] m h = absurd (cc h)
  mark_behind-IsMark (c ∷ s) m h =
      elim (Option-cases (if boundary c then mark_here letter s else none)) [
        | inl e ↦
            later_mark c s m
              (mark_behind-IsMark s m (sym (ap (λ o. first_of o (mark_behind letter s)) e) ∙ h))
        | inr (r, e) ↦ later_mark c s m (
            mark_here-IsMark s m
              (at_boundary c s r e ∙ sym (ap (λ o. first_of o (mark_behind letter s)) e) ∙ h))
      ]

  find_mark-IsMark : (s : Text) (m : Mark) → find_mark letter s ≡ some m → IsMark s m
  find_mark-IsMark s m h = elim (Option-cases (mark_here letter s)) [
    | inl e ↦ mark_behind-IsMark s m (sym (ap (λ o. first_of o (mark_behind letter s)) e) ∙ h)
    | inr (r, e) ↦
        mark_here-IsMark s m (e ∙ sym (ap (λ o. first_of o (mark_behind letter s)) e) ∙ h)
  ]

  wiki-IsFound :
      (value q : Text) (caret : ℕ)
      → caret ≤ length value
      → EndsWith (take caret value) (codes "[[" ++ q)
      → IsFound value caret
          (record { kind = wiki; query = q; start = caret - (2 + length q); end = caret })
  wiki-IsFound value q caret k (front, e) = (
    codes "[[",
    refl,
    refl,
    omega arith,
    slice-end value front (codes "[[" ++ q) caret _ k e (omega arith),
  )

  sign-IsSigned :
      (m : Mark) (start end : ℕ)
      → elem m.sign (codes "#@") ≡ true
      → IsSigned
          (record { kind = kind_of letter m.sign; query = m.query; start = start; end = end })
          (m.sign ∷ [])
  sign-IsSigned m start end h = elim (Bool-cases (m.sign == 35)) [
    | inl e ↦ rw e (ground (arith, e))
    | inr e ↦ rw e (ground (arith, e, h))
  ]

  mark-IsFound :
      (value : Text) (m : Mark) (caret : ℕ)
      → caret ≤ length value
      → IsMark (take caret value) m
      → IsFound value caret (record {
        kind = kind_of letter m.sign;
        query = m.query;
        start = caret - length m.query - 1;
        end = caret;
      })
  mark-IsFound value m caret k ((front, e), h) = (
    m.sign ∷ [],
    sign-IsSigned m (caret - length m.query - 1) caret h,
    refl,
    omega arith,
    slice-end value front (m.sign ∷ m.query) caret _ k e (omega arith),
  )

  mark_trigger-IsFound :
      (value : Text) (caret : ℕ) (o : Option Mark) (t : ActiveTrigger)
      → caret ≤ length value
      → find_mark letter (take caret value) ≡ o
      → mark_trigger letter caret o ≡ some t
      → IsFound value caret t
  mark_trigger-IsFound value caret none t k e h = absurd (cc h)
  mark_trigger-IsFound value caret (some m) t k e h =
      subst (IsFound value caret) (some_inj h)
        (mark-IsFound value m caret k (find_mark-IsMark _ m e))

  wiki_trigger-IsFound :
      (value : Text) (caret : ℕ) (o : Option Text) (t : ActiveTrigger)
      → caret ≤ length value
      → find_wiki (take caret value) ≡ o
      → wiki_trigger letter caret o
          (mark_trigger letter caret (find_mark letter (take caret value)))
        ≡ some t
      → IsFound value caret t
  wiki_trigger-IsFound value caret none t k e h = mark_trigger-IsFound value caret _ t k refl h
  wiki_trigger-IsFound value caret (some q) t k e h =
      subst (IsFound value caret) (some_inj h)
        (wiki-IsFound value q caret k (find_wiki-EndsWith _ q e))

  -- A trigger ends at the caret, and the text from its start to the caret is its sign, which is that of its
  -- kind, and its query; provided that the caret is in the text.
  pub detect_trigger-IsFound :
      (value : Text) (caret : ℕ) (t : ActiveTrigger)
      → caret ≤ length value
      → detect_trigger letter value caret ≡ some t
      → IsFound value caret t
  unfolding detect_trigger
  detect_trigger-IsFound value caret t k h = wiki_trigger-IsFound value caret _ t k refl h
