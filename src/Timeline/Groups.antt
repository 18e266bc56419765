-- ===== src/Timeline/Groups.antt =====
-- That the groups of web/src/components/comments/ActivityTimeline.tsx are the history, cut where the
-- actor changes, a note stands or two minutes have passed.
use quagenticus.Base.{
  ℕ, String, true, false, Option, none, some, List, [], ◌∷◌, ◌++◌, ◌≡◌, refl, sym, ap, ◌∙◌,
  append_assoc, append-nil, Bool-cases, inl, inr,
}
use quagenticus.Api.Activity.{Journal}
use quagenticus.Timeline.{
  Group, last_entry, joins, new_group, push_to, push_entry, group_from, groups,
}

-- The entries of the groups, from the first group to the last.
abbrev pub entries_of : List Group → List Journal
entries_of [] = []
entries_of (g ∷ out) = entries_of out ++ g.entries

some_inj : {a b : Journal} → some a ≡ some b → a ≡ b
some_inj h = cc h

module _ (time : String → ℕ) where
  -- each entry joins the one before
  abbrev IsChain : Journal → List Journal → Type 0
  IsChain j [] = Unit
  IsChain j (k ∷ ks) = (joins time j k ≡ true) × IsChain k ks

  abbrev IsGroup : Group → Type 0
  IsGroup g =
      (rest : List Journal) × (g.entries ≡ g.first ∷ rest)
      × IsChain g.first rest
      × (g.key ≡ g.first.id)

  -- the group that follows begins with an entry that does not join the last one before
  abbrev IsCut : List Group → Group → Type 0
  IsCut [] g = Unit
  IsCut (h ∷ out) g =
      (p : Journal) × (last_entry h.entries ≡ some p) × (joins time p g.first ≡ false)

  abbrev pub IsHistory : List Group → Type 0
  IsHistory [] = Unit
  IsHistory (g ∷ out) = IsGroup g × IsCut out g × IsHistory out

  IsChain-append :
      (a : Journal) (xs : List Journal) (p j : Journal)
      → last_entry (a ∷ xs) ≡ some p
      → joins time p j ≡ true
      → IsChain a xs
      → IsChain a (xs ++ j ∷ [])
  IsChain-append a [] p j e h c = (rw (some_inj e) h, tt)
  IsChain-append a (x ∷ xs) p j e h (k, c) = (k, IsChain-append x xs p j e h c)

  last_entry-some :
      (a : Journal) (xs : List Journal) → (p : Journal) × (last_entry (a ∷ xs) ≡ some p)
  last_entry-some a [] = (a, refl)
  last_entry-some a (x ∷ xs) = last_entry-some x xs

  IsCut-same : (out : List Group) (g h : Group) → g.first ≡ h.first → IsCut out g → IsCut out h
  IsCut-same [] g h e c = tt
  IsCut-same (i ∷ out) g h e (p, k, l) = (p, k, ap (joins time p) (sym e) ∙ l)

  -- the new entry begins a group
  cut-IsHistory :
      (j p : Journal) (g : Group) (out : List Group)
      → last_entry g.entries ≡ some p
      → joins time p j ≡ false
      → IsHistory (g ∷ out)
      → IsHistory (new_group time j ∷ g ∷ out)
  cut-IsHistory j p g out e k h = (([], refl, tt, refl), (p, e, k), h)

  -- the new entry goes into the last group
  join-IsHistory :
      (j p : Journal) (g : Group) (out : List Group)
      → last_entry g.entries ≡ some p
      → joins time p j ≡ true
      → IsHistory (g ∷ out)
      → IsHistory (record g { entries = g.entries ++ j ∷ [] } ∷ out)
  join-IsHistory j p g out e k ((rest, same, chain, key), c, h) = (
    (
      rest ++ j ∷ [],
      ap (λ xs. xs ++ j ∷ []) same,
      IsChain-append g.first rest p j (sym (ap last_entry same) ∙ e) k chain,
      key,
    ),
    IsCut-same out g (record g { entries = g.entries ++ j ∷ [] }) refl c,
    h,
  )

  push_to-IsHistory :
      (j : Journal) (g : Group) (out : List Group) (o : Option Journal)
      → last_entry g.entries ≡ o
      → IsHistory (g ∷ out)
      → IsHistory (push_to time j g out o)
  push_to-IsHistory j g out (some p) e h = elim (Bool-cases (joins time p j)) [
    | inl k ↦ rw k (join-IsHistory j p g out e k h)
    | inr k ↦ rw k (cut-IsHistory j p g out e k h)
  ]
  push_to-IsHistory j g out none e ((rest, same, _, _), _, _) =
      let (p, k) = last_entry-some g.first rest in absurd (cc (e, ap last_entry same, k))

  push_entry-IsHistory :
      (j : Journal) (out : List Group) → IsHistory out → IsHistory (push_entry time j out)
  push_entry-IsHistory j [] h = (([], refl, tt, refl), tt, tt)
  push_entry-IsHistory j (g ∷ out) h = push_to-IsHistory j g out (last_entry g.entries) refl h

  entries_of-push_to :
      (j : Journal) (g : Group) (out : List Group) (o : Option Journal)
      → entries_of (push_to time j g out o) ≡ (entries_of out ++ g.entries) ++ j ∷ []
  entries_of-push_to j g out none = refl
  entries_of-push_to j g out (some p) = elim (Bool-cases (joins time p j)) [
    | inl k ↦ rw k (sym (append_assoc (entries_of out) g.entries (j ∷ [])))
    | inr k ↦ rw k refl
  ]

  entries_of-push_entry :
      (j : Journal) (out : List Group)
      → entries_of (push_entry time j out) ≡ entries_of out ++ j ∷ []
  entries_of-push_entry j [] = refl
  entries_of-push_entry j (g ∷ out) = entries_of-push_to j g out (last_entry g.entries)

  group_from-IsHistory :
      (js : List Journal) (out : List Group)
      → IsHistory out
      → IsHistory (group_from time js out)
        × (entries_of (group_from time js out) ≡ entries_of out ++ js)
  unfolding group_from
  group_from-IsHistory [] out h = (h, sym (append-nil _))
  group_from-IsHistory (j ∷ js) out h =
      let (v, e) = group_from-IsHistory js (push_entry time j out) (push_entry-IsHistory j out h) in
      (
        v,
        e
            ∙ ap (λ xs. xs ++ js) (entries_of-push_entry j out)
            ∙ append_assoc (entries_of out) (j ∷ []) js,
      )

  -- The groups hold every entry of the history once and in order; in a group each entry joins the one
  -- before it (the same actor, no note on either, and less than two minutes), and the first entry of a
  -- group does not join the last one of the group before.
  pub groups-IsHistory :
      (journals : List Journal)
      → IsHistory (groups time journals) × (entries_of (groups time journals) ≡ journals)
  unfolding groups
  groups-IsHistory journals = group_from-IsHistory journals [] tt
