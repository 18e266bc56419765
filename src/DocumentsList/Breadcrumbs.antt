-- ===== src/DocumentsList/Breadcrumbs.antt =====
-- That the loop of `breadcrumbs` of web/src/pages/DocumentsList.tsx ends, and with the path to the folder.
use quagenticus.Base.{
  ℕ, zero, suc, ◌<◌, String, Bool, true, false, Option, none, some, List, [], ◌∷◌, ◌≡◌, refl, sym,
  ap, ◌∙◌, string_eq, find, All, arith, Option-cases, Bool-cases, inl, inr, Dict, if◌then◌else◌,
}
use mathlib.Core.Path.{subst}
use quagenticus.Api.Documents.{DocumentSummary}
use quagenticus.DocumentsList.{has_id, folder_of, parent_of, current_folder, climb, breadcrumbs}

-- A folder is deeper than its parent, if that is among the folders.
abbrev pub IsBelow : List DocumentSummary → DocumentSummary → Type 0
IsBelow folders f = (p : DocumentSummary) → parent_of folders f ≡ some p → p.depth < f.depth

some_inj : {a b : DocumentSummary} → some a ≡ some b → a ≡ b
some_inj h = cc h

All-find :
    (P : DocumentSummary → Type 0) (q : DocumentSummary → Bool) (xs : List DocumentSummary)
    (x : DocumentSummary)
    → All P xs
    → find q xs ≡ some x
    → P x
All-find P q [] x h e = absurd (cc e)
All-find P q (y ∷ ys) x (h, hs) e = elim (Bool-cases (q y)) [
  | inl k ↦ subst P (some_inj (sym (ap (λ b. if b then some y else find q ys) k) ∙ e)) h
  | inr k ↦ All-find P q ys x hs (sym (ap (λ b. if b then some y else find q ys) k) ∙ e)
]

abbrev last_of : DocumentSummary → List DocumentSummary → DocumentSummary
last_of f [] = f
last_of f (g ∷ gs) = last_of g gs

module _ (folders : List DocumentSummary) where
  -- Each folder of a path is the parent of the next, the last of which leads on to `rest`.
  abbrev IsPath : DocumentSummary → List DocumentSummary → Type 0
  IsPath f [] = Unit
  IsPath f (g ∷ gs) = (parent_of folders g ≡ some f) × IsPath g gs

  -- A path from a folder without a parent here to the folder `f`.
  abbrev pub IsTrail : Option DocumentSummary → List DocumentSummary → Type 0
  IsTrail none path = path ≡ []
  IsTrail (some f) [] = true ≡ false
  IsTrail (some f) (top ∷ path) =
      (parent_of folders top ≡ none) × IsPath top path × (last_of top path ≡ f)

  climb-none : (n : ℕ) (out : List DocumentSummary) → climb n folders none out ≡ some out
  unfolding climb
  climb-none zero out = refl
  climb-none (suc n) out = refl

  climb-IsTrail :
      (n : ℕ) (f : DocumentSummary) (out : List DocumentSummary)
      → All (IsBelow folders) folders
      → IsBelow folders f
      → f.depth < n
      → IsPath f out
      → (path : List DocumentSummary) × (climb n folders (some f) out ≡ some path)
        × IsTrail (some (last_of f out)) path
  unfolding climb
  climb-IsTrail zero f out deep b l h = absurd (omega (arith, l))
  climb-IsTrail (suc n) f out deep b l h = elim (Option-cases (parent_of folders f)) [
    | inl e ↦
        (f ∷ out, ap (λ o. climb n folders o (f ∷ out)) e ∙ climb-none n (f ∷ out), (e, h, refl))
    | inr (p, e) ↦
        let (path, same, trail) =
          climb-IsTrail n p (f ∷ out) deep
            (All-find (IsBelow folders) (has_id f.parent_id) folders p deep e)
            (omega (arith, b p e, l)) (e, h) in
        (path, ap (λ o. climb n folders o (f ∷ out)) e ∙ same, trail)
  ]

  -- The loop ends, after at most as many rounds as the folder is deep and one more, with the path from the
  -- top to the current folder, each folder the parent of the next, or with none if there is no current
  -- folder; provided that every folder is deeper than its parent.
  pub breadcrumbs-IsTrail :
      (params : Dict String) (n : ℕ)
      → All (IsBelow folders) folders
      → ((f : DocumentSummary) → current_folder params folders ≡ some f → f.depth < n)
      → (path : List DocumentSummary) × (breadcrumbs n params folders ≡ some path)
        × IsTrail (current_folder params folders) path
  breadcrumbs-IsTrail params n deep l = elim (Option-cases (current_folder params folders)) [
    | inl e ↦ rw e ([], climb-none n [], refl)
    | inr (f, e) ↦ rw e (
        climb-IsTrail n f [] deep
          (All-find (IsBelow folders) (has_id (some (folder_of params))) folders f deep e) (l f e)
          tt)
  ]
