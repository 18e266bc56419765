-- ===== src/RequirementsList/Pages.antt =====
-- The pages of web/src/pages/RequirementsList.tsx: what the address says through all that the user does,
-- and where the button for the next page leads.
use quagenticus.Base.{
  ℕ, zero, suc, ◌+◌, ◌-◌, ◌*◌, ◌/◌, ◌<◌, ◌≤◌, String, Option, none, List, [], ◌∷◌, ◌≡◌, refl, ◌∙◌,
  ◌==◌, string_eq, nat_eq, leb, min, if◌then◌else◌, Dict, lookup, set_param, lookup-set_param,
  lookup-delete_param, arith, All, Bool-cases, inl, inr,
}
use quagenticus.Api.Catalogs.{SavedView}
use quagenticus.BoardPage.{truthy}
use quagenticus.RequirementsList.{
  page_size, offset, previous, next, set_value, set_filter, sort_by, apply_view,
}

-- What the user does to the address; a page is left while the list has `total` entries.
pub data Action : Type 0 where
  choose : String → Option String → Action
  order : String → Action
  go_back : Action
  go_on : ℕ → Action
  clear : Action
  visit : SavedView → Action

-- a saved view has no offset
abbrev pub IsSaved : Action → Type 0
IsSaved (visit view) = lookup "offset" view.filters ≡ none
IsSaved _ = Unit

last_page : (total k : ℕ) → total ≤ 50 * k + 50 → (total - 1) / 50 ≤ k
last_page total k h = omega (arith, h)

more_pages : (total k : ℕ) → 50 * k + 50 < total → suc k ≤ (total - 1) / 50
more_pages total k h = omega (arith, h)

module _ (number : String → ℕ) (show : ℕ → String) where
  unfoldable pub act : Action → Dict String → Dict String
  act (choose key value) params = set_filter key value params
  act (order key) params = sort_by key params
  act go_back params = previous number show params
  act (go_on total) params = next number show total params
  act clear params = []
  act (visit view) params = apply_view view

  unfoldable pub run : List Action → Dict String → Dict String
  run [] params = params
  run (a ∷ actions) params = run actions (act a params)

  -- the button for the next page, so many times
  unfoldable pub nexts : ℕ → ℕ → Dict String → Dict String
  nexts zero total params = params
  nexts (suc n) total params = nexts n total (next number show total params)

  module _ (round : (n : ℕ) → number (show n) ≡ n) where
    offset-set :
        (n : ℕ) (params : Dict String) → offset number show (set_param "offset" (show n) params) ≡ n
    unfolding offset
    offset-set n params = rw (lookup-set_param "offset" "offset" (show n) params, offset) (round n)

    offset-lookup :
        (p q : Dict String)
        → lookup "offset" p ≡ lookup "offset" q
        → offset number show p ≡ offset number show q
    unfolding offset
    offset-lookup p q h = rw (h, offset) refl

    offset-next :
        (total : ℕ) (params : Dict String)
        → offset number show (next number show total params) ≡ (
            if leb total (offset number show params + page_size)
            then offset number show params
            else offset number show params + page_size)
    unfolding next
    offset-next total params =
        elim (Bool-cases (leb total (offset number show params + page_size))) [
          | inl e ↦ rw (e, next) refl
          | inr e ↦ rw (e, next) (offset-set (offset number show params + page_size) params)
        ]

    -- From the first page, clicking on the button for the next page leads from page to page and stays on
    -- the last one, which shows the last entry; provided that `Number` reads what `String` writes.
    pub offset-nexts :
        (n total : ℕ) (params : Dict String) (k : ℕ)
        → offset number show params ≡ page_size * k
        → k ≤ (total - 1) / page_size
        → offset number show (nexts n total params)
          ≡ page_size * min (k + n) ((total - 1) / page_size)
    unfolding nexts
    offset-nexts zero total params k h l = omega (arith, h, l)
    offset-nexts (suc n) total params k h l =
        let after = offset-next total params in
        let p = next number show total params in
        elim (Bool-cases (leb total (offset number show params + page_size))) [
          | inl e ↦
              offset-nexts n total p k (after ∙ rw e h) l
              ∙ omega (arith, l, last_page total k (ground (arith, e, h)))
          | inr e ↦
              offset-nexts n total p (suc k) (after ∙ rw e (omega (arith, h)))
                (more_pages total k (ground (arith, e, h)))
              ∙ omega (arith)
        ]

    -- The pages start at the multiples of the size of a page.
    abbrev pub IsPage : Dict String → Type 0
    IsPage params = (k : ℕ) × (offset number show params ≡ page_size * k)

    same_offset : (p q : Dict String) → lookup "offset" p ≡ lookup "offset" q → IsPage q → IsPage p
    same_offset p q e (k, h) = (k, offset-lookup p q e ∙ h)

    act-IsPage :
        (a : Action) (params : Dict String) → IsSaved a → IsPage params → IsPage (act a params)
    unfolding act set_filter sort_by previous offset
    act-IsPage (choose key value) params s v = (
      0,
      offset-lookup (set_filter key value params) []
          (lookup-delete_param "offset" "offset" (set_value key (truthy value) params)),
    )
    act-IsPage (order key) params s v =
        same_offset (sort_by key params) params
          (lookup-set_param "dir" "offset" _ (set_param "sort" key params)
            ∙ lookup-set_param "sort" "offset" key params)
          v
    act-IsPage go_back params s (k, h) = elim (Bool-cases (offset number show params == 0)) [
      | inl e ↦ rw (e, previous) (k, h)
      | inr e ↦
          rw (e, previous)
            (k - 1, offset-set (offset number show params - page_size) params ∙ omega (arith, h))
    ]
    act-IsPage (go_on total) params s (k, h) =
        elim (Bool-cases (leb total (offset number show params + page_size))) [
          | inl e ↦ (k, offset-next total params ∙ rw e h)
          | inr e ↦ (suc k, offset-next total params ∙ rw e (omega (arith, h)))
        ]
    act-IsPage clear params s v = (0, refl)
    act-IsPage (visit view) params s v = (0, rw (s, offset) refl)

    -- Whatever the user chooses, orders, turns over, clears or visits, the page starts at a multiple of the
    -- size of a page; provided that it did at the start, that a saved view has no offset, and that
    -- `Number` reads what `String` writes.
    pub run-IsPage :
        (actions : List Action) (params : Dict String)
        → All IsSaved actions
        → IsPage params
        → IsPage (run actions params)
    unfolding run
    run-IsPage [] params s v = v
    run-IsPage (a ∷ actions) params (s, ss) v =
        run-IsPage actions (act a params) ss (act-IsPage a params s v)
