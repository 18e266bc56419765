-- ===== src/RequirementDetail/Saves.antt =====
-- The version with which web/src/pages/RequirementDetail.tsx saves a description.
use quagenticus.Base.{
  ℕ, String, Bool, false, Option, none, some, List, [], ◌∷◌, ◌≡◌, refl, sym, ap, ◌∙◌, ◌⊎◌, inl, inr,
  ◌&&◌, ◌||◌, ◌==◌, string_eq, not, Bool-cases,
}
use quagenticus.Api.Documents.{Requirement}
use quagenticus.RequirementDetail.{
  read_only, update_body, Page, start, is_dirty, send_body, save_body, save_title, take_theirs,
  keep_mine, Event, edited, begun, typed, cancelled, saved, renewed, succeeded, refused,
  theirs_taken, mine_kept, conflict_closed, title_opened, title_typed, title_saved, title_cancelled,
  title_succeeded, open_body, type_body, step, run,
}

-- The version of the requirement whose text is under edit: that which stood in the cache when the edit began,
-- or which the user has seen in the conflict dialog.
abbrev opened_from : ℕ → Option String → ℕ → ℕ
opened_from version none base = version
opened_from version (some _) base = base

abbrev decided : Option Requirement → ℕ → ℕ
decided none base = base
decided (some theirs) base = theirs.version

abbrev base_after : Event → Page → ℕ → ℕ
base_after edited p base = opened_from p.req.version p.body base
base_after (begun _) p base = p.req.version
base_after mine_kept p base = decided p.conflict base
base_after _ p base = base

-- The requirement is not renewed with another version while its text is under edit.
abbrev IsQuiet : Event → Page → Type 0
IsQuiet (renewed req) p = (p.body ≡ none) ⊎ (req.version ≡ p.req.version)
IsQuiet (title_succeeded req) p = (p.body ≡ none) ⊎ (req.version ≡ p.req.version)
IsQuiet _ p = Unit

abbrev IsBased : ℕ → Page → Type 0
IsBased base p = (p.body ≡ none) ⊎ (base ≡ p.req.version)

module _ (trim : String → String) where
  -- `base_after` along a run
  abbrev pub base_of : List Event → Page → ℕ → ℕ
  base_of [] p base = base
  base_of (e ∷ es) p base = base_of es (step trim e p) (base_after e p base)

  abbrev pub AreQuiet : List Event → Page → Type 0
  AreQuiet [] p = Unit
  AreQuiet (e ∷ es) p = IsQuiet e p × AreQuiet es (step trim e p)

  renewed-IsBased :
      (req : Requirement) (p : Page) (base : ℕ)
      → (p.body ≡ none) ⊎ (req.version ≡ p.req.version)
      → IsBased base p
      → IsBased base (record p { req = req })
  renewed-IsBased req p base (inl e) b = inl e
  renewed-IsBased req p base (inr e) (inl n) = inl n
  renewed-IsBased req p base (inr e) (inr v) = inr (v ∙ sym e)

  open_body-IsBased :
      (text : String) (o : Option String) (p : Page) (base : ℕ)
      → p.body ≡ o
      → IsBased base p
      → IsBased (opened_from p.req.version o base) (open_body text o p)
  open_body-IsBased text none p base e b = inr refl
  open_body-IsBased text (some _) p base e b = b

  type_body-IsBased :
      (text : String) (o : Option String) (p : Page) (base : ℕ)
      → p.body ≡ o
      → IsBased base p
      → IsBased base (type_body text o p)
  type_body-IsBased text none p base e b = b
  type_body-IsBased text (some _) p base e (inl n) = absurd (cc (e, n))
  type_body-IsBased text (some _) p base e (inr v) = inr v

  send_body-IsBased :
      (force : Bool) (o : Option String) (p : Page) (base : ℕ)
      → IsBased base p
      → IsBased base (send_body force o p)
  send_body-IsBased force none p base b = b
  send_body-IsBased force (some text) p base b = b

  take_theirs-IsBased :
      (c : Option Requirement) (o : Option String) (p : Page) (base : ℕ)
      → IsBased base p
      → IsBased base (take_theirs c o p)
  take_theirs-IsBased (some theirs) (some _) p base b = inl refl
  take_theirs-IsBased (some theirs) none p base b = b
  take_theirs-IsBased none o p base b = b

  keep_mine-IsBased :
      (c : Option Requirement) (o : Option String) (p : Page) (base : ℕ)
      → p.body ≡ o
      → IsBased base p
      → IsBased (decided c base) (keep_mine c o p)
  unfolding save_body
  keep_mine-IsBased (some theirs) (some t) p base e b = inr refl
  keep_mine-IsBased (some theirs) none p base e b = inl e
  keep_mine-IsBased none o p base e b = b

  opened_from-IsBased :
      (o : Option String) (p : Page) (base : ℕ)
      → p.body ≡ o
      → IsBased base p
      → IsBased (opened_from p.req.version o base) p
  opened_from-IsBased none p base e b = inl e
  opened_from-IsBased (some _) p base e b = b

  step-IsBased :
      (e : Event) (p : Page) (base : ℕ)
      → IsQuiet e p
      → IsBased base p
      → IsBased (base_after e p base) (step trim e p)
  unfolding step save_body save_title
  step-IsBased edited p base q b = elim (Bool-cases (read_only p.req)) [
    | inl r ↦ rw r (opened_from-IsBased p.body p base refl b)
    | inr r ↦ rw r (open_body-IsBased p.req.body_md p.body p base refl b)
  ]
  step-IsBased (begun template) p base q b = inr refl
  step-IsBased (typed text) p base q b = type_body-IsBased text p.body p base refl b
  step-IsBased (cancelled confirmed) p base q b = elim (Bool-cases (is_dirty p && not confirmed)) [
    | inl r ↦ rw r b
    | inr r ↦ rw r (inl refl)
  ]
  step-IsBased saved p base q b = send_body-IsBased false p.body p base b
  step-IsBased (renewed req) p base q b = renewed-IsBased req p base q b
  step-IsBased (succeeded req) p base q b = inl refl
  step-IsBased (refused fresh) p base q b = b
  step-IsBased theirs_taken p base q b = take_theirs-IsBased p.conflict p.body p base b
  step-IsBased mine_kept p base q b = keep_mine-IsBased p.conflict p.body p base refl b
  step-IsBased conflict_closed p base q b = b
  step-IsBased title_opened p base q b = elim (Bool-cases (read_only p.req)) [
    | inl r ↦ rw r b
    | inr r ↦ rw r b
  ]
  step-IsBased (title_typed text) p base q b = b
  step-IsBased title_saved p base q b =
      elim (Bool-cases (trim p.title == "" || trim p.title == p.req.title)) [
        | inl r ↦ rw (r, save_title) b
        | inr r ↦ rw (r, save_title) b
      ]
  step-IsBased title_cancelled p base q b = b
  step-IsBased (title_succeeded req) p base q b = renewed-IsBased req p base q b

  run-IsBased :
      (es : List Event) (p : Page) (base : ℕ)
      → AreQuiet es p
      → IsBased base p
      → IsBased (base_of es p base) (run trim es p)
  unfolding run
  run-IsBased [] p base q b = b
  run-IsBased (e ∷ es) p base (q, qs) b =
      run-IsBased es (step trim e p) (base_after e p base) qs (step-IsBased e p base q b)

  sent_by_save :
      (p : Page) (text : String) (base : ℕ)
      → p.body ≡ some text
      → IsBased base p
      → (save_body false p).sent ≡ update_body p.req.id text (some base) ∷ p.sent
  unfolding save_body
  sent_by_save p text base e (inl n) = absurd (cc (e, n))
  sent_by_save p text base e (inr v) =
      ap (λ o. (send_body false o p).sent) e
      ∙ ap (λ n. update_body p.req.id text (some n) ∷ p.sent) (sym v)

  -- A save of the description carries its text, and the version of the requirement from which the edit began,
  -- or which the conflict dialog has shown, so that the server can refuse it if there is a newer one; provided
  -- that the requirement was not renewed with another version while its description was under edit.
  pub sent-saved :
      (es : List Event) (req : Requirement) (text : String)
      → AreQuiet es (start req)
      → (run trim es (start req)).body ≡ some text
      → (step trim saved (run trim es (start req))).sent
        ≡ update_body
            (run trim es (start req)).req.id
            text
            (some (base_of es (start req) req.version))
          ∷ (run trim es (start req)).sent
  unfolding step
  sent-saved es req text q e =
      sent_by_save (run trim es (start req)) text (base_of es (start req) req.version) e
        (run-IsBased es (start req) req.version q (inl refl))
