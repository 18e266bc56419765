-- ===== src/DocumentEditor/Text.antt =====
-- When web/src/pages/DocumentEditor.tsx replaces the text on the screen.
use quagenticus.Base.{
  ℕ, String, Bool, true, false, none, List, [], ◌∷◌, ◌==◌, ◌&&◌, ◌||◌, not, string_eq, nat_eq, ◌≡◌,
  refl, ◌∙◌, arith, inl, inr, All, Bool-cases, Option-cases,
}
use quagenticus.Api.Documents.{Document}
use quagenticus.DocumentEditor.{
  is_saved, read_only, Editor, save, unchanged, arrive, fail, load_conflict, overwrite, Event,
  arrives, edits_content, edits_title, saves, succeeds, fails, conflict_loads, takes_server,
  overwrites, closes, step, run,
}

-- The text on the screen stays, and it is not said to be saved.
abbrev pub Holds : Editor → Editor → Type 0
Holds st next =
    (is_saved next.state ≡ false) × (next.content ≡ st.content) × (next.title ≡ st.title)

module _ (trim : String → String) (doc_id : String) where
  -- The server's events but for the success of a save, and the calls of `save`, from the dialog too.
  abbrev pub IsQuiet : Event trim doc_id → Type 0
  IsQuiet (arrives doc) = (doc.id == doc_id) ≡ true
  IsQuiet saves = Unit {0}
  IsQuiet (fails status) = Unit {0}
  IsQuiet (conflict_loads doc) = Unit {0}
  IsQuiet overwrites = Unit {0}
  IsQuiet closes = Unit {0}
  IsQuiet _ = ⊥

  save-Holds :
      (force : Bool) (st : Editor)
      → is_saved st.state ≡ false
      → Holds st (save trim doc_id force st)
  unfolding save
  save-Holds force st h = elim (Option-cases st.doc) [
    | inl e ↦ rw (e, save) (h, refl, refl)
    | inr (doc, e) ↦ elim (Bool-cases (read_only doc || st.busy)) [
      | inl b ↦ rw (e, b, save) (h, refl, refl)
      | inr b ↦ rw (e, b, save) (refl, refl, refl)
    ]
  ]

  arrive-Holds :
      (doc : Document) (st : Editor)
      → (doc.id == doc_id) ≡ true
      → is_saved st.state ≡ false
      → Holds st (arrive trim doc_id doc st)
  unfolding arrive
  arrive-Holds doc st own h =
      let closed : not (unchanged trim doc_id st.doc doc)
            && (is_saved st.state || not (doc.id == doc_id))
          ≡ false =
        ground (arith, own, h) in
      rw (closed, arrive) (h, refl, refl)

  fail-Holds :
      (status : ℕ) (st : Editor) → is_saved st.state ≡ false → Holds st (fail trim doc_id status st)
  unfolding fail
  fail-Holds status st h = go st.flight refl
    where
      go : (flight : List _) → st.flight ≡ flight → Holds st (fail trim doc_id status st)
      go [] e = rw (e, fail) (h, refl, refl)
      go (r ∷ rest) e = elim (Bool-cases (status == 409)) [
        | inl b ↦ rw (e, b, fail) (h, refl, refl)
        | inr b ↦ rw (e, b, fail) (refl, refl, refl)
      ]

  step-Holds :
      (e : Event trim doc_id) (st : Editor)
      → IsQuiet e
      → is_saved st.state ≡ false
      → Holds st (step trim doc_id e st)
  unfolding step load_conflict overwrite
  step-Holds (arrives doc) st q h = arrive-Holds doc st q h
  step-Holds (edits_content text) st q h = absurd q
  step-Holds (edits_title text) st q h = absurd q
  step-Holds saves st q h = save-Holds false st h
  step-Holds (succeeds doc) st q h = absurd q
  step-Holds (fails status) st q h = fail-Holds status st h
  step-Holds (conflict_loads doc) st q h = (refl, refl, refl)
  step-Holds takes_server st q h = absurd q
  step-Holds overwrites st q h = elim (Option-cases st.conflict_doc) [
    | inl e ↦ rw (e, overwrite) (h, refl, refl)
    | inr (doc, e) ↦
        rw (e, overwrite)
          (save-Holds true (record st { base_version = doc.version; conflict_doc = none }) h)
  ]
  step-Holds closes st q h = (h, refl, refl)

  -- Edits that are not saved yet stay on the screen: from a state other than "saved", whatever
  -- versions of the page's document arrive, and however often it is saved without success, also over
  -- a conflict, the text and the title stay, and the state does not become "saved".
  pub run-Holds :
      (events : List (Event trim doc_id)) (st : Editor)
      → All IsQuiet events
      → is_saved st.state ≡ false
      → (is_saved (run trim doc_id events st).state ≡ false)
        × ((run trim doc_id events st).content ≡ st.content)
        × ((run trim doc_id events st).title ≡ st.title)
  unfolding run
  run-Holds [] st q h = (h, refl, refl)
  run-Holds (e ∷ events) st (q, qs) h =
      let (open_now, same_content, same_title) = step-Holds e st q h in
      let (later, content, title) = run-Holds events (step trim doc_id e st) qs open_now in
      (later, content ∙ same_content, title ∙ same_title)
