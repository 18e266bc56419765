-- ===== src/DocumentEditor/Versions.antt =====
-- Which requests of web/src/pages/DocumentEditor.tsx may overwrite a newer version of the server.
pub mod Counts
use quagenticus.DocumentEditor.Versions.Counts.{unversioned, overwritten, run-unversioned}
use quagenticus.Base.{
  ℕ, suc, ◌+◌, ◌≤◌, String, Bool, true, false, Option, none, some, ◌&&◌, not, ◌==◌, string_eq, ap,
  ◌∙◌, ◌⊎◌, List, [], ◌∷◌, ◌||◌, if◌then◌else◌, ◌≡◌, refl, arith, inl, inr, Bool-cases,
  Option-cases, is_some,
}
use quagenticus.Api.Documents.{Document}
use quagenticus.DocumentEditor.{
  SaveRequest, Editor, read_only, save, arrive, succeed, fail, load_conflict, take_server,
  overwrite, Event, arrives, edits_content, edits_title, saves, succeeds, fails, conflict_loads,
  takes_server, overwrites, closes, step, run, start, save_request, unchanged, is_saved,
}

abbrev answered : ℕ → List SaveRequest → ℕ → ℕ
answered version [] base = base
answered version (_ ∷ _) base = version

abbrev decided : Option Document → ℕ → ℕ
decided none base = base
decided (some doc) base = doc.version

module _ (trim : String → String) (doc_id : String) where
  -- a document that arrives is adopted: its version is new, and nothing is unsaved or it is of another page
  abbrev adopts : Document → Editor → Bool
  adopts doc st =
      not (unchanged trim doc_id st.doc doc) && (is_saved st.state || not (doc.id == doc_id))

  -- The version that the text under edit is based on: that of the document adopted last, of the answer to
  -- the last save that succeeded, or of the dialog in which the user has decided.
  abbrev based_after : Event trim doc_id → Editor → ℕ → ℕ
  based_after (arrives doc) st base = if adopts doc st then doc.version else base
  based_after (succeeds answer) st base = answered answer.version st.flight base
  based_after takes_server st base = decided st.conflict_doc base
  based_after overwrites st base = decided st.conflict_doc base
  based_after _ st base = base

  abbrev pub based_on : List (Event trim doc_id) → Editor → ℕ → ℕ
  based_on [] st base = base
  based_on (e ∷ events) st base = based_on events (step trim doc_id e st) (based_after e st base)

  save-base :
      (force : Bool) (st : Editor) → (save trim doc_id force st).base_version ≡ st.base_version
  unfolding save
  save-base force st = elim (Option-cases st.doc) [
    | inl e ↦ rw (e, save) refl
    | inr (doc, e) ↦ elim (Bool-cases (read_only doc || st.busy)) [
      | inl b ↦ rw (e, b, save) refl
      | inr b ↦ rw (e, b, save) refl
    ]
  ]

  arrive-base :
      (doc : Document) (st : Editor)
      → (arrive trim doc_id doc st).base_version
        ≡ (if adopts doc st then doc.version else st.base_version)
  unfolding arrive
  arrive-base doc st = elim (Bool-cases (adopts doc st)) [ inl e ↦ rw e refl | inr e ↦ rw e refl ]

  answer-base :
      (flight : List SaveRequest) (doc : Document) (st : Editor)
      → st.flight ≡ flight
      → (succeed trim doc_id doc st).base_version ≡ answered doc.version flight st.base_version
  unfolding succeed
  answer-base [] doc st e = rw (e, succeed) refl
  answer-base (r ∷ rest) doc st e = rw (e, succeed) refl

  fail-base :
      (flight : List SaveRequest) (status : ℕ) (st : Editor)
      → st.flight ≡ flight
      → (fail trim doc_id status st).base_version ≡ st.base_version
  unfolding fail
  fail-base [] status st e = rw (e, fail) refl
  fail-base (r ∷ rest) status st e = rw (e, fail) refl

  take_server-base :
      (o : Option Document) (st : Editor)
      → st.conflict_doc ≡ o
      → (take_server trim doc_id st).base_version ≡ decided o st.base_version
  unfolding take_server
  take_server-base none st e = rw (e, take_server) refl
  take_server-base (some doc) st e = rw (e, take_server) refl

  overwrite-base :
      (o : Option Document) (st : Editor)
      → st.conflict_doc ≡ o
      → (overwrite trim doc_id st).base_version ≡ decided o st.base_version
  unfolding overwrite
  overwrite-base none st e = rw (e, overwrite) refl
  overwrite-base (some doc) st e = rw (e, overwrite) (save-base true _)

  step-base :
      (e : Event trim doc_id) (st : Editor)
      → (step trim doc_id e st).base_version ≡ based_after e st st.base_version
  unfolding step load_conflict
  step-base (arrives doc) st = arrive-base doc st
  step-base (edits_content text) st = refl
  step-base (edits_title text) st = refl
  step-base saves st = save-base false st
  step-base (succeeds doc) st = answer-base st.flight doc st refl
  step-base (fails status) st = fail-base st.flight status st refl
  step-base (conflict_loads doc) st = refl
  step-base takes_server st = take_server-base st.conflict_doc st refl
  step-base overwrites st = overwrite-base st.conflict_doc st refl
  step-base closes st = refl

  run-base :
      (events : List (Event trim doc_id)) (st : Editor)
      → (run trim doc_id events st).base_version ≡ based_on events st st.base_version
  unfolding run
  run-base [] st = refl
  run-base (e ∷ events) st =
      run-base events (step trim doc_id e st)
      ∙ ap (based_on events (step trim doc_id e st)) (step-base e st)

  -- No document is there, or it is read only, or a save is under way.
  abbrev pub prevented : Editor → Bool
  prevented st = elim st.doc [ none ↦ true | some doc ↦ read_only doc || st.busy ]

  -- What one save sends from a state: a request with a version, or nothing.
  abbrev pub Sends : ℕ → Editor → Editor → Type 0
  Sends base st next =
      ((prevented st ≡ true) × (next.sent ≡ st.sent))
      ⊎ ((r : SaveRequest) × (next.sent ≡ r ∷ st.sent)
          × (r.version ≡ some base)
          × (r.body_md ≡ st.content))

  save-Sends :
      (st : Editor) (base : ℕ) → st.base_version ≡ base → Sends base st (save trim doc_id false st)
  unfolding save
  save-Sends st base h = elim (Option-cases st.doc) [
    | inl e ↦ rw (e, save) (inl (refl, refl))
    | inr (doc, e) ↦ elim (Bool-cases (read_only doc || st.busy)) [
      | inl b ↦ rw (e, b, save) (inl (refl, refl))
      | inr b ↦ rw (e, b, save) (inr (save_request trim doc_id false doc st, refl, ap some h, refl))
    ]
  ]

  -- After any events from the start, an ordinary save sends one request, with the text on the screen and the
  -- version that it is based on: that of the document adopted last, of the answer to the last save that
  -- succeeded, or of the dialog in which the user has decided. It sends nothing only if there is no document,
  -- if it is read only, or if a save is under way. Requests without a version, which
  -- overwrite whatever the server has, are at most as many as the clicks on the button that overwrites.
  pub unversioned-run :
      (events : List (Event trim doc_id))
      → Sends
          (based_on events start 0)
          (run trim doc_id events start)
          (step trim doc_id saves (run trim doc_id events start))
        × (unversioned (run trim doc_id events start).sent ≤ overwritten trim doc_id events)
  unfolding step
  unversioned-run events = (
    save-Sends (run trim doc_id events start) (based_on events start 0) (run-base events start),
    omega (arith, run-unversioned trim doc_id events start),
  )
