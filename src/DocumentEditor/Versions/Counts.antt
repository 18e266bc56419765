-- ===== src/DocumentEditor/Versions/Counts.antt =====
-- How many requests of web/src/pages/DocumentEditor.tsx carry no version.
use quagenticus.Base.{
  ℕ, suc, ◌+◌, ◌≤◌, String, true, false, none, string_eq, List, [], ◌∷◌, ◌||◌, if◌then◌else◌, ◌≡◌,
  refl, arith, inl, inr, Bool-cases, Option-cases, is_some,
}
use quagenticus.Api.Documents.{Document}
use quagenticus.DocumentEditor.{
  SaveRequest, Editor, read_only, save, arrive, succeed, fail, load_conflict, take_server,
  overwrite, Event, arrives, edits_content, edits_title, saves, succeeds, fails, conflict_loads,
  takes_server, overwrites, closes, step, run,
}

-- how many requests carry no version
abbrev pub unversioned : List SaveRequest → ℕ
unversioned [] = 0
unversioned (r ∷ sent) = let n = unversioned sent in if is_some r.version then n else suc n

module _ (trim : String → String) (doc_id : String) where
  -- how often the user chooses to overwrite
  abbrev pub overwritten : List (Event trim doc_id) → ℕ
  overwritten [] = 0
  overwritten (overwrites ∷ events) = suc (overwritten events)
  overwritten (_ ∷ events) = overwritten events

  unversioned-save-false :
      (st : Editor) → unversioned (save trim doc_id false st).sent ≡ unversioned st.sent
  unfolding save
  unversioned-save-false st = elim (Option-cases st.doc) [
    | inl e ↦ rw (e, save) refl
    | inr (doc, e) ↦ elim (Bool-cases (read_only doc || st.busy)) [
      | inl b ↦ rw (e, b, save) refl
      | inr b ↦ rw (e, b, save) refl
    ]
  ]

  unversioned-save-true :
      (st : Editor) → unversioned (save trim doc_id true st).sent ≤ suc (unversioned st.sent)
  unfolding save
  unversioned-save-true st = elim (Option-cases st.doc) [
    | inl e ↦ rw (e, save) (omega arith)
    | inr (doc, e) ↦ elim (Bool-cases (read_only doc || st.busy)) [
      | inl b ↦ rw (e, b, save) (omega arith)
      | inr b ↦ rw (e, b, save) (omega arith)
    ]
  ]

  -- An answer, a document or the dialog sends nothing, but for the button that overwrites.
  answer-sent : (doc : Document) (st : Editor) → (succeed trim doc_id doc st).sent ≡ st.sent
  unfolding succeed
  answer-sent doc st = go st.flight refl
    where
      go :
          (flight : List SaveRequest)
          → st.flight ≡ flight
          → (succeed trim doc_id doc st).sent ≡ st.sent
      go [] e = rw (e, succeed) refl
      go (r ∷ rest) e = rw (e, succeed) refl

  fail-sent : (status : ℕ) (st : Editor) → (fail trim doc_id status st).sent ≡ st.sent
  unfolding fail
  fail-sent status st = go st.flight refl
    where
      go :
          (flight : List SaveRequest)
          → st.flight ≡ flight
          → (fail trim doc_id status st).sent ≡ st.sent
      go [] e = rw (e, fail) refl
      go (r ∷ rest) e = rw (e, fail) refl

  arrive-sent : (doc : Document) (st : Editor) → (arrive trim doc_id doc st).sent ≡ st.sent
  unfolding arrive
  arrive-sent doc st = ground arith

  take_server-sent : (st : Editor) → (take_server trim doc_id st).sent ≡ st.sent
  unfolding take_server
  take_server-sent st = elim (Option-cases st.conflict_doc) [
    | inl e ↦ rw (e, take_server) refl
    | inr (doc, e) ↦ rw (e, take_server) refl
  ]

  unversioned-overwrite :
      (st : Editor) → unversioned (overwrite trim doc_id st).sent ≤ suc (unversioned st.sent)
  unfolding overwrite
  unversioned-overwrite st = elim (Option-cases st.conflict_doc) [
    | inl e ↦ rw (e, overwrite) (omega arith)
    | inr (doc, e) ↦
        rw (e, overwrite)
          (unversioned-save-true (record st { base_version = doc.version; conflict_doc = none }))
  ]

  unversioned-step :
      (e : Event trim doc_id) (st : Editor)
      → unversioned (step trim doc_id e st).sent ≤ overwritten (e ∷ []) + unversioned st.sent
  unfolding step load_conflict
  unversioned-step (arrives doc) st = rw (arrive-sent doc st) (omega arith)
  unversioned-step (edits_content text) st = omega arith
  unversioned-step (edits_title text) st = omega arith
  unversioned-step saves st = omega (arith, unversioned-save-false st)
  unversioned-step (succeeds doc) st = rw (answer-sent doc st) (omega arith)
  unversioned-step (fails status) st = rw (fail-sent status st) (omega arith)
  unversioned-step (conflict_loads doc) st = omega arith
  unversioned-step takes_server st = rw (take_server-sent st) (omega arith)
  unversioned-step overwrites st = omega (arith, unversioned-overwrite st)
  unversioned-step closes st = omega arith

  overwritten-cons :
      (e : Event trim doc_id) (events : List (Event trim doc_id))
      → overwritten (e ∷ events) ≡ overwritten (e ∷ []) + overwritten events
  overwritten-cons (arrives doc) events = omega arith
  overwritten-cons overwrites events = omega arith
  overwritten-cons _ events = omega arith

  pub run-unversioned :
      (events : List (Event trim doc_id)) (st : Editor)
      → unversioned (run trim doc_id events st).sent ≤ overwritten events + unversioned st.sent
  unfolding run
  run-unversioned [] st = omega arith
  run-unversioned (e ∷ events) st = omega (
    arith,
    run-unversioned events (step trim doc_id e st),
    unversioned-step e st,
    overwritten-cons e events,
  )
