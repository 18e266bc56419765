-- ===== src/DocumentEditor/Saves.antt =====
-- The saves of web/src/pages/DocumentEditor.tsx: how many are under way, what they carry, and when the
-- text on the screen is replaced.
use quagenticus.Base.{
  ℕ, String, Bool, true, false, Option, none, some, if◌then◌else◌, List, [], ◌∷◌, ◌==◌, ◌&&◌, ◌||◌,
  not, string_eq, nat_eq, ◌≡◌, refl, sym, ap, ◌∙◌, arith, inl, inr, Bool-cases, Option-cases,
}
use quagenticus.Api.Documents.{Document}
use quagenticus.DocumentEditor.{
  SaveState, saved, dirty, saving, conflict, error, is_saved, is_saving, read_only, SaveRequest,
  Editor, save_request, save, unchanged, arrive, succeed, fail, load_conflict, take_server,
  overwrite, Event, arrives, edits_content, edits_title, saves, succeeds, fails, conflict_loads,
  takes_server, overwrites, closes, step, run, start,
}

-- What is known of the text that the server has is `known`. Either no request is without an answer, the
-- editor is free, and if the state is "saved" the text on the screen is `known`; or there is just one, the
-- editor is busy, the state is not "saved", and while it is "saving" the request's text is that on the screen.
pub data IsSound (known : String) (st : Editor) : Type 0 where
  idle :
      st.busy ≡ false
      → st.flight ≡ []
      → (is_saved st.state ≡ true → st.content ≡ known)
      → IsSound known st
  under_way :
      (r : SaveRequest)
      → st.busy ≡ true
      → st.flight ≡ r ∷ []
      → (is_saving st.state ≡ true → r.body_md ≡ st.content)
      → is_saved st.state ≡ false
      → IsSound known st

-- what is known when the first request without an answer succeeds
abbrev answered : List SaveRequest → String → String
answered [] known = known
answered (r ∷ _) known = r.body_md

-- what is known when the user takes the version of the dialog
abbrev taken : Option Document → String → String
taken none known = known
taken (some doc) known = doc.body_md

IsSound-of :
    (known : String) (st next : Editor)
    → next.busy ≡ st.busy
    → next.flight ≡ st.flight
    → (is_saving next.state ≡ true → (is_saving st.state ≡ true) × (next.content ≡ st.content))
    → (is_saved next.state ≡ true → (is_saved st.state ≡ true) × (next.content ≡ st.content))
    → IsSound known st
    → IsSound known next
IsSound-of known st next b f k j (idle p q t) = idle (b ∙ p) (f ∙ q) (λ s. (j s).1 ∙ t (j s).0)
IsSound-of known st next b f k j (under_way r p q t u) =
    under_way r (b ∙ p) (f ∙ q) (λ s. t (k s).0 ∙ sym (k s).1)
      (elim (Bool-cases (is_saved next.state)) [ inl s ↦ absurd (cc ((j s).0, u)) | inr s ↦ s ])

-- A state that is neither "saved" nor "saving" is sound with any text.
IsSound-open :
    (known : String) (st next : Editor)
    → next.busy ≡ st.busy
    → next.flight ≡ st.flight
    → is_saving next.state ≡ false
    → is_saved next.state ≡ false
    → IsSound known st
    → IsSound known next
IsSound-open known st next b f k j v =
    IsSound-of known st next b f (λ s. absurd (cc (s, k))) (λ s. absurd (cc (s, j))) v

module _ (trim : String → String) (doc_id : String) where
  -- the text that the server is known to have: that of the document that is adopted, of the last save that
  -- has succeeded, or of the document of the dialog that the user takes
  abbrev pub known_after : Event trim doc_id → Editor → String → String
  known_after (arrives doc) st known =
      if is_saved st.state && not (unchanged trim doc_id st.doc doc) then doc.body_md else known
  known_after (succeeds _) st known = answered st.flight known
  known_after takes_server st known = taken st.conflict_doc known
  known_after _ st known = known

  abbrev pub known_of : List (Event trim doc_id) → Editor → String → String
  known_of [] st known = known
  known_of (e ∷ events) st known = known_of events (step trim doc_id e st) (known_after e st known)

  -- The documents that arrive are those of the page, and the version of the dialog is not taken while a
  -- save is under way.
  abbrev IsOwn : Event trim doc_id → Editor → Type 0
  IsOwn (arrives doc) st = (doc.id == doc_id) ≡ true
  IsOwn takes_server st = st.busy ≡ false
  IsOwn _ st = Unit {0}

  abbrev pub AreOwn : List (Event trim doc_id) → Editor → Type 0
  AreOwn [] st = Unit {0}
  AreOwn (e ∷ events) st = IsOwn e st × AreOwn events (step trim doc_id e st)

  save-IsSound :
      (force : Bool) (known : String) (st : Editor)
      → IsSound known st
      → IsSound known (save trim doc_id force st)
  unfolding save
  save-IsSound force known st v = elim (Option-cases st.doc) [
    | inl e ↦ rw (e, save) v
    | inr (doc, e) ↦ elim (Bool-cases (read_only doc || st.busy)) [
      | inl b ↦ rw (e, b, save) v
      | inr b ↦ elim v [
        | idle p q s ↦
            rw (e, b, save)
              (under_way (save_request trim doc_id force doc st) refl
                (ap (save_request trim doc_id force doc st ∷◌) q) (λ _. refl) refl)
        | under_way r p q t u ↦ absurd (ground (arith, b, p))
      ]
    ]
  ]

  -- What arrives is adopted exactly if the state is "saved" and the version is another.
  adopts : (a b c : Bool) → c ≡ true → (not a && (b || not c)) ≡ (b && not a)
  adopts a b c h = ground (arith, h)

  arrive-IsSound :
      (doc : Document) (known : String) (st : Editor)
      → (doc.id == doc_id) ≡ true
      → IsSound known st
      → IsSound (known_after (arrives doc) st known) (arrive trim doc_id doc st)
  unfolding arrive
  arrive-IsSound doc known st h v =
      elim (Bool-cases (is_saved st.state && not (unchanged trim doc_id st.doc doc))) [
        | inl e ↦
            rw
              (
                adopts (unchanged trim doc_id st.doc doc) (is_saved st.state) (doc.id == doc_id) h,
                e,
              )
              (elim v [
                | idle p q t ↦ idle p q (λ _. refl)
                | under_way r p q t u ↦ absurd (ground (arith, e, u))
              ])
        | inr e ↦
            rw
              (
                adopts (unchanged trim doc_id st.doc doc) (is_saved st.state) (doc.id == doc_id) h,
                e,
              )
              (IsSound-of known st _ refl refl (λ s. (s, refl)) (λ s. (s, refl)) v)
      ]

  -- An answer to a save that is still shown as "saving" is about the text on the screen.
  settled :
      (s : SaveState) (text known : String)
      → (is_saving s ≡ true → known ≡ text)
      → is_saved s ≡ false
      → is_saved (if is_saving s then saved else s) ≡ true
      → text ≡ known
  settled saved text known t u h = absurd (cc u)
  settled dirty text known t u h = absurd (cc h)
  settled saving text known t u h = sym (t refl)
  settled conflict text known t u h = absurd (cc h)
  settled error text known t u h = absurd (cc h)

  answer-IsSound :
      (doc : Document) (known : String) (st : Editor)
      → IsSound known st
      → IsSound (answered st.flight known) (succeed trim doc_id doc st)
  unfolding succeed
  answer-IsSound doc known st (idle p q t) = rw (q, succeed) (idle p q t)
  answer-IsSound doc known st (under_way r p q t u) =
      rw (q, succeed) (idle refl refl (settled st.state st.content r.body_md t u))

  fail-IsSound :
      (status : ℕ) (known : String) (st : Editor)
      → IsSound known st
      → IsSound known (fail trim doc_id status st)
  unfolding fail
  fail-IsSound status known st (idle p q t) = rw (q, fail) (idle p q t)
  fail-IsSound status known st (under_way r p q t u) =
      rw (q, fail) (idle refl refl (λ h. ground (arith, u, h)))

  take_server-IsSound :
      (o : Option Document) (known : String) (st : Editor)
      → st.conflict_doc ≡ o
      → st.busy ≡ false
      → IsSound known st
      → IsSound (taken o known) (take_server trim doc_id st)
  unfolding take_server
  take_server-IsSound none known st e f v = rw (e, take_server) v
  take_server-IsSound (some doc) known st e f (idle p q t) =
      rw (e, take_server) (idle p q (λ _. refl))
  take_server-IsSound (some doc) known st e f (under_way r p q t u) = absurd (cc (f, p))

  step-IsSound :
      (e : Event trim doc_id) (known : String) (st : Editor)
      → IsOwn e st
      → IsSound known st
      → IsSound (known_after e st known) (step trim doc_id e st)
  unfolding step load_conflict overwrite
  step-IsSound (arrives doc) known st h v = arrive-IsSound doc known st h v
  step-IsSound (edits_content text) known st h v = IsSound-open known st _ refl refl refl refl v
  step-IsSound (edits_title text) known st h v = IsSound-open known st _ refl refl refl refl v
  step-IsSound saves known st h v = save-IsSound false known st v
  step-IsSound (succeeds doc) known st h v = answer-IsSound doc known st v
  step-IsSound (fails status) known st h v = fail-IsSound status known st v
  step-IsSound (conflict_loads doc) known st h v = IsSound-open known st _ refl refl refl refl v
  step-IsSound takes_server known st h v = take_server-IsSound st.conflict_doc known st refl h v
  step-IsSound overwrites known st h v = elim (Option-cases st.conflict_doc) [
    | inl e ↦ rw (e, overwrite) v
    | inr (doc, e) ↦
        rw (e, overwrite)
          (save-IsSound true known _
            (IsSound-of known st _ refl refl (λ s. (s, refl)) (λ s. (s, refl)) v))
  ]
  step-IsSound closes known st h v =
      IsSound-of known st _ refl refl (λ s. (s, refl)) (λ s. (s, refl)) v

  run_from-IsSound :
      (events : List (Event trim doc_id)) (known : String) (st : Editor)
      → AreOwn events st
      → IsSound known st
      → IsSound (known_of events st known) (run trim doc_id events st)
  unfolding run
  run_from-IsSound [] known st h v = v
  run_from-IsSound (e ∷ events) known st (h, hs) v =
      run_from-IsSound events (known_after e st known) (step trim doc_id e st) hs
        (step-IsSound e known st h v)

  -- In whatever order the user edits, saves and answers the dialog and the server replies, there is
  -- never more than one request without an answer; while the state is "saving" with a request under way
  -- the request's text is the one on the screen; and while it is "saved" no request is under way and the
  -- text on the screen is that which the server is known to have: that of the last save that succeeded,
  -- of a document adopted since, or of the version taken in the dialog, and the empty text before all
  -- these. The documents that arrive are those of the page, and the version in the dialog is not taken
  -- while a save is under way.
  pub editor-IsSound :
      (events : List (Event trim doc_id))
      → AreOwn events start
      → IsSound (known_of events start "") (run trim doc_id events start)
  editor-IsSound events h = run_from-IsSound events "" start h (idle refl refl (λ _. refl))
