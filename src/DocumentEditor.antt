-- ===== src/DocumentEditor.antt =====
-- web/src/pages/DocumentEditor.tsx: the text under edit, its saves, and the conflict dialog. What the
-- server and the user do comes as events, in any order. `trim` is the browser's `String.trim`, and the
-- page's `docId` is fixed. The insertion of a reference while no editor is mounted (`insert` without a
-- view) is left out.
pub mod Saves
pub mod Text
pub mod Versions
use quagenticus.Base.{
  ℕ, String, Bool, true, false, Option, none, some, List, [], ◌∷◌, ◌++◌, ◌==◌, ◌&&◌, ◌||◌, not,
  string_eq, nat_eq, if◌then◌else◌,
}
use quagenticus.Api.Types.{Role, viewer, contributor, maintainer, admin}
use quagenticus.Api.Documents.{Document}
use quagenticus.Api.Session.{or_text}

pub data SaveState : Type 0 where
  saved dirty saving conflict error : SaveState

abbrev pub is_saved : SaveState → Bool
is_saved saved = true
is_saved dirty = false
is_saved saving = false
is_saved conflict = false
is_saved error = false

abbrev pub is_saving : SaveState → Bool
is_saving saved = false
is_saving dirty = false
is_saving saving = true
is_saving conflict = false
is_saving error = false

abbrev is_viewer : Role → Bool
is_viewer viewer = true
is_viewer contributor = false
is_viewer maintainer = false
is_viewer admin = false

-- `readOnly`, with a document
abbrev pub read_only : Document → Bool
read_only doc = is_viewer doc.my_role || doc.is_archived

-- the argument of `update.mutate`
pub record SaveRequest : Type 0 where
  pub id : String
  pub title : String
  pub body_md : String
  pub version : Option ℕ

-- The state of the page; `busy` is `saving.current`. `flight` holds the requests that have no answer
-- yet, and `sent` all requests.
pub record Editor : Type 0 where
  pub doc : Option Document
  pub content : String
  pub title : String
  pub base_version : ℕ
  pub state : SaveState
  pub conflict_doc : Option Document
  pub busy : Bool
  pub flight : List SaveRequest
  pub sent : List SaveRequest

module _ (trim : String → String) (doc_id : String) where
  -- the request of `save(force)`
  abbrev pub save_request : Bool → Document → Editor → SaveRequest
  save_request force doc st = record {
    id = doc.id;
    title = or_text (trim st.title) doc.title;
    body_md = st.content;
    version = if force then none else some st.base_version;
  }

  -- `save(force)`
  unfoldable pub save : Bool → Editor → Editor
  save force st = elim st.doc [
    | none ↦ st
    | some doc ↦ if read_only doc || st.busy then st else record st {
      busy = true;
      state = saving;
      flight = save_request force doc st ∷ st.flight;
      sent = save_request force doc st ∷ st.sent;
    }
  ]

  -- `doc?.id` and `doc?.version` are what they were.
  abbrev pub unchanged : Option Document → Document → Bool
  unchanged none doc = false
  unchanged (some old) doc = old.id == doc.id && old.version == doc.version

  -- the effect that adopts the server's content, when the query's data has become `doc`
  unfoldable pub arrive : Document → Editor → Editor
  arrive doc st =
      if not (unchanged st.doc doc) && (is_saved st.state || not (doc.id == doc_id))
      then record st {
        doc = some doc;
        content = doc.body_md;
        title = doc.title;
        base_version = doc.version;
      }
      else record st { doc = some doc }

  -- `onSuccess` and `onSettled` of the first request without an answer
  unfoldable pub succeed : Document → Editor → Editor
  succeed answer st = elim st.flight [
    | [] ↦ st
    | _ ∷ rest ↦ record st {
      base_version = answer.version;
      state = if is_saving st.state then saved else st.state;
      busy = false;
      flight = rest;
    }
  ]

  -- `onError` and `onSettled`; on a 409 the state waits for the document of the server.
  unfoldable pub fail : ℕ → Editor → Editor
  fail status st = elim st.flight [
    | [] ↦ st
    | _ ∷ rest ↦ record st {
      state = if status == 409 then st.state else error;
      busy = false;
      flight = rest;
    }
  ]

  -- `onError` once that document is there
  unfoldable pub load_conflict : Document → Editor → Editor
  load_conflict doc st = record st { conflict_doc = some doc; state = conflict }

  -- the button "Usar la versión del servidor"; the document is put into the cache, too
  unfoldable pub take_server : Editor → Editor
  take_server st = elim st.conflict_doc [
    | none ↦ st
    | some doc ↦ record st {
      doc = some doc;
      content = doc.body_md;
      title = doc.title;
      base_version = doc.version;
      state = saved;
      conflict_doc = none;
    }
  ]

  -- the button "Sobrescribir con mis cambios"
  unfoldable pub overwrite : Editor → Editor
  overwrite st = elim st.conflict_doc [
    | none ↦ st
    | some doc ↦ save true (record st { base_version = doc.version; conflict_doc = none })
  ]

  -- `saves` is the autosave, the shortcut and the other calls of `save()`.
  pub data Event : Type 0 where
    arrives : Document → Event
    edits_content edits_title : String → Event
    saves : Event
    succeeds : Document → Event
    fails : ℕ → Event
    conflict_loads : Document → Event
    takes_server overwrites closes : Event

  unfoldable pub step : Event → Editor → Editor
  step (arrives doc) st = arrive doc st
  step (edits_content text) st = record st { content = text; state = dirty }
  step (edits_title text) st = record st { title = text; state = dirty }
  step saves st = save false st
  step (succeeds doc) st = succeed doc st
  step (fails status) st = fail status st
  step (conflict_loads doc) st = load_conflict doc st
  step takes_server st = take_server st
  step overwrites st = overwrite st
  step closes st = record st { conflict_doc = none }

  unfoldable pub run : List Event → Editor → Editor
  run [] st = st
  run (e ∷ events) st = run events (step e st)

abbrev pub start : Editor
start = record {
  doc = none;
  content = "";
  title = "";
  base_version = 0;
  state = saved;
  conflict_doc = none;
  busy = false;
  flight = [];
  sent = [];
}
