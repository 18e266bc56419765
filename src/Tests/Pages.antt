-- ===== src/Tests/Pages.antt =====
-- The pages and the live events: web/src/lib/events.ts, web/src/pages/DocumentEditor.tsx and
-- web/src/components/editor/MarkdownToolbar.tsx.
use quagenticus.Base.{
  ◌≤◌, String, true, false, none, some, List, [], ◌∷◌, ◌≡◌, refl, ◌⊎◌, All, arith, codes, slice,
  take, drop,
}
use quagenticus.Api.Types.{maintainer}
use quagenticus.Api.Documents.{Document, DocumentSummary, note, null}
use quagenticus.Cache.Keys.{Resource, requirement_resource, RequirementKey}
use quagenticus.Events.{ChangeEvent, Arrival, change, timeout, cleanup, run, start}
use quagenticus.Events.Pending.{received, IsPlain, run-timer}
use quagenticus.DocumentEditor
use quagenticus.DocumentEditor.{
  Editor, Event, arrives, edits_content, edits_title, saves, succeeds, fails, conflict_loads,
  takes_server, overwrites, closes, dirty,
}
use quagenticus.DocumentEditor.Saves.{AreOwn, known_of, IsSound, editor-IsSound}
use quagenticus.DocumentEditor.Text.{run-Holds}
use quagenticus.DocumentEditor.Versions.Counts.{unversioned}
use quagenticus.DocumentEditor.Versions.{based_on, Sends, unversioned-run}
use quagenticus.MarkdownToolbar.{ToolbarAction, apply_action, prefix_of, selection_of}
use quagenticus.MarkdownToolbar.Laws.{apply_action-parts}

abbrev ev : ChangeEvent
ev = record { event_type = "requirement.updated"; space_id = "s"; document_id = some "r" }

abbrev detail : Resource
detail = requirement_resource "r" RequirementKey.detail

abbrev arrivals : List Arrival
arrivals = change (some ev) ∷ change none ∷ change (some ev) ∷ timeout ∷ change (some ev) ∷ []

abbrev arrivals-IsPlain : All IsPlain (received arrivals)
arrivals-IsPlain = ((refl, refl), ((refl, refl), ((refl, refl), tt)))

run-timer_example :
    ((run arrivals start).scheduled ≡ true ⊎ (run arrivals start).pending ≡ [])
    × ((cleanup (run arrivals start)).scheduled ≡ false)
run-timer_example = run-timer arrivals

abbrev doc_summary : DocumentSummary
doc_summary = record {
  id = "d";
  space_id = "";
  parent_id = none;
  doc_type = note;
  ref_key = none;
  slug = "";
  title = "T";
  version = 1;
  is_archived = false;
  archived_at = none;
  position = 0;
  depth = 0;
  word_count = 0;
  created_at = "";
  updated_at = "";
  creator_id = none;
  creator_name = none;
  updater_id = none;
  updater_name = none;
  excerpt = none;
  is_favorite = false;
  children_count = none;
  labels = [];
}

abbrev doc : Document
doc = record {
  summary = doc_summary;
  body_md = "one";
  front_matter = null;
  is_watching = false;
  my_role = maintainer;
  sections = [];
  breadcrumbs = [];
}

abbrev trim : String → String
trim text = text

-- The document is edited, a save fails over a conflict, and is then forced.
abbrev edits : List (Event trim "d")
edits =
    arrives doc
    ∷ edits_content "two"
    ∷ saves
    ∷ fails 409
    ∷ conflict_loads doc
    ∷ overwrites
    ∷ succeeds doc
    ∷ []

edits-AreOwn : AreOwn trim "d" edits DocumentEditor.start
edits-AreOwn = (refl, (tt, (tt, (tt, (tt, (tt, (tt, tt)))))))

editor-IsSound_example :
    IsSound
      (known_of trim "d" edits DocumentEditor.start "")
      (DocumentEditor.run trim "d" edits DocumentEditor.start)
editor-IsSound_example = editor-IsSound trim "d" edits edits-AreOwn

abbrev edited : Editor
edited = record {
  doc = some doc;
  content = "two";
  title = "T";
  base_version = 1;
  state = dirty;
  conflict_doc = none;
  busy = false;
  flight = [];
  sent = [];
}

abbrev refused : List (Event trim "d")
refused = saves ∷ fails 409 ∷ conflict_loads doc ∷ overwrites ∷ fails 500 ∷ arrives doc ∷ []

run-Holds_example :
    (DocumentEditor.is_saved (DocumentEditor.run trim "d" refused edited).state ≡ false)
    × ((DocumentEditor.run trim "d" refused edited).content ≡ "two")
    × ((DocumentEditor.run trim "d" refused edited).title ≡ "T")
run-Holds_example = run-Holds trim "d" refused edited (tt, (tt, (tt, (tt, (tt, (refl, tt)))))) refl

-- A newer version of the server arrives during the edit: the next save carries the older one.
abbrev newer : Document
newer = record doc { summary = record doc_summary { version = 2 } }

abbrev overtaken : List (Event trim "d")
overtaken = arrives doc ∷ edits_content "two" ∷ arrives newer ∷ []

based_on-overtaken : based_on trim "d" overtaken DocumentEditor.start 0 ≡ 1
unfolding DocumentEditor.step DocumentEditor.arrive
based_on-overtaken = refl

unversioned-run_example :
    Sends trim "d"
      (based_on trim "d" overtaken DocumentEditor.start 0)
      (DocumentEditor.run trim "d" overtaken DocumentEditor.start)
      (DocumentEditor.step trim "d" saves
        (DocumentEditor.run trim "d" overtaken DocumentEditor.start))
    × (unversioned (DocumentEditor.run trim "d" overtaken DocumentEditor.start).sent ≤ 0)
unversioned-run_example = unversioned-run trim "d" overtaken

abbrev bold : ToolbarAction
bold = record {
  label = codes "Negrita";
  prefix = codes "**";
  suffix = codes "**";
  default_text = codes "negrita";
  block = false;
}

apply_action-bold : (apply_action (codes "a word") 2 6 bold).value ≡ codes "a **word**"
unfolding apply_action
apply_action-bold = refl

apply_action-parts_example :
    (take 2 (apply_action (codes "a word") 2 6 bold).value ≡ codes "a ")
    × (slice
          (apply_action (codes "a word") 2 6 bold).value
          2
          (apply_action (codes "a word") 2 6 bold).sel_start
        ≡ prefix_of (codes "a word") 2 bold)
    × (slice
          (apply_action (codes "a word") 2 6 bold).value
          (apply_action (codes "a word") 2 6 bold).sel_start
          (apply_action (codes "a word") 2 6 bold).sel_end
        ≡ selection_of (codes "a word") 2 6 bold)
    × (drop
          (apply_action (codes "a word") 2 6 bold).sel_end
          (apply_action (codes "a word") 2 6 bold).value
        ≡ codes "**")
apply_action-parts_example =
    apply_action-parts (codes "a word") 2 6 bold (omega arith) (omega arith)
