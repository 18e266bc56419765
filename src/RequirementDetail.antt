-- ===== src/RequirementDetail.antt =====
-- web/src/pages/RequirementDetail.tsx: the editing of the description and of the title of a requirement, and
-- the conflict dialog. `req` is the requirement in the cache, which anything may renew at any time; what the
-- server and the user do comes as events. `trim` is the browser's `String.trim`.
pub mod Saves
use quagenticus.Base.{
  ℕ, String, Bool, true, false, Option, none, some, List, [], ◌∷◌, ◌==◌, ◌&&◌, ◌||◌, not, string_eq,
  if◌then◌else◌, is_some,
}
use quagenticus.Api.Types.{Role, viewer, contributor, maintainer, admin}
use quagenticus.Api.Documents.{Requirement}

abbrev is_viewer : Role → Bool
is_viewer viewer = true
is_viewer contributor = false
is_viewer maintainer = false
is_viewer admin = false

-- `readOnly` and `canModerate`
abbrev read_only : Requirement → Bool
read_only req = req.status_is_closed || is_viewer req.my_role

abbrev moderates : Role → Bool
moderates viewer = false
moderates contributor = false
moderates maintainer = true
moderates admin = true

abbrev can_moderate : Requirement → Bool
can_moderate req = moderates req.my_role

-- the argument of `update.mutate`
pub data Update : Type 0 where
  update_body : String → String → Option ℕ → Update
  update_title : String → String → Update

-- `req`, `body`, `conflict`, `editingTitle`, `title`, and the requests sent, the last first
pub record Page : Type 0 where
  pub req : Requirement
  pub body : Option String
  pub conflict : Option Requirement
  pub editing_title : Bool
  pub title : String
  pub sent : List Update

abbrev pub start : Requirement → Page
start req = record {
  req = req;
  body = none;
  conflict = none;
  editing_title = false;
  title = "";
  sent = [];
}

-- `dirty`
abbrev pub is_dirty : Page → Bool
is_dirty p = elim p.body [ none ↦ false | some text ↦ not (text == p.req.body_md) ]

-- `saveBody`
abbrev pub send_body : Bool → Option String → Page → Page
send_body force none p = p
send_body force (some text) p = record p {
  sent = update_body p.req.id text (if force then none else some p.req.version) ∷ p.sent;
}

unfoldable pub save_body : Bool → Page → Page
save_body force p = send_body force p.body p

-- `saveTitle`
unfoldable pub save_title : (String → String) → Page → Page
save_title trim p =
    let t = trim p.title in
    if t == "" || t == p.req.title
    then record p { editing_title = false }
    else record p { sent = update_title p.req.id t ∷ p.sent }

-- `onTakeTheirs` and `onKeepMine` of the conflict dialog, which stands while there are a conflict and a text
abbrev pub take_theirs : Option Requirement → Option String → Page → Page
take_theirs (some theirs) (some _) p = record p { req = theirs; body = none; conflict = none }
take_theirs (some _) none p = p
take_theirs none text p = p

abbrev pub keep_mine : Option Requirement → Option String → Page → Page
keep_mine (some theirs) (some _) p = record (save_body true p) { req = theirs; conflict = none }
keep_mine (some _) none p = p
keep_mine none text p = p

-- What happens: the description is opened for editing, or begun with the template; it is typed in; the edit
-- is cancelled, and what the dialog answers if there are changes; it is saved, by the button or the keys; the
-- requirement in the cache is renewed; a save succeeds, with the requirement, or is refused with a 409, with
-- the requirement that is read then; the conflict is decided; the title is opened, typed and saved.
pub data Event : Type 0 where
  edited : Event
  begun : String → Event
  typed : String → Event
  cancelled : Bool → Event
  saved : Event
  renewed : Requirement → Event
  succeeded : Requirement → Event
  refused : Requirement → Event
  theirs_taken : Event
  mine_kept : Event
  conflict_closed : Event
  title_opened : Event
  title_typed : String → Event
  title_saved : Event
  title_cancelled : Event
  title_succeeded : Requirement → Event

abbrev pub open_body : String → Option String → Page → Page
open_body text none p = record p { body = some text }
open_body text (some _) p = p

abbrev pub type_body : String → Option String → Page → Page
type_body text none p = p
type_body text (some _) p = record p { body = some text }

unfoldable pub step : (String → String) → Event → Page → Page
step trim edited p =
    let opened = open_body p.req.body_md p.body p in if read_only p.req then p else opened
step trim (begun template) p = record p { body = some template }
step trim (typed text) p = type_body text p.body p
step trim (cancelled confirmed) p =
    if is_dirty p && not confirmed then p else record p { body = none }
step trim saved p = save_body false p
step trim (renewed req) p = record p { req = req }
step trim (succeeded req) p = record p { req = req; body = none }
step trim (refused fresh) p = record p { conflict = some fresh }
step trim theirs_taken p = take_theirs p.conflict p.body p
step trim mine_kept p = keep_mine p.conflict p.body p
step trim conflict_closed p = record p { conflict = none }
step trim title_opened p =
    if read_only p.req then p else record p { title = p.req.title; editing_title = true }
step trim (title_typed text) p = record p { title = text }
step trim title_saved p = save_title trim p
step trim title_cancelled p = record p { editing_title = false }
step trim (title_succeeded req) p = record p { req = req; editing_title = false }

unfoldable pub run : (String → String) → List Event → Page → Page
run trim [] p = p
run trim (e ∷ es) p = run trim es (step trim e p)
