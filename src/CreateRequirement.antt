-- ===== src/CreateRequirement.antt =====
-- web/src/components/requirement/CreateRequirementModal.tsx, with what
-- web/src/components/members/MemberPicker.tsx allows: the form of a
-- new requirement and the request that it sends. `trim` is the browser's `String.trim`, and `without_links`
-- the regular expression that takes the links to a file out of a text. The number of hours is sent as the text
-- that `Number` is given.
pub mod Laws
use quagenticus.Base.{
  String, Bool, true, false, Option, none, some, List, [], ◌∷◌, ◌++◌, ◌==◌, ◌&&◌, ◌||◌, not,
  string_eq, if◌then◌else◌, or_else, is_some, keep, map, elem, find,
}
use Prim.Native.String.{compare}
use Prim.Native.Nat.{Ordering}
use quagenticus.BoardPage.{truthy}
use quagenticus.Api.Types.{LabelRef}
use quagenticus.Api.Activity.{UploadedFile}
use quagenticus.Api.Catalogs.{Tracker, Priority}
use quagenticus.Api.Session.{or_text}

-- `form`, which starts as `empty`
pub record Form : Type 0 where
  pub tracker_id : String
  pub title : String
  pub body_md : String
  pub priority_id : String
  pub status_id : String
  pub category_id : String
  pub milestone_id : String
  pub start_date : String
  pub due_date : String
  pub estimated_hours : String
  pub parent_id : String

abbrev pub empty : Form
empty = record {
  tracker_id = "";
  title = "";
  body_md = "";
  priority_id = "";
  status_id = "";
  category_id = "";
  milestone_id = "";
  start_date = "";
  due_date = "";
  estimated_hours = "";
  parent_id = "";
}

-- `keyof typeof empty`
pub data Field : Type 0 where
  tracker title body priority status category milestone start_date due_date hours parent : Field

-- `set`
abbrev pub set : Field → String → Form → Form
set tracker v f = record f { tracker_id = v }
set title v f = record f { title = v }
set body v f = record f { body_md = v }
set priority v f = record f { priority_id = v }
set status v f = record f { status_id = v }
set category v f = record f { category_id = v }
set milestone v f = record f { milestone_id = v }
set start_date v f = record f { start_date = v }
set due_date v f = record f { due_date = v }
set hours v f = record f { estimated_hours = v }
set parent v f = record f { parent_id = v }

pub record Modal : Type 0 where
  pub form : Form
  pub members : List String
  pub lead : Option String
  pub labels : List LabelRef
  pub files : List UploadedFile

abbrev pub start : Modal
start = record { form = empty; members = []; lead = none; labels = []; files = [] }

-- `trackers[0]?.id`
abbrev first_tracker : List Tracker → String
first_tracker [] = ""
first_tracker (t ∷ _) = t.id

abbrev default_priority : List Priority → String
default_priority priorities = elim (find (λ (p : Priority). p.is_default) priorities) [
  | none ↦ ""
  | some p ↦ p.id
]

-- the defaults when the modal opens, or when what they are taken from arrives
unfoldable pub with_defaults :
    List Tracker → List Priority → Option String → Option String → Form → Form
with_defaults trackers priorities default_status parent_id f = record f {
  tracker_id = or_text f.tracker_id (first_tracker trackers);
  priority_id = or_text f.priority_id (default_priority priorities);
  status_id = or_else default_status f.status_id;
  parent_id = or_else parent_id f.parent_id;
}

abbrev some_of {ℓ} : {A : Type ℓ} → List A → Bool
some_of [] = false
some_of (_ ∷ _) = true

-- `dirty`
abbrev is_dirty : Modal → Bool
is_dirty m =
    not (m.form.title == "")
    || not (m.form.body_md == "")
    || some_of m.members
    || some_of m.labels
    || some_of m.files

-- `reset`
unfoldable pub reset : Bool → Option String → Option String → Modal → Modal
reset keep_type default_status parent_id m = record {
  form = record empty {
    tracker_id = if keep_type then m.form.tracker_id else "";
    priority_id = if keep_type then m.form.priority_id else "";
    status_id = or_else default_status "";
    parent_id = or_else parent_id "";
  };
  members = [];
  lead = none;
  labels = [];
  files = [];
}

-- a member is put in or taken out, in the picker or by the cross
abbrev pub is_lead : Option String → String → Bool
is_lead none id = false
is_lead (some lead) id = lead == id

unfoldable pub toggle_member : String → Bool → Modal → Modal
toggle_member id on m = record m {
  members = if on then m.members ++ id ∷ [] else keep (λ x. not (x == id)) m.members;
  lead = if not on && is_lead m.lead id then none else m.lead;
}

-- the crown of a member; only members have one
unfoldable pub toggle_lead : String → Modal → Modal
toggle_lead id m =
    if elem id m.members then record m { lead = if is_lead m.lead id then none else some id } else m

abbrev toggle_label : LabelRef → Bool → List LabelRef → List LabelRef
toggle_label l on labels = if on then keep (λ x. not (x.id == l.id)) labels else labels ++ l ∷ []

-- a file is taken out, with the links to it
abbrev drop_file : (String → String → String) → String → Modal → Modal
drop_file without_links id m = record m {
  files = keep (λ f. not (f.id == id)) m.files;
  form = set body (without_links id m.form.body_md) m.form;
}

-- The body of the request; a priority that is `undefined` in the source is `none` too.
pub record NewRequirement : Type 0 where
  pub tracker_id : String
  pub title : String
  pub body_md : String
  pub priority_id : Option String
  pub status_id : Option String
  pub category_id : Option String
  pub milestone_id : Option String
  pub parent_id : Option String
  pub start_date : Option String
  pub due_date : Option String
  pub estimated_hours : Option String
  pub member_ids : List String
  pub lead_user_id : Option String
  pub label_ids : List String
  pub attachment_ids : List String

-- `a < b`
abbrev pub before : String → String → Bool
before a b = elim (compare a b) [ Ordering.lt ↦ true | _ ↦ false ]

-- `form.start_date && form.due_date && form.due_date < form.start_date`
abbrev pub out_of_order : Form → Bool
out_of_order f =
    not (f.start_date == "") && not (f.due_date == "") && before f.due_date f.start_date

-- `x || null`
abbrev or_null : String → Option String
or_null x = truthy (some x)

abbrev pub request_of : (String → String) → Modal → NewRequirement
request_of trim m = record {
  tracker_id = m.form.tracker_id;
  title = trim m.form.title;
  body_md = m.form.body_md;
  priority_id = or_null m.form.priority_id;
  status_id = or_null m.form.status_id;
  category_id = or_null m.form.category_id;
  milestone_id = or_null m.form.milestone_id;
  parent_id = or_null m.form.parent_id;
  start_date = or_null m.form.start_date;
  due_date = or_null m.form.due_date;
  estimated_hours = or_null m.form.estimated_hours;
  member_ids = m.members;
  lead_user_id = m.lead;
  label_ids = map (λ l. l.id) m.labels;
  attachment_ids = map (λ f. f.id) m.files;
}

-- `submit`: nothing is sent without a tracker and a title, nor if the dates are out of order
unfoldable pub submit : (String → String) → Modal → Option NewRequirement
submit trim m =
    if m.form.tracker_id == "" || trim m.form.title == ""
    then none
    else if out_of_order m.form
    then none
    else some (request_of trim m)

-- What the user does, and what arrives. A member is toggled by the picker, which knows who is a member.
pub data Event : Type 0 where
  defaults : List Tracker → List Priority → Option String → Option String → Event
  changed : Field → String → Event
  member_toggled : String → Event
  lead_toggled : String → Event
  label_toggled : LabelRef → Bool → Event
  uploaded : List UploadedFile → Event
  file_dropped : String → Event
  emptied : Bool → Option String → Option String → Event

unfoldable pub step : (String → String → String) → Event → Modal → Modal
step without_links (defaults trackers priorities default_status parent_id) m = record m {
  form = with_defaults trackers priorities default_status parent_id m.form;
}
step without_links (changed field v) m = record m { form = set field v m.form }
step without_links (member_toggled id) m = toggle_member id (not (elem id m.members)) m
step without_links (lead_toggled id) m = toggle_lead id m
step without_links (label_toggled l on) m = record m { labels = toggle_label l on m.labels }
step without_links (uploaded files) m = record m { files = m.files ++ files }
step without_links (file_dropped id) m = drop_file without_links id m
step without_links (emptied keep_type default_status parent_id) m =
    reset keep_type default_status parent_id m

unfoldable pub run : (String → String → String) → List Event → Modal → Modal
run without_links [] m = m
run without_links (e ∷ es) m = run without_links es (step without_links e m)
