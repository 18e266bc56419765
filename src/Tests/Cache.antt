-- ===== src/Tests/Cache.antt =====
-- The cache of server data of web/src/lib/queryKeys.ts and web/src/hooks on a small space.
use quagenticus.Base.{String, true, false, none, [], ◌≡◌}
use quagenticus.Api.Types.{maintainer}
use quagenticus.Api.Documents.{Requirement, RequirementSummary}
use quagenticus.Cache.{renewed_by}
use quagenticus.Cache.Keys.{
  Resource, key, space_resource, requirement_resource, SpaceKey, RequirementKey,
}
use quagenticus.Hooks.{Change}
use quagenticus.Hooks.Fresh.{renewed_by-change}
use quagenticus.Hooks.Requirements.{use_update_requirement}

abbrev summary : RequirementSummary
summary = record {
  id = "r";
  space_id = "s";
  ref_key = "";
  title = "";
  version = 0;
  tracker_id = "";
  tracker_key = "";
  tracker_name = "";
  tracker_icon = none;
  status_id = "";
  status_key = "";
  status_name = "";
  status_color = none;
  status_is_closed = false;
  priority_id = "";
  priority_key = "";
  priority_name = "";
  priority_color = none;
  priority_weight = 0;
  category_id = none;
  milestone_id = none;
  parent_id = none;
  reporter_id = "";
  reporter_name = none;
  lead_user_id = none;
  board_position = 0;
  readiness_score = none;
  done_ratio = 0;
  estimated_hours = none;
  spent_hours = 0;
  start_date = none;
  due_date = none;
  resolution = none;
  closed_at = none;
  claimed_by_agent_id = none;
  claimed_by_agent_name = none;
  member_count = 0;
  created_at = "";
  updated_at = "";
  labels = [];
  members = [];
}

abbrev req : Requirement
req = record {
  summary = summary;
  body_md = "";
  readiness_report = none;
  creator_agent_id = none;
  is_watching = false;
  my_role = maintainer;
  parent = none;
}

abbrev change : Change String
change = record { id = "r"; rest = "" }

abbrev list : Resource
list = space_resource "s" (SpaceKey.requirements none)

abbrev journal : Resource
journal = requirement_resource "r" (RequirementKey.journals "comment")

-- An update of a requirement renews the lists of its space, and not the comments.
list_renewed : renewed_by (use_update_requirement.on_success change req) (key list) ≡ true
list_renewed = (renewed_by-change change req list).0

journal_kept : renewed_by (use_update_requirement.on_success change req) (key journal) ≡ false
journal_kept = (renewed_by-change change req journal).0
