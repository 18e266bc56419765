-- ===== src/Tests/Detail.antt =====
-- The description of a requirement, edited while others edit it.
use quagenticus.Base.{ℕ, String, false, none, some, List, [], ◌∷◌, ◌≡◌, refl}
use quagenticus.Api.Types.{contributor}
use quagenticus.Api.Documents.{Requirement, RequirementSummary}
use quagenticus.RequirementDetail.{
  update_body, Event, edited, typed, saved, renewed, succeeded, refused, mine_kept, step, run,
  start, save_body,
}
use quagenticus.RequirementDetail.Saves.{AreQuiet, base_of, sent-saved}

abbrev summary : ℕ → RequirementSummary
summary version = record {
  id = "r";
  space_id = "";
  ref_key = "";
  title = "";
  version = version;
  tracker_id = "";
  tracker_key = "";
  tracker_name = "";
  tracker_icon = none;
  status_id = "";
  status_key = "";
  status_name = "";
  status_color = none;
  status_is_closed = false;
  priority_id = "";
  priority_key = "";
  priority_name = "";
  priority_color = none;
  priority_weight = 0;
  category_id = none;
  milestone_id = none;
  parent_id = none;
  reporter_id = "";
  reporter_name = none;
  lead_user_id = none;
  board_position = 0;
  readiness_score = none;
  done_ratio = 0;
  estimated_hours = none;
  spent_hours = 0;
  start_date = none;
  due_date = none;
  resolution = none;
  closed_at = none;
  claimed_by_agent_id = none;
  claimed_by_agent_name = none;
  member_count = 0;
  created_at = "";
  updated_at = "";
  labels = [];
  members = [];
}

abbrev requirement : ℕ → String → Requirement
requirement version body_md = record {
  summary = summary version;
  body_md = body_md;
  readiness_report = none;
  creator_agent_id = none;
  is_watching = false;
  my_role = contributor;
  parent = none;
}

abbrev trim : String → String
trim text = text

-- A conflict is decided, and the text is edited and saved again.
abbrev events : List Event
events = edited ∷ typed "b" ∷ saved ∷ refused (requirement 4 "c") ∷ mine_kept ∷ typed "d" ∷ []

sent_requests :
    (run trim events (start (requirement 3 "a"))).sent
    ≡ update_body "r" "b" none ∷ update_body "r" "b" (some 3) ∷ []
unfolding run step save_body
sent_requests = refl

-- A text typed while a save is under way is gone when that succeeds.
lost :
    (run trim
      (edited ∷ typed "b" ∷ saved ∷ typed "bc" ∷ succeeded (requirement 4 "b") ∷ [])
      (start (requirement 3 "a"))).body
    ≡ none
unfolding run step save_body
lost = refl

-- A requirement that is renewed under the edit gives its new version to the old text.
overwrites :
    (run trim
      (edited ∷ typed "b" ∷ renewed (requirement 4 "c") ∷ saved ∷ [])
      (start (requirement 3 "a"))).sent
    ≡ update_body "r" "b" (some 4) ∷ []
unfolding run step save_body
overwrites = refl

events-AreQuiet : AreQuiet trim events (start (requirement 3 "a"))
events-AreQuiet = (tt, (tt, (tt, (tt, (tt, (tt, tt))))))

under_edit : (run trim events (start (requirement 3 "a"))).body ≡ some "d"
unfolding run step save_body
under_edit = refl

sent-saved_example :
    (step trim saved (run trim events (start (requirement 3 "a")))).sent
    ≡ update_body
        (run trim events (start (requirement 3 "a"))).req.id
        "d"
        (some (base_of trim events (start (requirement 3 "a")) 3))
      ∷ (run trim events (start (requirement 3 "a"))).sent
sent-saved_example = sent-saved trim events (requirement 3 "a") "d" events-AreQuiet under_edit
