-- ===== src/Tests/Create.antt =====
-- A requirement that is written in the form and sent.
use quagenticus.Base.{String, true, false, none, some, List, [], ◌∷◌, ◌≡◌, refl}
use quagenticus.Api.Catalogs.{Tracker, Priority}
use quagenticus.CreateRequirement.{
  Modal, Event, defaults, changed, member_toggled, lead_toggled, emptied, title, start_date,
  due_date, start, submit, request_of, step, run, with_defaults, toggle_member, toggle_lead, reset,
}
use quagenticus.CreateRequirement.Laws.{IsSendable, sent-IsSendable}

abbrev bug : Tracker
bug = record {
  id = "bug";
  key = "bug";
  name = "";
  description = none;
  icon = none;
  color = none;
  default_status_id = none;
  ord = 0;
  is_active = true;
  is_agent_enabled = false;
  template_id = none;
  template_body_md = none;
}

abbrev normal : Priority
normal = record { id = "normal"; key = ""; name = ""; weight = 1; color = none; is_default = true }

abbrev as_typed : String → String
as_typed text = text

abbrev emptied_text : String → String → String
emptied_text id text = ""

-- one member leads, then leaves; another leads
abbrev events : List Event
events =
    defaults (bug ∷ []) (normal ∷ []) none (some "parent")
    ∷ changed title "A title"
    ∷ changed start_date "2024-05-01"
    ∷ changed due_date "2024-05-02"
    ∷ member_toggled "ana"
    ∷ lead_toggled "ana"
    ∷ member_toggled "ben"
    ∷ member_toggled "ana"
    ∷ lead_toggled "ben"
    ∷ []

abbrev filled : Modal
filled = run emptied_text events start

lead_of_filled : filled.lead ≡ some "ben"
unfolding run step with_defaults toggle_member toggle_lead
lead_of_filled = refl

submit-filled : submit as_typed (run emptied_text events start) ≡ some (request_of as_typed filled)
unfolding submit run step with_defaults toggle_member toggle_lead
submit-filled = refl

-- dates out of order are not sent
not_sent : submit as_typed (run emptied_text (changed due_date "2024-04-02" ∷ []) filled) ≡ none
unfolding submit run step with_defaults toggle_member toggle_lead
not_sent = refl

-- nor is a form without a title
not_titled : submit as_typed (run emptied_text (emptied true none none ∷ []) filled) ≡ none
unfolding submit run step with_defaults toggle_member toggle_lead reset
not_titled = refl

sent-IsSendable_example : IsSendable (request_of as_typed filled)
sent-IsSendable_example =
    sent-IsSendable as_typed emptied_text events (request_of as_typed filled) submit-filled
