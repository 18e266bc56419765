-- ===== src/Hooks/Catalogs.antt =====
-- web/src/hooks/useCatalogs.ts and web/src/hooks/useAdmin.ts: catalogs, labels, milestones, categories
-- and agents.
use quagenticus.Base.{String, Bool, true, List, [], ◌∷◌, ◌++◌, if◌then◌else◌}
use quagenticus.Api.Catalogs.{Agent, Category, Label, Milestone, Priority, Tracker}
use quagenticus.Api.Types.{WorkflowStatus}
use quagenticus.Cache.{str, flag, Op, invalidate, Method, Query, Mutation, nonempty, template}
use quagenticus.Cache.Keys.{space, global, SpaceKey, GlobalKey}
use quagenticus.Hooks.{send, call, Change, Save, save_request}

abbrev use_trackers : Bool → Query
use_trackers all = record {
  key = global GlobalKey.trackers ++ flag all ∷ [];
  path = template ("/catalogs/trackers" ∷ (if all then "?all=true" else "") ∷ []);
  enabled = true;
}

abbrev use_priorities : Query
use_priorities = record {
  key = global GlobalKey.priorities;
  path = "/catalogs/priorities";
  enabled = true;
}

abbrev use_statuses : Query
use_statuses = record {
  key = global GlobalKey.statuses;
  path = "/catalogs/statuses";
  enabled = true;
}

-- A resource of a space: its key, and its name in the path.
abbrev pub of_space : String → SpaceKey → String → Query
of_space space_id k name = record {
  key = space space_id k;
  path = template ("/spaces/" ∷ space_id ∷ "/" ∷ name ∷ []);
  enabled = nonempty space_id;
}

abbrev use_space_labels : String → Query
use_space_labels space_id = of_space space_id SpaceKey.labels "labels"

abbrev use_milestones : String → Query
use_milestones space_id = of_space space_id SpaceKey.milestones "milestones"

abbrev use_categories : String → Query
use_categories space_id = of_space space_id SpaceKey.categories "categories"

abbrev use_agent_queue : String → Query
use_agent_queue space_id = of_space space_id SpaceKey.agent_queue "agent-queue"

module _ {B : Type 0} (space_id : String) where
  abbrev use_create_space_label : Mutation B B Label
  use_create_space_label = record {
    request = send Method.post (template ("/spaces/" ∷ space_id ∷ "/labels" ∷ []));
    on_success = λ _ _. invalidate (space space_id SpaceKey.labels) ∷ [];
  }

  abbrev use_update_label : Mutation (Change B) B Label
  use_update_label = record {
    request = λ v. send Method.patch (template ("/labels/" ∷ v.id ∷ [])) v.rest;
    on_success = λ _ _. invalidate (space space_id SpaceKey.labels) ∷ [];
  }

  abbrev use_delete_label : {R : Type 0} → Mutation String B R
  use_delete_label = record {
    request = λ id. call Method.delete (template ("/labels/" ∷ id ∷ []));
    on_success = λ _ _. invalidate (space space_id SpaceKey.labels) ∷ [];
  }

  abbrev use_save_milestone : Mutation (Save B) B Milestone
  use_save_milestone = record {
    request = λ v.
        save_request v (λ id. template ("/milestones/" ∷ id ∷ []))
          (template ("/spaces/" ∷ space_id ∷ "/milestones" ∷ []));
    on_success = λ _ _. invalidate (space space_id SpaceKey.milestones) ∷ [];
  }

  abbrev use_delete_milestone : {R : Type 0} → Mutation String B R
  use_delete_milestone = record {
    request = λ id. call Method.delete (template ("/milestones/" ∷ id ∷ []));
    on_success = λ _ _. invalidate (space space_id SpaceKey.milestones) ∷ [];
  }

  abbrev use_save_category : Mutation (Save B) B Category
  use_save_category = record {
    request = λ v.
        save_request v (λ id. template ("/categories/" ∷ id ∷ []))
          (template ("/spaces/" ∷ space_id ∷ "/categories" ∷ []));
    on_success = λ _ _. invalidate (space space_id SpaceKey.categories) ∷ [];
  }

  abbrev use_delete_category : {R : Type 0} → Mutation String B R
  use_delete_category = record {
    request = λ id. call Method.delete (template ("/categories/" ∷ id ∷ []));
    on_success = λ _ _. invalidate (space space_id SpaceKey.categories) ∷ [];
  }

-- The refreshes of `useAdminCatalogMutations`; a status shows in every entry of every space.
abbrev refresh_statuses : List Op
refresh_statuses = invalidate (global GlobalKey.statuses) ∷ invalidate (str "space" ∷ []) ∷ []

module _ {B : Type 0} where
  abbrev save_status : Mutation (Save B) B WorkflowStatus
  save_status = record {
    request = λ v. save_request v (λ id. template ("/admin/statuses/" ∷ id ∷ [])) "/admin/statuses";
    on_success = λ _ _. refresh_statuses;
  }

  abbrev delete_status : {R : Type 0} → Mutation String B R
  delete_status = record {
    request = λ id. call Method.delete (template ("/admin/statuses/" ∷ id ∷ []));
    on_success = λ _ _. refresh_statuses;
  }

  abbrev reorder_statuses : {R : Type 0} → Mutation B B R
  reorder_statuses = record {
    request = send Method.put "/admin/statuses/order";
    on_success = λ _ _. refresh_statuses;
  }

  abbrev save_tracker : Mutation (Save B) B Tracker
  save_tracker = record {
    request = λ v. save_request v (λ id. template ("/admin/trackers/" ∷ id ∷ [])) "/admin/trackers";
    on_success = λ _ _. invalidate (global GlobalKey.trackers) ∷ [];
  }

  abbrev save_priority : Mutation (Save B) B Priority
  save_priority = record {
    request =
        λ v. save_request v (λ id. template ("/admin/priorities/" ∷ id ∷ [])) "/admin/priorities";
    on_success = λ _ _. invalidate (global GlobalKey.priorities) ∷ [];
  }

  abbrev use_replace_transitions : {R : Type 0} → String → Mutation B B R
  use_replace_transitions tracker_id = record {
    request = send Method.put (template ("/admin/trackers/" ∷ tracker_id ∷ "/transitions" ∷ []));
    on_success = λ _ _. invalidate (global (GlobalKey.admin_transitions tracker_id)) ∷ [];
  }

  abbrev create_agent : Mutation B B Agent
  create_agent = record {
    request = send Method.post "/admin/agents";
    on_success = λ _ _. invalidate (global GlobalKey.agents) ∷ [];
  }

  abbrev update_agent : Mutation (Change B) B Agent
  update_agent = record {
    request = λ v. send Method.patch (template ("/admin/agents/" ∷ v.id ∷ [])) v.rest;
    on_success = λ _ _. invalidate (global GlobalKey.agents) ∷ [];
  }

  abbrev rotate_agent : Mutation String B Agent
  rotate_agent = record {
    request = λ id. call Method.post (template ("/admin/agents/" ∷ id ∷ "/rotate-key" ∷ []));
    on_success = λ _ _. invalidate (global GlobalKey.agents) ∷ [];
  }

abbrev use_transitions : String → Query
use_transitions tracker_id = record {
  key = global (GlobalKey.admin_transitions tracker_id);
  path = template ("/admin/trackers/" ∷ tracker_id ∷ "/transitions" ∷ []);
  enabled = nonempty tracker_id;
}

abbrev use_agents : Query
use_agents = record { key = global GlobalKey.agents; path = "/admin/agents"; enabled = true }
