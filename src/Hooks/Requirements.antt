-- ===== src/Hooks/Requirements.antt =====
-- web/src/hooks/useRequirements.ts, but for the members of a requirement (`Hooks.Members`).
use quagenticus.Base.{
  String, Bool, Option, none, some, List, [], ◌∷◌, ◌++◌, or_else, if◌then◌else◌, Dict, keep,
}
use quagenticus.Api.Documents.{Requirement}
use quagenticus.Cache.{
  str, Op, invalidate, invalidate_all, set_data, requirement_value, Method, Query, Mutation,
  nonempty, template,
}
use quagenticus.Cache.Keys.{space, requirement, document, SpaceKey, RequirementKey, DocumentKey}
use quagenticus.Hooks.{below_space, send, call, Change, refresh}

-- The entries of the filters that are not empty.
pub given_filters : Dict String → Dict String
given_filters = keep (λ e. nonempty e.1)

-- `URLSearchParams` is the browser's: `encode` is its `toString`.
abbrev pub use_requirement_page : (Dict String → String) → String → Dict String → Query
unfolding given_filters
use_requirement_page encode space_id filters =
    let qs = encode (given_filters filters) in
    record {
      key = space space_id (SpaceKey.requirements (some filters));
      path = template (
          "/spaces/"
          ∷ space_id
          ∷ "/requirements"
          ∷ (if nonempty qs then template ("?" ∷ qs ∷ []) else "")
          ∷ []);
      enabled = nonempty space_id;
    }

abbrev use_requirement : Option String → Query
use_requirement id = record {
  key = requirement (or_else id "") RequirementKey.detail;
  path = template ("/requirements/" ∷ or_else id "null" ∷ []);
  enabled = nonempty (or_else id "");
}

-- `if (req.parent_id)`
abbrev children_of : Option String → List Op
children_of none = []
children_of (some parent_id) =
    if nonempty parent_id
    then invalidate (requirement parent_id RequirementKey.children) ∷ []
    else []

module _ {B : Type 0} where
  abbrev use_create_requirement : String → Mutation B B Requirement
  use_create_requirement space_id = record {
    request = send Method.post (template ("/spaces/" ∷ space_id ∷ "/requirements" ∷ []));
    on_success = λ _ req.
        (set_data (requirement req.id RequirementKey.detail) (requirement_value req)
          ∷ invalidate (below_space space_id "requirements")
          ∷ invalidate (below_space space_id "board")
          ∷ [])
        ++ children_of req.parent_id;
  }

  unfoldable pub use_update_requirement : Mutation (Change B) B Requirement
  use_update_requirement = record {
    request = λ v. send Method.patch (template ("/requirements/" ∷ v.id ∷ [])) v.rest;
    on_success = λ _ req.
        set_data (requirement req.id RequirementKey.detail) (requirement_value req)
        ∷ refresh req.id req.space_id;
  }

  unfoldable pub use_transition_requirement : Mutation (Change B) B Requirement
  use_transition_requirement = record {
    request =
        λ v. send Method.post (template ("/requirements/" ∷ v.id ∷ "/transition" ∷ [])) v.rest;
    on_success = λ _ req.
        set_data (requirement req.id RequirementKey.detail) (requirement_value req)
        ∷ invalidate (requirement req.id RequirementKey.transitions)
        ∷ refresh req.id req.space_id;
  }

  -- The board page, its only caller, sees to the cache.
  abbrev use_move_card : {R : Type 0} → Mutation (Change B) B R
  use_move_card = record {
    request = λ v. send Method.patch (template ("/requirements/" ∷ v.id ∷ "/move" ∷ [])) v.rest;
    on_success = λ _ _. [];
  }

  abbrev use_clone_requirement : Mutation (Change B) B Requirement
  use_clone_requirement = record {
    request = λ v. send Method.post (template ("/requirements/" ∷ v.id ∷ "/clone" ∷ [])) v.rest;
    on_success = λ _ req. invalidate (space req.space_id SpaceKey.all) ∷ [];
  }

  abbrev use_move_requirement_to_space : {R : Type 0} → Mutation (Change B) B R
  use_move_requirement_to_space = record {
    request =
        λ v. send Method.post (template ("/requirements/" ∷ v.id ∷ "/move-space" ∷ [])) v.rest;
    on_success = λ _ _. invalidate_all ∷ [];
  }

  unfoldable pub use_bulk_update : {R : Type 0} → String → Mutation B B R
  use_bulk_update space_id = record {
    request = send Method.post (template ("/spaces/" ∷ space_id ∷ "/requirements/bulk" ∷ []));
    on_success =
        λ _ _. invalidate (space space_id SpaceKey.all) ∷ invalidate (str "requirement" ∷ []) ∷ [];
  }

abbrev use_allowed_transitions : Option String → Query
use_allowed_transitions id = record {
  key = requirement (or_else id "") RequirementKey.transitions;
  path = template ("/requirements/" ∷ or_else id "null" ∷ "/transitions" ∷ []);
  enabled = nonempty (or_else id "");
}

abbrev use_requirement_children : String → Query
use_requirement_children id = record {
  key = requirement id RequirementKey.children;
  path = template ("/requirements/" ∷ id ∷ "/children" ∷ []);
  enabled = nonempty id;
}

-- `{ id, archived, spaceId }`
pub record Archive : Type 0 where
  pub id : String
  pub archived : Bool
  pub space_id : String

abbrev use_archive_document : {B R : Type 0} → Mutation Archive B R
use_archive_document = record {
  request = λ v.
      call Method.post (
        template ("/documents/" ∷ v.id ∷ "/" ∷ (if v.archived then "archive" else "restore") ∷ []));
  on_success = λ v _.
      invalidate (space v.space_id SpaceKey.all)
      ∷ invalidate (requirement v.id RequirementKey.all)
      ∷ invalidate (document v.id DocumentKey.all)
      ∷ [];
}

abbrev use_time_entries : String → Query
use_time_entries id = record {
  key = requirement id RequirementKey.time_entries;
  path = template ("/requirements/" ∷ id ∷ "/time-entries" ∷ []);
  enabled = nonempty id;
}

-- The `done` of `useTimeEntryMutations`, and its `add` and `remove`.
abbrev time_entries_done : String → String → List Op
time_entries_done id space_id =
    invalidate (requirement id RequirementKey.time_entries)
    ∷ invalidate (requirement id RequirementKey.detail)
    ∷ refresh id space_id

abbrev add_time_entry : {B R : Type 0} → String → String → Mutation B B R
add_time_entry id space_id = record {
  request = send Method.post (template ("/requirements/" ∷ id ∷ "/time-entries" ∷ []));
  on_success = λ _ _. time_entries_done id space_id;
}

abbrev remove_time_entry : {B R : Type 0} → String → String → Mutation String B R
remove_time_entry id space_id = record {
  request = λ entry_id. call Method.delete (template ("/time-entries/" ∷ entry_id ∷ []));
  on_success = λ _ _. time_entries_done id space_id;
}

abbrev use_watch : {B R : Type 0} → String → Mutation Bool B R
use_watch doc_id = record {
  request = λ watch.
      call (if watch then Method.put else Method.delete)
        (template ("/documents/" ∷ doc_id ∷ "/watch" ∷ []));
  on_success = λ _ _.
      invalidate (requirement doc_id RequirementKey.detail)
      ∷ invalidate (document doc_id DocumentKey.detail)
      ∷ [];
}
