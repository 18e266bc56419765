-- ===== src/Hooks/Members.antt =====
-- web/src/hooks/useRequirements.ts: the members, the lead and the labels of a requirement.
use quagenticus.Base.{String, Option, none, some, List, [], ◌∷◌}
use quagenticus.Api.Documents.{Requirement, RequirementMember}
use quagenticus.Cache.{
  Op, invalidate, set_data, members_value, Method, Query, Mutation, nonempty, template,
}
use quagenticus.Cache.Keys.{requirement, document, RequirementKey, DocumentKey}
use quagenticus.Hooks.{below_space, send, call, refresh}

abbrev use_requirement_members : String → Query
use_requirement_members id = record {
  key = requirement id RequirementKey.members;
  path = template ("/requirements/" ∷ id ∷ "/members" ∷ []);
  enabled = nonempty id;
}

-- The `onSuccess` of `useMembersMutationOptions`; a response with no body is `none`.
unfoldable pub members_done : String → String → Option (List RequirementMember) → List Op
members_done id space_id none =
    invalidate (requirement id RequirementKey.members)
    ∷ invalidate (requirement id RequirementKey.detail)
    ∷ refresh id space_id
members_done id space_id (some members) =
    set_data (requirement id RequirementKey.members) (members_value members)
    ∷ invalidate (requirement id RequirementKey.detail)
    ∷ refresh id space_id

module _ {B : Type 0} (id space_id : String) where
  abbrev use_set_requirement_members : Mutation B B (Option (List RequirementMember))
  use_set_requirement_members = record {
    request = send Method.put (template ("/requirements/" ∷ id ∷ "/members" ∷ []));
    on_success = λ _ members. members_done id space_id members;
  }

  abbrev use_add_requirement_member : Mutation B B (Option (List RequirementMember))
  use_add_requirement_member = record {
    request = send Method.post (template ("/requirements/" ∷ id ∷ "/members" ∷ []));
    on_success = λ _ members. members_done id space_id members;
  }

  abbrev use_remove_requirement_member : Mutation String B (Option (List RequirementMember))
  use_remove_requirement_member = record {
    request = λ user_id.
        call Method.delete (template ("/requirements/" ∷ id ∷ "/members/" ∷ user_id ∷ []));
    on_success = λ _ members. members_done id space_id members;
  }

abbrev use_set_requirement_lead :
    String → String → Mutation (Option String) (Option String) Requirement
use_set_requirement_lead id space_id = record {
  request = send Method.patch (template ("/requirements/" ∷ id ∷ "/lead" ∷ []));
  on_success = λ _ _. members_done id space_id none;
}

-- The `done` of `useDocumentLabelsMutation`, and its `add` and `remove`.
abbrev labels_done : String → String → List Op
labels_done doc_id space_id =
    invalidate (requirement doc_id RequirementKey.detail)
    ∷ invalidate (document doc_id DocumentKey.detail)
    ∷ invalidate (below_space space_id "documents")
    ∷ refresh doc_id space_id

abbrev add_label : {R : Type 0} → String → String → Mutation String String R
add_label doc_id space_id = record {
  request = send Method.post (template ("/documents/" ∷ doc_id ∷ "/labels" ∷ []));
  on_success = λ _ _. labels_done doc_id space_id;
}

abbrev remove_label : {B R : Type 0} → String → String → Mutation String B R
remove_label doc_id space_id = record {
  request = λ label_id.
      call Method.delete (template ("/documents/" ∷ doc_id ∷ "/labels/" ∷ label_id ∷ []));
  on_success = λ _ _. labels_done doc_id space_id;
}
