-- ===== src/Hooks/Fresh.antt =====
-- Which entries of the cache a mutation renews, over all the keys of web/src/lib/queryKeys.ts.
use quagenticus.Base.{
  String, Bool, true, false, none, some, List, ◌==◌, ◌&&◌, ◌||◌, string_eq, ◌≡◌, arith, eq_iff,
}
use quagenticus.Api.Documents.{Requirement, RequirementMember}
use quagenticus.Cache.{
  Value, requirement_value, members_value, invalidate, set_data, renews, renewed_by,
}
use quagenticus.Cache.Keys.{
  SpaceKey, RequirementKey, DocumentKey, GlobalKey, Resource, key, space_resource,
  requirement_resource, document_resource, global_resource, requirement,
}
use quagenticus.Hooks.{refresh, Change}
use quagenticus.Hooks.Requirements.{
  use_update_requirement, use_transition_requirement, use_bulk_update,
}
use quagenticus.Hooks.Members.{members_done}

-- The lists and boards of a space.
abbrev pub is_overview : SpaceKey → Bool
is_overview (SpaceKey.requirements _) = true
is_overview (SpaceKey.board _) = true
is_overview _ = false

abbrev pub is_history : RequirementKey → Bool
is_history (RequirementKey.journals kind) = "history" == kind
is_history _ = false

abbrev pub is_my_work : GlobalKey → Bool
is_my_work GlobalKey.my_work = true
is_my_work _ = false

-- What shows a requirement besides its own page.
abbrev pub shows : String → String → Resource → Bool
shows id space_id (space_resource s k) = space_id == s && is_overview k
shows id space_id (requirement_resource r k) = id == r && is_history k
shows id space_id (document_resource d k) = false
shows id space_id (global_resource k) = is_my_work k

renewed_by-refresh_space :
    (id space_id s : String) (k : SpaceKey)
    → renewed_by (refresh id space_id) (key (space_resource s k)) ≡ space_id == s && is_overview k
unfolding refresh
renewed_by-refresh_space id space_id s (SpaceKey.requirements none) = ground arith
renewed_by-refresh_space id space_id s (SpaceKey.requirements (some f)) = ground arith
renewed_by-refresh_space id space_id s (SpaceKey.documents none) = ground arith
renewed_by-refresh_space id space_id s (SpaceKey.documents (some f)) = ground arith
renewed_by-refresh_space id space_id s _ = ground arith

renewed_by-refresh_requirement :
    (id space_id r : String) (k : RequirementKey)
    → renewed_by (refresh id space_id) (key (requirement_resource r k)) ≡ id == r && is_history k
unfolding refresh
renewed_by-refresh_requirement id space_id r (RequirementKey.journals kind) = ground arith
renewed_by-refresh_requirement id space_id r _ = ground arith

renewed_by-refresh_document :
    (id space_id d : String) (k : DocumentKey)
    → renewed_by (refresh id space_id) (key (document_resource d k)) ≡ false
unfolding refresh
renewed_by-refresh_document id space_id d (DocumentKey.version v) = ground arith
renewed_by-refresh_document id space_id d _ = ground arith

renewed_by-refresh_global :
    (id space_id : String) (k : GlobalKey)
    → renewed_by (refresh id space_id) (key (global_resource k)) ≡ is_my_work k
unfolding refresh
renewed_by-refresh_global id space_id (GlobalKey.search q none) = ground arith
renewed_by-refresh_global id space_id (GlobalKey.search q (some s)) = ground arith
renewed_by-refresh_global id space_id GlobalKey.my_work = ground arith
renewed_by-refresh_global id space_id _ = ground arith

-- The refresh after any change to a requirement renews, of all the keys: every list and every board
-- of its space, its own history, and the work of the user; and nothing else, of it or any other.
renewed_by-refresh :
    (id space_id : String) (r : Resource)
    → renewed_by (refresh id space_id) (key r) ≡ shows id space_id r
renewed_by-refresh id space_id (space_resource s k) = renewed_by-refresh_space id space_id s k
renewed_by-refresh id space_id (requirement_resource r k) =
    renewed_by-refresh_requirement id space_id r k
renewed_by-refresh id space_id (document_resource d k) = renewed_by-refresh_document id space_id d k
renewed_by-refresh id space_id (global_resource k) = renewed_by-refresh_global id space_id k

abbrev pub is_detail_of : String → Resource → Bool
is_detail_of id (requirement_resource r RequirementKey.detail) = id == r
is_detail_of id _ = false

abbrev pub is_transitions_of : String → Resource → Bool
is_transitions_of id (requirement_resource r RequirementKey.transitions) = id == r
is_transitions_of id _ = false

module _ (id : String) (v : Value) where
  renews-detail :
      (r : Resource)
      → renews (key r) (set_data (requirement id RequirementKey.detail) v) ≡ is_detail_of id r
  renews-detail (space_resource s k) = ground arith
  renews-detail (requirement_resource r RequirementKey.all) = ground arith
  renews-detail (requirement_resource r (RequirementKey.journals kind)) = ground arith
  renews-detail (requirement_resource r RequirementKey.detail) =
      ground (arith, eq_iff id r, eq_iff r id)
  renews-detail (requirement_resource r _) = ground arith
  renews-detail (document_resource d k) = ground arith
  renews-detail (global_resource (GlobalKey.search q none)) = ground arith
  renews-detail (global_resource (GlobalKey.search q (some s))) = ground arith
  renews-detail (global_resource GlobalKey.my_work) = ground arith
  renews-detail (global_resource _) = ground arith

renews-transitions :
    (id : String) (r : Resource)
    → renews (key r) (invalidate (requirement id RequirementKey.transitions))
      ≡ is_transitions_of id r
renews-transitions id (space_resource s k) = ground arith
renews-transitions id (requirement_resource r RequirementKey.transitions) = ground arith
renews-transitions id (requirement_resource r (RequirementKey.journals kind)) = ground arith
renews-transitions id (requirement_resource r _) = ground arith
renews-transitions id (document_resource d k) = ground arith
renews-transitions id (global_resource (GlobalKey.search q none)) = ground arith
renews-transitions id (global_resource (GlobalKey.search q (some s))) = ground arith
renews-transitions id (global_resource GlobalKey.my_work) = ground arith
renews-transitions id (global_resource _) = ground arith

-- A successful update of a requirement renews exactly the requirement itself and the keys in `shows`; a
-- successful transition renews the allowed transitions of the requirement besides.
pub renewed_by-change :
    {B : Type 0} (v : Change B) (req : Requirement) (r : Resource)
    → (renewed_by (use_update_requirement.on_success v req) (key r)
        ≡ is_detail_of req.id r || shows req.id req.space_id r)
      × (renewed_by (use_transition_requirement.on_success v req) (key r)
          ≡ is_detail_of req.id r || (is_transitions_of req.id r || shows req.id req.space_id r))
unfolding use_update_requirement use_transition_requirement
renewed_by-change v req r = (
  rw (← renewed_by-refresh req.id req.space_id r, ← renews-detail req.id (requirement_value req) r),
  rw (
    ← renewed_by-refresh req.id req.space_id r,
    ← renews-transitions req.id r,
    ← renews-detail req.id (requirement_value req) r,
  ),
)

renews-members :
    (id : String) (ms : List RequirementMember) (r : Resource)
    → renews (key r) (set_data (requirement id RequirementKey.members) (members_value ms))
      ≡ renews (key r) (invalidate (requirement id RequirementKey.members))
renews-members id ms (space_resource s k) = ground arith
renews-members id ms (requirement_resource r (RequirementKey.journals kind)) = ground arith
renews-members id ms (requirement_resource r RequirementKey.members) =
    ground (arith, eq_iff id r, eq_iff r id)
renews-members id ms (requirement_resource r _) = ground arith
renews-members id ms (document_resource d k) = ground arith
renews-members id ms (global_resource (GlobalKey.search q none)) = ground arith
renews-members id ms (global_resource (GlobalKey.search q (some s))) = ground arith
renews-members id ms (global_resource GlobalKey.my_work) = ground arith
renews-members id ms (global_resource _) = ground arith

-- Whether or not the response to a change of members has a body, the same entries are renewed.
renewed_by-members_done :
    (id space_id : String) (ms : List RequirementMember) (r : Resource)
    → renewed_by (members_done id space_id (some ms)) (key r)
      ≡ renewed_by (members_done id space_id none) (key r)
unfolding members_done
renewed_by-members_done id space_id ms r = rw (renews-members id ms r)

-- What a bulk update of a space may have changed: the space, and any requirement.
abbrev pub in_bulk : String → Resource → Bool
in_bulk space_id (space_resource s k) = space_id == s
in_bulk space_id (requirement_resource r k) = true
in_bulk space_id (document_resource d k) = false
in_bulk space_id (global_resource k) = false

-- A bulk update renews every entry of its space and every entry of every requirement, and no other.
renewed_by-bulk :
    {B R : Type 0} (space_id : String) (v : B) (res : R) (r : Resource)
    → renewed_by ((use_bulk_update space_id).on_success v res) (key r) ≡ in_bulk space_id r
unfolding use_bulk_update
renewed_by-bulk space_id v res (space_resource s k) = ground arith
renewed_by-bulk space_id v res (requirement_resource r k) = ground arith
renewed_by-bulk space_id v res (document_resource d k) = ground arith
renewed_by-bulk space_id v res (global_resource (GlobalKey.search q none)) = ground arith
renewed_by-bulk space_id v res (global_resource (GlobalKey.search q (some s))) = ground arith
renewed_by-bulk space_id v res (global_resource GlobalKey.my_work) = ground arith
renewed_by-bulk space_id v res (global_resource _) = ground arith
