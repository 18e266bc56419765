-- ===== src/Cache/Keys.antt =====
-- web/src/lib/queryKeys.ts: the keys, by the resource that they belong to.
use quagenticus.Base.{
  ℕ, String, true, false, Option, none, some, [], ◌∷◌, Dict, ◌≡◌, refl, arith, eq_iff, ◌↔◌,
}
use quagenticus.Cache.{Key, str, num, filters, is_prefix}

pub data SpaceKey : Type 0 where
  all detail members labels milestones categories boards views agent_queue : SpaceKey
  board : String → SpaceKey
  requirements documents : Option (Dict String) → SpaceKey
  suggest : String → String → SpaceKey
  refs : String → SpaceKey

-- what the object of `qk.space` adds to `base`
abbrev space_part : SpaceKey → Key
space_part all = []
space_part detail = str "detail" ∷ []
space_part members = str "members" ∷ []
space_part labels = str "labels" ∷ []
space_part milestones = str "milestones" ∷ []
space_part categories = str "categories" ∷ []
space_part boards = str "boards" ∷ []
space_part (board board_id) = str "board" ∷ str board_id ∷ []
space_part (requirements none) = str "requirements" ∷ []
space_part (requirements (some f)) = str "requirements" ∷ filters f ∷ []
space_part (documents none) = str "documents" ∷ []
space_part (documents (some f)) = str "documents" ∷ filters f ∷ []
space_part views = str "views" ∷ []
space_part agent_queue = str "agent-queue" ∷ []
space_part (suggest q types) = str "suggest" ∷ str types ∷ str q ∷ []
space_part (refs keys) = str "refs" ∷ str keys ∷ []

-- `qk.space(spaceId)`
abbrev pub space : String → SpaceKey → Key
space space_id k = str "space" ∷ str space_id ∷ space_part k

pub data RequirementKey : Type 0 where
  all detail members journals_all attachments links backlinks children transitions time_entries :
      RequirementKey
  journals : String → RequirementKey

abbrev requirement_part : RequirementKey → Key
requirement_part all = []
requirement_part detail = str "detail" ∷ []
requirement_part members = str "members" ∷ []
requirement_part (journals kind) = str "journals" ∷ str kind ∷ []
requirement_part journals_all = str "journals" ∷ []
requirement_part attachments = str "attachments" ∷ []
requirement_part links = str "links" ∷ []
requirement_part backlinks = str "backlinks" ∷ []
requirement_part children = str "children" ∷ []
requirement_part transitions = str "transitions" ∷ []
requirement_part time_entries = str "time-entries" ∷ []

-- `qk.requirement(id)`
abbrev pub requirement : String → RequirementKey → Key
requirement id k = str "requirement" ∷ str id ∷ requirement_part k

pub data DocumentKey : Type 0 where
  all detail history links backlinks attachments : DocumentKey
  version : ℕ → DocumentKey

abbrev document_part : DocumentKey → Key
document_part all = []
document_part detail = str "detail" ∷ []
document_part history = str "history" ∷ []
document_part (version v) = str "version" ∷ num v ∷ []
document_part links = str "links" ∷ []
document_part backlinks = str "backlinks" ∷ []
document_part attachments = str "attachments" ∷ []

-- `qk.document(id)`
abbrev pub document : String → DocumentKey → Key
document id k = str "document" ∷ str id ∷ document_part k

pub data GlobalKey : Type 0 where
  me health spaces trackers priorities statuses catalog_labels users agents : GlobalKey
  notifications_all notifications_list notifications_count my_work : GlobalKey
  admin_transitions signed : String → GlobalKey
  search : String → Option String → GlobalKey

-- the keys of `qk` that belong to no space, requirement or document
abbrev pub global : GlobalKey → Key
global me = str "me" ∷ []
global health = str "health" ∷ []
global spaces = str "spaces" ∷ []
global trackers = str "catalogs" ∷ str "trackers" ∷ []
global priorities = str "catalogs" ∷ str "priorities" ∷ []
global statuses = str "catalogs" ∷ str "statuses" ∷ []
global catalog_labels = str "catalogs" ∷ str "labels" ∷ []
global users = str "users" ∷ []
global (admin_transitions tracker_id) = str "admin" ∷ str "transitions" ∷ str tracker_id ∷ []
global agents = str "admin" ∷ str "agents" ∷ []
global notifications_all = str "notifications" ∷ []
global notifications_list = str "notifications" ∷ str "list" ∷ []
global notifications_count = str "notifications" ∷ str "count" ∷ []
global (search q none) = str "search" ∷ str q ∷ str "" ∷ []
global (search q (some space_id)) = str "search" ∷ str q ∷ str space_id ∷ []
global my_work = str "my-work" ∷ []
global (signed ids) = str "signed-attachments" ∷ str ids ∷ []

-- A resource that has a key.
pub data Resource : Type 0 where
  space_resource : String → SpaceKey → Resource
  requirement_resource : String → RequirementKey → Resource
  document_resource : String → DocumentKey → Resource
  global_resource : GlobalKey → Resource

abbrev pub key : Resource → Key
key (space_resource id k) = space id k
key (requirement_resource id k) = requirement id k
key (document_resource id k) = document id k
key (global_resource k) = global k

-- What a key may belong to, and its `all`.
pub data Owner : Type 0 where
  of_space of_requirement of_document : String → Owner

abbrev pub base : Owner → Key
base (of_space id) = space id SpaceKey.all
base (of_requirement id) = requirement id RequirementKey.all
base (of_document id) = document id DocumentKey.all

abbrev pub owner : Resource → Option Owner
owner (space_resource id k) = some (of_space id)
owner (requirement_resource id k) = some (of_requirement id)
owner (document_resource id k) = some (of_document id)
owner (global_resource k) = none

global-not_owned : (o : Owner) (k : GlobalKey) → is_prefix (base o) (global k) ≡ false
global-not_owned (of_space id) (search q none) = refl
global-not_owned (of_space id) (search q (some s)) = refl
global-not_owned (of_space id) _ = refl
global-not_owned (of_requirement id) (search q none) = refl
global-not_owned (of_requirement id) (search q (some s)) = refl
global-not_owned (of_requirement id) _ = refl
global-not_owned (of_document id) (search q none) = refl
global-not_owned (of_document id) (search q (some s)) = refl
global-not_owned (of_document id) _ = refl

-- Invalidating the base key of a space, a requirement or a document reaches a key exactly when the
-- key belongs to that space, requirement or document: never an entry of another one, nor an entry
-- that has no owner.
is_prefix-base_iff :
    (o : Owner) (r : Resource) → (is_prefix (base o) (key r) ≡ true) ↔ (owner r ≡ some o)
is_prefix-base_iff o (global_resource k) = ground (arith, global-not_owned o k)
is_prefix-base_iff (of_space s) (space_resource id k) = ground (arith, eq_iff s id)
is_prefix-base_iff (of_space s) (requirement_resource id k) = ground arith
is_prefix-base_iff (of_space s) (document_resource id k) = ground arith
is_prefix-base_iff (of_requirement s) (space_resource id k) = ground arith
is_prefix-base_iff (of_requirement s) (requirement_resource id k) = ground (arith, eq_iff s id)
is_prefix-base_iff (of_requirement s) (document_resource id k) = ground arith
is_prefix-base_iff (of_document s) (space_resource id k) = ground arith
is_prefix-base_iff (of_document s) (requirement_resource id k) = ground arith
is_prefix-base_iff (of_document s) (document_resource id k) = ground (arith, eq_iff s id)
