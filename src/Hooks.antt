-- ===== src/Hooks.antt =====
-- web/src/hooks: the queries and mutations of the pages. A hook's data argument is its request's body,
-- whatever it holds; an empty `on_success` is a mutation that has none.
pub mod Requirements
pub mod Members
pub mod Documents
pub mod Catalogs
pub mod Spaces
pub mod Comments
pub mod Search
pub mod Fresh
use quagenticus.Base.{String, Bool, Option, none, some, List, [], ◌∷◌, ◌++◌, or_else, if◌then◌else◌}
use quagenticus.Cache.{Key, str, Op, invalidate, set_data, Request, Method, Query, nonempty}
use quagenticus.Cache.Keys.{space, requirement, global, SpaceKey, RequirementKey, GlobalKey}

-- `[...qk.space(id).all, name]`
abbrev pub below_space : String → String → Key
below_space id name = space id SpaceKey.all ++ str name ∷ []

-- A request with and without a body.
abbrev pub send : {B : Type 0} → Method → String → B → Request B
send method path body = record { method = method; path = path; body = some body }

abbrev pub call : {B : Type 0} → Method → String → Request B
call method path = record { method = method; path = path; body = none }

-- The variables of a mutation that names what it changes: `{ id, ...data }`.
pub record Change (B : Type 0) : Type 0 where
  pub id : String
  pub rest : B

-- the same where `id` may be missing: `{ id?, ...data }`
pub record Save (B : Type 0) : Type 0 where
  pub id : Option String
  pub rest : B

-- `id ? patch : post`; the empty id is false
abbrev pub save_request : {B : Type 0} → Save B → (String → String) → String → Request B
save_request v existing created = elim v.id [
  | none ↦ send Method.post created v.rest
  | some id ↦
      if nonempty id
      then send Method.patch (existing id) v.rest
      else send Method.post created v.rest
]

-- `useRequirementRefresh`: after any change to a requirement
pub refresh : String → String → List Op
refresh id space_id =
    invalidate (below_space space_id "requirements")
    ∷ invalidate (below_space space_id "board")
    ∷ invalidate (requirement id (RequirementKey.journals "history"))
    ∷ invalidate (global GlobalKey.my_work)
    ∷ []
