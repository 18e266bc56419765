-- ===== src/Cache.antt =====
-- The cache of server data. web/src/lib/queryKeys.ts names its entries (`Keys`); the hooks below
-- web/src/hooks read and refresh them through TanStack Query, which is not part of this code: what
-- a hook asks of it is a list of operations.
pub mod Keys
use quagenticus.Base.{
  ℕ, String, Bool, true, false, Option, none, some, List, [], ◌∷◌, ◌==◌, ◌&&◌, string_eq, nat_eq,
  Dict, Eq, list_eq, if◌then◌else◌, any, ◌≡◌, ◌↔◌, arith, eq_iff,
}
use Prim.Native.String
use quagenticus.Api.Documents.{Requirement, RequirementMember, Document, Me}

-- One element of a query key.
pub data Part : Type 0 where
  str : String → Part
  num : ℕ → Part
  flag : Bool → Part
  filters : Dict String → Part

abbrev pub Key : Type 0
Key = List Part

abbrev bool_beq : Bool → Bool → Bool
bool_beq true true = true
bool_beq true false = false
bool_beq false true = false
bool_beq false false = true

abbrev dict_beq : Dict String → Dict String → Bool
dict_beq [] [] = true
dict_beq [] (_ ∷ _) = false
dict_beq (_ ∷ _) [] = false
dict_beq ((k, v) ∷ d) ((j, w) ∷ e) = k == j && v == w && dict_beq d e

abbrev pub part_beq : Part → Part → Bool
part_beq (str s) (str t) = s == t
part_beq (num n) (num m) = n == m
part_beq (flag b) (flag c) = bool_beq b c
part_beq (filters d) (filters e) = dict_beq d e
part_beq _ _ = false

-- The values that the hooks write into the cache themselves.
pub data Value : Type 0 where
  requirement_value : Requirement → Value
  document_value : Document → Value
  members_value : List RequirementMember → Value
  me_value : Me → Value

-- `qc.invalidateQueries({ queryKey })`, `qc.invalidateQueries()` and `qc.setQueryData(queryKey, …)`
pub data Op : Type 0 where
  invalidate : Key → Op
  invalidate_all : Op
  set_data : Key → Value → Op

-- A key is a prefix of another.
abbrev pub is_prefix : Key → Key → Bool
is_prefix [] k = true
is_prefix (p ∷ ps) [] = false
is_prefix (p ∷ ps) (q ∷ qs) = part_beq p q && is_prefix ps qs

-- Whether an operation names the entry of a key. "Invalidating a prefix only touches what it owns", as
-- web/src/lib/queryKeys.ts says of the invalidated keys; a key that is set is one entry.
abbrev pub renews : Key → Op → Bool
renews k (invalidate p) = is_prefix p k
renews k invalidate_all = true
renews k (set_data j v) = is_prefix j k && is_prefix k j

abbrev pub renewed_by : List Op → Key → Bool
renewed_by ops k = any (renews k) ops

-- The HTTP request of a hook: `api.get`, `api.post`, `api.patch`, `api.put` and `api.delete`.
pub data Method : Type 0 where
  get post patch put delete : Method

pub record Request (B : Type 0) : Type 0 where
  pub method : Method
  pub path : String
  pub body : Option B

-- A template literal: its pieces, joined.
abbrev pub template : List String → String
template [] = ""
template (s ∷ rest) = String.◌++◌ s (template rest)

-- `useQuery({ queryKey, queryFn: () => api.get(path), enabled })`
pub record Query : Type 0 where
  pub key : Key
  pub path : String
  pub enabled : Bool

-- `useMutation({ mutationFn, onSuccess })`: the request for the variables, and what is done with the
-- cache once the response is there.
pub record Mutation (V B R : Type 0) : Type 0 where
  pub request : V → Request B
  pub on_success : V → R → List Op

-- `!!s` for a string
abbrev pub nonempty : String → Bool
nonempty s = if s == "" then false else true
