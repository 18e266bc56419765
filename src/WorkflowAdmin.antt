-- ===== src/WorkflowAdmin.antt =====
-- web/src/components/admin/WorkflowAdmin.tsx: the rules of the workflow of a tracker (`TransitionsAdmin`), with
-- the order in which a save of web/src/hooks/useAdmin.ts ends: its request is answered, the transitions are
-- renewed, and then the save is over. A rule that is edited is found by its place.
pub mod Rules
pub mod Saves
use quagenticus.Base.{
  ℕ, zero, suc, String, Bool, true, false, Option, none, some, List, [], ◌∷◌, ◌++◌, ◌==◌, ◌&&◌, not,
  string_eq, if◌then◌else◌, or_else, any, keep, map,
}
use quagenticus.Api.Types.{Role, viewer, contributor, maintainer, admin, ActorType, user, agent}
use quagenticus.Api.Catalogs.{Transition}
use quagenticus.Cache.{template}

-- `Rule`
pub record Rule : Type 0 where
  pub from_status_id : Option String
  pub to_status_id : String
  pub allowed_roles : List Role
  pub allowed_actors : List ActorType
  pub requires_comment : Bool
  pub requires_assignee : Bool
  pub requires_readiness : Bool

abbrev default_roles : List Role
default_roles = contributor ∷ maintainer ∷ admin ∷ []

-- `key`
abbrev pub key : Option String → String → String
key from to = template (or_else from "*" ∷ ">" ∷ to ∷ [])

abbrev pub rule_key : Rule → String
rule_key r = key r.from_status_id r.to_status_id

-- `byKey.has(k)`
abbrev pub has_rule : String → List Rule → Bool
has_rule k = any (λ r. rule_key r == k)

abbrev pub new_rule : Option String → String → Rule
new_rule from to = record {
  from_status_id = from;
  to_status_id = to;
  allowed_roles = default_roles;
  allowed_actors = user ∷ agent ∷ [];
  requires_comment = false;
  requires_assignee = false;
  requires_readiness = false;
}

-- `toggle`
unfoldable pub toggle : Option String → String → List Rule → List Rule
toggle from to rules =
    if has_rule (key from to) rules
    then keep (λ r. not (rule_key r == key from to)) rules
    else rules ++ new_rule from to ∷ []

abbrev same_role : Role → Role → Bool
same_role viewer viewer = true
same_role contributor contributor = true
same_role maintainer maintainer = true
same_role admin admin = true
same_role _ _ = false

-- The boxes of a rule.
pub data Patch : Type 0 where
  role : Role → Bool → Patch
  agents : Bool → Patch
  comment : Bool → Patch
  assignee : Bool → Patch
  readiness : Bool → Patch

abbrev pub patch_rule : Patch → Rule → Rule
patch_rule (role x checked) r = record r {
  allowed_roles =
      if checked
      then r.allowed_roles ++ x ∷ []
      else keep (λ y. not (same_role y x)) r.allowed_roles;
}
patch_rule (agents checked) r = record r {
  allowed_actors = if checked then user ∷ agent ∷ [] else user ∷ [];
}
patch_rule (comment checked) r = record r { requires_comment = checked }
patch_rule (assignee checked) r = record r { requires_assignee = checked }
patch_rule (readiness checked) r = record r { requires_readiness = checked }

-- `edit`
unfoldable pub edit : ℕ → Patch → List Rule → List Rule
edit i patch [] = []
edit zero patch (r ∷ rules) = patch_rule patch r ∷ rules
edit (suc i) patch (r ∷ rules) = r ∷ edit i patch rules

-- a transition of the server without its id and its tracker
abbrev pub rule_of : Transition → Rule
rule_of t = record {
  from_status_id = t.from_status_id;
  to_status_id = t.to_status_id;
  allowed_roles = t.allowed_roles;
  allowed_actors = t.allowed_actors;
  requires_comment = t.requires_comment;
  requires_assignee = t.requires_assignee;
  requires_readiness = t.requires_readiness;
}

-- A save under way: the tracker and the rules of its request, or its request has been answered and the transitions
-- are awaited.
pub data Saving : Type 0 where
  sending : String → List Rule → Saving
  reloading : Saving

-- `activeTracker`, `isLoading`, `rules`, `dirty`, the save that is pending, and the rules of the tracker that the
-- server is known to have
pub record Page : Type 0 where
  pub tracker : String
  pub is_loading : Bool
  pub rules : List Rule
  pub dirty : Bool
  pub saving : Option Saving
  pub known : List Rule

abbrev pub start : String → Page
start tracker = record {
  tracker = tracker;
  is_loading = true;
  rules = [];
  dirty = false;
  saving = none;
  known = [];
}

-- Another tracker is chosen, whose transitions are in the cache or not; transitions arrive for the tracker; a box
-- of the table or of a rule is clicked; the button to save is clicked; the request of the save is answered, with
-- success or not; the save is over.
pub data Event : Type 0 where
  selected : String → Option (List Transition) → Event
  loaded : List Transition → Event
  toggled : Option String → String → Event
  edited : ℕ → Patch → Event
  save : Event
  answered : Bool → Event
  settled : Event

-- the effect that takes over the transitions
abbrev pub adopt : List Transition → Page → Page
adopt transitions p = record p {
  is_loading = false;
  rules = map rule_of transitions;
  dirty = false;
  known = map rule_of transitions;
}

abbrev pub select : Option (List Transition) → Page → Page
select none p = record p { is_loading = true }
select (some transitions) p = adopt transitions p

-- The table is there unless the transitions are loading.
abbrev pub change : List Rule → Page → Page
change rules p = if p.is_loading then p else record p { rules = rules; dirty = true }

-- The button is disabled while there is nothing to save or a save is pending.
abbrev pub start_save : Option Saving → Page → Page
start_save none p = if p.dirty then record p { saving = some (sending p.tracker p.rules) } else p
start_save (some _) p = p

-- `mutationFn`, behind which `onSuccess` of the hook awaits the transitions
abbrev pub answer_save : Bool → Option Saving → Page → Page
answer_save true (some (sending tracker sent)) p = record p {
  saving = some reloading;
  known = if p.tracker == tracker then sent else p.known;
}
answer_save false (some (sending tracker sent)) p = record p { saving = none }
answer_save success (some reloading) p = p
answer_save success none p = p

-- `onSuccess` of the button
abbrev pub end_save : Option Saving → Page → Page
end_save (some reloading) p = record p { dirty = false; saving = none }
end_save (some (sending _ _)) p = p
end_save none p = p

unfoldable pub step : Event → Page → Page
step (selected tracker cached) p = select cached (record p { tracker = tracker })
step (loaded transitions) p = adopt transitions p
step (toggled from to) p = change (toggle from to p.rules) p
step (edited i patch) p = change (edit i patch p.rules) p
step save p = start_save p.saving p
step (answered success) p = answer_save success p.saving p
step settled p = end_save p.saving p

unfoldable pub run : List Event → Page → Page
run [] p = p
run (e ∷ es) p = run es (step e p)
