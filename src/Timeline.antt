-- ===== src/Timeline.antt =====
-- web/src/components/comments/ActivityTimeline.tsx: how the history of a document is put into groups.
-- `time` is `new Date(text).getTime()`, in milliseconds; what the lines of a group say is left out.
pub mod Groups
use quagenticus.Base.{
  ℕ, ◌+◌, String, Bool, true, false, Option, none, some, List, [], ◌∷◌, ◌++◌, ◌==◌, ◌&&◌, string_eq,
  ltb, if◌then◌else◌,
}
use quagenticus.Api.Activity.{Journal}

pub record Group : Type 0 where
  pub key : String
  pub first : Journal
  pub entries : List Journal

-- `entries[entries.length - 1]`
abbrev pub last_entry : List Journal → Option Journal
last_entry [] = none
last_entry (j ∷ []) = some j
last_entry (_ ∷ j ∷ js) = last_entry (j ∷ js)

-- `prev.actor_id === j.actor_id`
abbrev same_actor : Option String → Option String → Bool
same_actor none none = true
same_actor none (some _) = false
same_actor (some _) none = false
same_actor (some a) (some b) = a == b

module _ (time : String → ℕ) where
  -- an entry belongs to the group whose last entry is `prev`
  abbrev pub joins : Journal → Journal → Bool
  joins prev j =
      same_actor prev.actor_id j.actor_id
      && j.notes_md == ""
      && prev.notes_md == ""
      && ltb (time j.created_at) (time prev.created_at + 120000)

  abbrev new_group : Journal → Group
  new_group j = record { key = j.id; first = j; entries = j ∷ [] }

  -- an entry and the last group, with the last entry of that
  abbrev pub push_to : Journal → Group → List Group → Option Journal → List Group
  push_to j g out none = new_group j ∷ g ∷ out
  push_to j g out (some prev) =
      if joins prev j
      then record g { entries = g.entries ++ j ∷ [] } ∷ out
      else new_group j ∷ g ∷ out

  -- one entry; the groups stand from the last to the first, as `out.reverse()` has them
  abbrev pub push_entry : Journal → List Group → List Group
  push_entry j [] = new_group j ∷ []
  push_entry j (g ∷ out) = push_to j g out (last_entry g.entries)

  unfoldable pub group_from : List Journal → List Group → List Group
  group_from [] out = out
  group_from (j ∷ js) out = group_from js (push_entry j out)

  -- `groups`
  unfoldable pub groups : List Journal → List Group
  groups journals = group_from journals []
