-- ===== src/Tests/Activity.antt =====
-- A short history and a short conversation of one document.
use quagenticus.Base.{
  ℕ, suc, String, Bool, Option, none, some, List, [], ◌∷◌, ◌≡◌, refl, inl, inr, ◌==◌, string_eq,
  map, All,
}
use quagenticus.Api.Activity.{Journal, JournalActor}
use quagenticus.Api.Activity.JournalKind.{comment}
use quagenticus.Timeline.{groups, group_from, Group}
use quagenticus.Timeline.Groups.{IsHistory, entries_of, groups-IsHistory}
use quagenticus.Comments.{threads, roots_of, replies_of, thread}
use quagenticus.Comments.Threads.{shown, count_if, IsPlaced, count_if-threads}

abbrev entry : String → String → String → Option String → Journal
entry id actor at parent = record {
  id = id;
  requirement_id = "";
  kind = comment;
  actor_type = JournalActor.user;
  actor_id = some actor;
  actor_name = "";
  actor_handle = none;
  actor_avatar_url = none;
  notes_md = "";
  details = [];
  reply_to_id = parent;
  created_at = at;
  edited_at = none;
  deleted_at = none;
  attachments = [];
}

-- times as their length, in minutes
abbrev time : String → ℕ
time String.[] = 0
time (String.◌∷◌ c s) = suc (time s)

abbrev history : List Journal
history = entry "1" "ana" "" none ∷ entry "2" "ana" "x" none ∷ entry "3" "eva" "x" none ∷ []

groups_history : map (λ (g : Group). g.key) (groups time history) ≡ "3" ∷ "1" ∷ []
unfolding groups group_from
groups_history = refl

groups-IsHistory_example :
    IsHistory time (groups time history) × (entries_of (groups time history) ≡ history)
groups-IsHistory_example = groups-IsHistory time history

abbrev talk : List Journal
talk =
    entry "1" "ana" "" none
    ∷ entry "2" "eva" "" (some "1")
    ∷ entry "3" "eva" "" none
    ∷ entry "4" "ana" "" (some "1")
    ∷ []

threads-talk : map (λ (j : Journal). j.id) (shown (threads talk)) ≡ "1" ∷ "2" ∷ "4" ∷ "3" ∷ []
unfolding threads roots_of replies_of thread
threads-talk = refl

abbrev has_id : Journal → Bool
has_id j = j.id == "4"

talk-IsPlaced : All (IsPlaced (roots_of talk)) talk
unfolding roots_of
talk-IsPlaced = (inl refl, (inr ("1", refl, refl), (inl refl, (inr ("1", refl, refl), tt))))

count_if-threads_example : count_if has_id (shown (threads talk)) ≡ count_if has_id talk
count_if-threads_example = count_if-threads talk has_id talk-IsPlaced
