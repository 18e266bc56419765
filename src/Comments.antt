-- ===== src/Comments.antt =====
-- web/src/components/comments/CommentThread.tsx: the threads of the comments of a document, and who may
-- change a comment.
pub mod Threads
use quagenticus.Base.{
  String, Bool, true, false, Option, none, some, List, [], ◌∷◌, ◌++◌, ◌==◌, ◌||◌, not, string_eq,
  or_else, is_some, keep, map, Dict, lookup, assign, if◌then◌else◌,
}
use quagenticus.BoardPage.{truthy, strip_prefix}
use quagenticus.Api.Activity.{Journal}

pub record Thread : Type 0 where
  pub root : Journal
  pub replies : List Journal

-- `roots`
unfoldable pub roots_of : List Journal → List Journal
roots_of = keep (λ j. not (is_some (truthy j.reply_to_id)))

-- one entry of the loop that fills the map `replies`
abbrev pub add_reply : Option String → Journal → Dict (List Journal) → Dict (List Journal)
add_reply none j replies = replies
add_reply (some id) j replies = assign id (or_else (lookup id replies) [] ++ j ∷ []) replies

unfoldable pub replies_of : List Journal → Dict (List Journal) → Dict (List Journal)
replies_of [] replies = replies
replies_of (j ∷ js) replies = replies_of js (add_reply (truthy j.reply_to_id) j replies)

unfoldable pub thread : Dict (List Journal) → Journal → Thread
thread replies root = record { root = root; replies = or_else (lookup root.id replies) [] }

-- `threads`
unfoldable pub threads : List Journal → List Thread
threads journals = map (thread (replies_of journals [])) (roots_of journals)

-- What of a comment the page offers: `mine`, and the buttons.
abbrev mine : Option String → Journal → Bool
mine me c = elim me [
  | none ↦ not (is_some c.actor_id)
  | some id ↦ elim c.actor_id [ none ↦ false | some actor ↦ id == actor ]
]

data Button : Type 0 where
  copy_link reply edit delete : Button

-- The buttons of a comment that is not deleted, in their order; `reply_to` is the root of its thread,
-- if one may comment. (`me?.id === c.actor_id`: an actor that is null is nobody's, with a user.)
abbrev buttons : Option String → Bool → Option String → Journal → List Button
buttons me can_moderate reply_to c =
    copy_link ∷ (if is_some reply_to then reply ∷ [] else [])
    ++ (if mine me c then edit ∷ [] else [])
    ++ (if mine me c || can_moderate then delete ∷ [] else [])

-- the comment that the address names: `hash.slice('#comment-'.length)`
abbrev linked_comment : String → Option String
linked_comment = strip_prefix "#comment-"
