-- ===== src/Events.antt =====
-- web/src/lib/events.ts: the change events of the server, held back for a moment and then turned into
-- operations on the cache. The connection (`EventSource`) is the browser's: what it delivers is an
-- argument, and so is the moment when the timer fires.
pub mod Fresh
pub mod Pending
use quagenticus.Base.{
  String, Bool, true, false, Option, none, some, List, [], ◌∷◌, ◌++◌, ◌==◌, string_eq,
  if◌then◌else◌, map, add, or_else, Dict, assign,
}
use quagenticus.BoardPage.{truthy}
use quagenticus.Cache.{Op, invalidate, template}
use quagenticus.Cache.Keys.{
  space, requirement, document, global, SpaceKey, RequirementKey, DocumentKey, GlobalKey,
}
use quagenticus.Hooks.{below_space}

pub record ChangeEvent : Type 0 where
  pub event_type : String
  pub space_id : String
  pub document_id : Option String

abbrev pub is_notification : ChangeEvent → Bool
is_notification ev = ev.event_type == "notification"

-- `if (ev.document_id) …`
abbrev pub document_ops : Option String → List Op
document_ops none = []
document_ops (some id) =
    invalidate (requirement id RequirementKey.all) ∷ invalidate (document id DocumentKey.all) ∷ []

-- the first loop of `flush`: the operations, and the spaces of the events
unfoldable pub flush_events : List ChangeEvent → List String → List Op × List String
flush_events [] spaces = ([], spaces)
flush_events (ev ∷ events) spaces =
    let skipped = flush_events events spaces in
    let added = flush_events events (add ev.space_id spaces) in
    if is_notification ev
    then (
      invalidate (global GlobalKey.notifications_all)
          ∷ invalidate (global GlobalKey.my_work)
          ∷ skipped.0,
      skipped.1,
    )
    else (document_ops (truthy ev.document_id) ++ added.0, added.1)

-- the second loop of `flush`
unfoldable pub flush_spaces : List String → List Op
flush_spaces [] = []
flush_spaces (s ∷ spaces) =
    invalidate (below_space s "board")
    ∷ invalidate (below_space s "requirements")
    ∷ invalidate (below_space s "documents")
    ∷ invalidate (space s SpaceKey.agent_queue)
    ∷ flush_spaces spaces

-- what `flush` asks of the cache
unfoldable pub flush_ops : List ChangeEvent → List Op
flush_ops events = let (ops, spaces) = flush_events events [] in ops ++ flush_spaces spaces

-- The variables of the effect, for as long as it is not cleaned up: `pending`, whether `timer` is set, whether
-- the browser holds a timeout of it, and the operations asked for so far.
pub record Live : Type 0 where
  pub pending : Dict ChangeEvent
  pub timer : Bool
  pub scheduled : Bool
  pub ops : List Op

abbrev pub pending_key : ChangeEvent → String
pending_key ev = template (ev.event_type ∷ ":" ∷ ev.space_id ∷ ":" ∷ or_else ev.document_id "" ∷ [])

-- the listener of `change`; `none` is an event whose data is no JSON
unfoldable pub on_change : Option ChangeEvent → Live → Live
on_change none live = live
on_change (some ev) live = record live {
  pending = assign (pending_key ev) ev live.pending;
  timer = true;
  scheduled = if live.timer then live.scheduled else true;
}

-- `flush`
unfoldable pub flush : Live → Live
flush live = record live {
  pending = [];
  timer = false;
  ops = live.ops ++ flush_ops (map (λ e. e.1) live.pending);
}

-- The browser calls `flush` when it holds a timeout, and holds it no longer.
unfoldable pub fire : Live → Live
fire live = if live.scheduled then flush (record live { scheduled = false }) else live

-- the cleanup of the effect: a timeout is cleared, and what is pending is lost with the variables
unfoldable pub cleanup : Live → Live
cleanup live = record live {
  pending = [];
  scheduled = if live.timer then false else live.scheduled;
}

pub data Arrival : Type 0 where
  change : Option ChangeEvent → Arrival
  timeout : Arrival

pub step : Arrival → Live → Live
step (change ev) live = on_change ev live
step timeout live = fire live

pub run : List Arrival → Live → Live
run [] live = live
run (a ∷ arrivals) live = run arrivals (step a live)

abbrev pub start : Live
start = record { pending = []; timer = false; scheduled = false; ops = [] }
