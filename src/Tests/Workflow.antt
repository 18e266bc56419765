-- ===== src/Tests/Workflow.antt =====
-- The workflow of a tracker, changed and saved.
use quagenticus.Base.{String, true, false, none, some, List, [], ◌∷◌, ◌≡◌, refl, map, string_eq}
use quagenticus.Api.Types.{maintainer, viewer, user}
use quagenticus.Api.Catalogs.{Transition}
use quagenticus.WorkflowAdmin.{
  Rule, rule_key, toggle, edit, Event, selected, loaded, toggled, edited, save, answered, settled,
  sending, new_rule, role, step, run, start,
}
use quagenticus.WorkflowAdmin.Rules.{IsDistinct, run-IsDistinct}
use quagenticus.WorkflowAdmin.Saves.{IsCalm, rules-run}

abbrev transition : String → String → Transition
transition from to = record {
  id = "";
  tracker_id = "t";
  from_status_id = some from;
  to_status_id = to;
  allowed_roles = viewer ∷ [];
  allowed_actors = user ∷ [];
  requires_comment = false;
  requires_assignee = false;
  requires_readiness = false;
}

-- A tracker is chosen, its rules are changed and saved, and the server's answer to that is renewed.
abbrev events : List Event
events =
    loaded []
    ∷ selected "t" none
    ∷ loaded (transition "a" "b" ∷ transition "b" "c" ∷ [])
    ∷ toggled none "c"
    ∷ toggled (some "a") "b"
    ∷ edited 0 (role maintainer true)
    ∷ save
    ∷ answered true
    ∷ loaded (transition "b" "c" ∷ [])
    ∷ settled
    ∷ []

keys : map (λ (r : Rule). rule_key r) (run events (start "s")).rules ≡ "b>c" ∷ []
unfolding run step toggle edit
keys = refl

-- A box that is clicked after the transitions were renewed, and before the save is over, is taken for saved.
abbrev hasty : List Event
hasty =
    loaded []
    ∷ toggled none "a"
    ∷ save
    ∷ answered true
    ∷ loaded []
    ∷ toggled none "b"
    ∷ settled
    ∷ []

lost : map (λ (r : Rule). rule_key r) (run hasty (start "s")).rules ≡ "*>b" ∷ []
unfolding run step toggle
lost = refl

lost_dirty : (run hasty (start "s")).dirty ≡ false
unfolding run step toggle
lost_dirty = refl

lost_known : (run hasty (start "s")).known ≡ []
unfolding run step toggle
lost_known = refl

-- The rules of one tracker are sent to another that is chosen and whose transitions are loading.
mixed :
    (run (loaded [] ∷ toggled none "a" ∷ selected "t" none ∷ save ∷ []) (start "s")).saving
    ≡ some (sending "t" (new_rule none "a" ∷ []))
unfolding run step toggle
mixed = refl

events-IsCalm : IsCalm events (start "s")
unfolding step toggle edit
events-IsCalm = (
  tt,
  tt,
  (tt, tt, (tt, tt, (tt, tt, (tt, tt, (tt, tt, (tt, refl, (tt, tt, (tt, tt, (tt, tt, tt))))))))),
)

ready : (run events (start "s")).is_loading ≡ false
unfolding run step toggle edit
ready = refl

clean : (run events (start "s")).dirty ≡ false
unfolding run step toggle edit
clean = refl

rules-run_example : (run events (start "s")).rules ≡ (run events (start "s")).known
rules-run_example = rules-run "s" events events-IsCalm ready clean

run-IsDistinct_example : IsDistinct (run events (start "s")).rules
run-IsDistinct_example =
    run-IsDistinct "s" events
      (tt, (tt, ((refl, (refl, tt)), (tt, (tt, (tt, (tt, (tt, ((refl, tt), (tt, tt))))))))))
