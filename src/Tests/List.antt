-- ===== src/Tests/List.antt =====
-- The list of web/src/pages/RequirementsList.tsx at an address with a page and an order.
use quagenticus.Base.{
  ℕ, zero, suc, ◌*◌, ◌/◌, ◌-◌, ◌+◌, String, false, none, some, List, [], ◌∷◌, ◌≡◌, refl, string_eq,
  Dict, lookup, min, arith,
}
use quagenticus.Api.Documents.{RequirementSummary}
use quagenticus.Api.Catalogs.{SavedView}
use quagenticus.RequirementsList.{filters, given, save_view, offset, toggle_one, page_size}
use quagenticus.RequirementsList.Filters.{filters-save_view}
use quagenticus.RequirementsList.Pages.{
  Action, choose, order, go_back, go_on, clear, visit, run, nexts, offset-nexts, run-IsPage, IsPage,
}

-- Numbers in strokes, for `String` and `Number`.
abbrev show : ℕ → String
show zero = ""
show (suc n) = String.◌∷◌ "I" (show n)

abbrev number : String → ℕ
number String.[] = 0
number (String.◌∷◌ c s) = suc (number s)

round : (n : ℕ) → number (show n) ≡ n
round zero = refl
round (suc n) = rw (round n) refl

abbrev params : Dict String
params = ("assignee", "me") ∷ ("sort", "title") ∷ ("dir", "desc") ∷ ("offset", show 50) ∷ []

filters_of_params :
    filters params
    ≡ ("assignee", "me") ∷ ("sort", "title") ∷ ("dir", "desc") ∷ ("open", "true") ∷ []
unfolding filters given
filters_of_params = refl

filters-save_view_example :
    (filters (save_view params) ≡ filters params) × (lookup "offset" (save_view params) ≡ none)
filters-save_view_example = filters-save_view params (refl, (refl, (refl, (refl, tt))))

start_page : offset number show [] ≡ page_size * 0
unfolding offset
start_page = refl

second_page : offset number show params ≡ page_size * 1
unfolding offset
second_page = refl

offset-nexts_example :
    offset number show (nexts number show 3 120 [])
    ≡ page_size * min (0 + 3) ((120 - 1) / page_size)
offset-nexts_example = offset-nexts number show round 3 120 [] 0 start_page (omega arith)

abbrev view : SavedView
view = record {
  id = "";
  space_id = "";
  user_id = none;
  name = "";
  filters = ("overdue", "true") ∷ [];
  is_shared = false;
  created_at = "";
}

abbrev actions : List Action
actions =
    go_on 120 ∷ order "due" ∷ go_back ∷ choose "q" (some "x") ∷ go_on 120 ∷ clear ∷ visit view ∷ []

run-IsPage_example : IsPage number show round (run number show actions params)
run-IsPage_example =
    run-IsPage number show round actions params (tt, (tt, (tt, (tt, (tt, (tt, (refl, tt)))))))
      (1, second_page)

abbrev item : String → RequirementSummary
item id = record {
  id = id;
  space_id = "";
  ref_key = "";
  title = "";
  version = 0;
  tracker_id = "";
  tracker_key = "";
  tracker_name = "";
  tracker_icon = none;
  status_id = "";
  status_key = "";
  status_name = "";
  status_color = none;
  status_is_closed = false;
  priority_id = "";
  priority_key = "";
  priority_name = "";
  priority_color = none;
  priority_weight = 0;
  category_id = none;
  milestone_id = none;
  parent_id = none;
  reporter_id = "";
  reporter_name = none;
  lead_user_id = none;
  board_position = 0;
  readiness_score = none;
  done_ratio = 0;
  estimated_hours = none;
  spent_hours = 0;
  start_date = none;
  due_date = none;
  resolution = none;
  closed_at = none;
  claimed_by_agent_id = none;
  claimed_by_agent_name = none;
  member_count = 0;
  created_at = "";
  updated_at = "";
  labels = [];
  members = [];
}

toggle_one_twice : toggle_one "a" (toggle_one "a" ("b" ∷ [])) ≡ "b" ∷ []
unfolding toggle_one
toggle_one_twice = refl
