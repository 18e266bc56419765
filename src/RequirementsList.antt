-- ===== src/RequirementsList.antt =====
-- web/src/pages/RequirementsList.tsx: the filters, the order and the page of the list, which live in
-- the address (`params`), the selection and its bulk edits, the columns, and the saved views.
-- `Number` and `String` of the language are parameters, `number` and `show`; an address whose offset
-- is written by hand and is no natural number is left out.
pub mod Filters
pub mod Pages
pub mod Selection
use quagenticus.Base.{
  ℕ, ◌+◌, ◌-◌, String, Bool, true, false, Option, none, some, List, [], ◌∷◌, ◌++◌, ◌==◌, ◌&&◌, ◌||◌,
  not, string_eq, nat_eq, ltb, leb, if◌then◌else◌, or_else, is_some, length, keep, all, elem, add,
  map, min, Dict, lookup, assign, delete_param, set_param,
}
use quagenticus.BoardPage.{truthy}
use quagenticus.Api.Documents.{RequirementSummary}
use quagenticus.Api.Catalogs.{SavedView}
use quagenticus.Hooks.Requirements.{use_requirement_page}
use quagenticus.Cache.{Query}

abbrev pub filter_keys : List String
filter_keys =
    "q" ∷ "status_id" ∷ "tracker_id" ∷ "priority_id" ∷ "assignee" ∷ "label_id" ∷ "milestone_id"
    ∷ "open" ∷ "overdue" ∷ "sort" ∷ "dir" ∷ []

abbrev pub page_size : ℕ
page_size = 50

data OptionalColumn : Type 0 where
  members due milestone updated done dor : OptionalColumn

abbrev column_name : OptionalColumn → String
column_name members = "members"
column_name due = "due"
column_name milestone = "milestone"
column_name updated = "updated"
column_name done = "done"
column_name dor = "dor"

-- `c === x`: columns are their names
abbrev same_column : OptionalColumn → OptionalColumn → Bool
same_column a b = column_name a == column_name b

-- `loadColumns`; `saved` is what the browser's storage holds, if it can be read
abbrev load_columns : Option (List OptionalColumn) → List OptionalColumn
load_columns saved = or_else saved (members ∷ due ∷ updated ∷ [])

-- `if (v) f[k] = v`
abbrev pub assign_given : String → Option String → Dict String → Dict String
assign_given k none f = f
assign_given k (some v) f = assign k v f

-- the entries of `filters` for some keys, in their order
unfoldable pub given : Dict String → List String → Dict String → Dict String
given params [] f = f
given params (k ∷ ks) f = given params ks (assign_given k (truthy (lookup k params)) f)

-- the address names neither `open` nor a status
abbrev pub only_open : Dict String → Bool
only_open params = not (is_some (lookup "open" params)) && not (is_some (lookup "status_id" params))

-- `filters`: the keys with a value; without a choice of `open` or of a status, open requirements
unfoldable pub filters : Dict String → Dict String
filters params =
    let f = given params filter_keys [] in if only_open params then assign "open" "true" f else f

module _ (number : String → ℕ) (show : ℕ → String) where
  unfoldable pub offset : Dict String → ℕ
  offset params = elim (lookup "offset" params) [ none ↦ 0 | some v ↦ number v ]

  -- the query of the page; `encode` is the browser's `URLSearchParams.toString`
  unfoldable page_query : (Dict String → String) → String → Dict String → Query
  page_query encode space_id params =
      use_requirement_page encode space_id
        (assign "offset" (show (offset params)) (assign "limit" (show page_size) (filters params)))

  -- the buttons under the list; a button that is disabled does nothing
  unfoldable pub previous : Dict String → Dict String
  previous params =
      if offset params == 0
      then params
      else set_param "offset" (show (offset params - page_size)) params

  unfoldable pub next : ℕ → Dict String → Dict String
  next total params =
      if leb total (offset params + page_size)
      then params
      else set_param "offset" (show (offset params + page_size)) params

  -- the range that the page says it shows
  unfoldable shown_range : ℕ → Dict String → ℕ × ℕ
  shown_range total params = (offset params + 1, min (offset params + page_size) total)

-- `if (value) p.set(key, value); else p.delete(key);`
abbrev pub set_value : String → Option String → Dict String → Dict String
set_value key none params = delete_param key params
set_value key (some v) params = set_param key v params

-- `setFilter`
unfoldable pub set_filter : String → Option String → Dict String → Dict String
set_filter key value params = delete_param "offset" (set_value key (truthy value) params)

-- `sortBy`
unfoldable pub sort_by : String → Dict String → Dict String
sort_by key params =
    let current = or_else (lookup "sort" params) "updated" in
    let asc = current == key && not (or_else (lookup "dir" params) "" == "asc") in
    set_param "dir" (if asc then "asc" else "desc") (set_param "sort" key params)

pub data AriaSort : Type 0 where
  ascending descending unsorted : AriaSort

-- `aria-sort` of `SortHeader`
unfoldable pub aria_sort : String → Dict String → AriaSort
aria_sort k params =
    if or_else (lookup "sort" params) "updated" == k
    then if or_else (lookup "dir" params) "" == "asc" then ascending else descending
    else unsorted

-- the filters that are set, but for the order
abbrev active_filters : Dict String → List String
active_filters params =
    keep (λ k. is_some (truthy (lookup k params)) && not (k == "sort") && not (k == "dir"))
      filter_keys

-- what is sent when the view is saved: `f[k] = v` for each pair but the offset
unfoldable pub view_filters : Dict String → Dict String → Dict String
view_filters [] f = f
view_filters ((k, v) ∷ params) f = view_filters params (if k == "offset" then f else assign k v f)

unfoldable pub save_view : Dict String → Dict String
save_view params = view_filters params []

-- the address of a saved view
abbrev pub apply_view : SavedView → Dict String
apply_view view = view.filters

-- `toggleColumn`
unfoldable toggle_column : OptionalColumn → List OptionalColumn → List OptionalColumn
toggle_column c cols =
    if elem (column_name c) (map column_name cols)
    then keep (λ x. not (same_column x c)) cols
    else cols ++ c ∷ []

-- `allSelected`; `selected` is a set, in the order of insertion
unfoldable pub all_selected : List RequirementSummary → List String → Bool
all_selected items selected = ltb 0 (length items) && all (λ i. elem i.id selected) items

-- `new Set(ids)`
abbrev pub set_of : List String → List String → List String
set_of [] s = s
set_of (id ∷ ids) s = set_of ids (add id s)

-- the box in the head of the table
unfoldable pub toggle_all : List RequirementSummary → List String → List String
toggle_all items selected =
    if all_selected items selected then [] else set_of (map (λ i. i.id) items) []

-- the box of a row
unfoldable pub toggle_one : String → List String → List String
toggle_one id selected =
    if elem id selected then keep (λ x. not (x == id)) selected else add id selected

-- The body of a bulk edit, and what of it the five selects fill in.
data BulkEdit : Type 0 where
  to_status : String → BulkEdit
  priority : String → BulkEdit
  milestone_id : Option String → BulkEdit
  add_label : String → BulkEdit
  add_member : String → BulkEdit

record Bulk : Type 0 where
  pub ids : List String
  pub edit : BulkEdit

data BulkSelect : Type 0 where
  status_select priority_select milestone_select label_select member_select : BulkSelect

abbrev bulk_edit : BulkSelect → String → BulkEdit
bulk_edit status_select v = to_status v
bulk_edit priority_select v = priority v
bulk_edit milestone_select v = milestone_id (if v == "none" then none else some v)
bulk_edit label_select v = add_label v
bulk_edit member_select v = add_member v

-- `onChange` of the selects of the bulk edits: nothing is sent for the empty choice
unfoldable choose_bulk : BulkSelect → String → List String → Option Bulk
choose_bulk select value selected =
    if value == "" then none else some (record { ids = selected; edit = bulk_edit select value })

-- `runBulk` once it has ended
abbrev bulk_ended : Bool → List String → List String
bulk_ended success selected = if success then [] else selected
