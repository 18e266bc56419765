-- ===== src/Tests/Folders.antt =====
-- The folders of web/src/pages/DocumentsList.tsx, two deep.
use quagenticus.Base.{
  ℕ, ◌<◌, String, false, Option, none, some, List, [], ◌∷◌, ◌≡◌, refl, All, arith,
}
use quagenticus.Api.Documents.{DocumentSummary, folder}
use quagenticus.DocumentsList.{climb, breadcrumbs, current_folder, open_folder, list_filters}
use quagenticus.DocumentsList.Breadcrumbs.{IsBelow, IsTrail, breadcrumbs-IsTrail}

abbrev folder_at : String → Option String → ℕ → DocumentSummary
folder_at id parent depth = record {
  id = id;
  space_id = "";
  parent_id = parent;
  doc_type = folder;
  ref_key = none;
  slug = "";
  title = "";
  version = 0;
  is_archived = false;
  archived_at = none;
  position = 0;
  depth = depth;
  word_count = 0;
  created_at = "";
  updated_at = "";
  creator_id = none;
  creator_name = none;
  updater_id = none;
  updater_name = none;
  excerpt = none;
  is_favorite = false;
  children_count = none;
  labels = [];
}

abbrev folders : List DocumentSummary
folders = folder_at "c" (some "b") 2 ∷ folder_at "a" none 0 ∷ folder_at "b" (some "a") 1 ∷ []

path_to_c :
    breadcrumbs 3 (open_folder "c") folders
    ≡ some (folder_at "a" none 0 ∷ folder_at "b" (some "a") 1 ∷ folder_at "c" (some "b") 2 ∷ [])
unfolding climb
path_to_c = refl

-- A folder that is its own parent, which the server does not allow, keeps the loop going.
loop : breadcrumbs 9 (open_folder "a") (folder_at "a" (some "a") 0 ∷ []) ≡ none
unfolding climb
loop = refl

search_filters : list_filters (open_folder "c") "x" ≡ ("q", "x") ∷ []
unfolding list_filters
search_filters = refl

some_inj : {a b : DocumentSummary} → some a ≡ some b → a ≡ b
some_inj h = cc h

folders-IsBelow : All (IsBelow folders) folders
folders-IsBelow = (
  λ p e. rw (← some_inj e) (omega arith),
  (λ p e. absurd (cc e), (λ p e. rw (← some_inj e) (omega arith), tt)),
)

c_is_shallow :
    (f : DocumentSummary) → current_folder (open_folder "c") folders ≡ some f → f.depth < 3
c_is_shallow f e = rw (← some_inj e) (omega arith)

breadcrumbs-IsTrail_example :
    (path : List DocumentSummary) × (breadcrumbs 3 (open_folder "c") folders ≡ some path)
    × IsTrail folders (current_folder (open_folder "c") folders) path
breadcrumbs-IsTrail_example =
    breadcrumbs-IsTrail folders (open_folder "c") 3 folders-IsBelow c_is_shallow
