-- ===== src/DocumentsList.antt =====
-- web/src/pages/DocumentsList.tsx: the views of the documents of a space, which live in the address, the
-- path to the current folder, and what the buttons ask for. `find` takes the first folder with an id.
pub mod Breadcrumbs
use quagenticus.Base.{
  ℕ, zero, suc, String, Bool, true, false, Option, none, some, List, [], ◌∷◌, ◌==◌, ◌&&◌, not,
  string_eq, if◌then◌else◌, or_else, keep, find, any, Dict, lookup, assign, set_param, delete_param,
}
use quagenticus.BoardPage.{truthy}
use quagenticus.Api.Documents.{DocumentSummary, DocType, folder, note, wiki, requirement, template}
use quagenticus.Cache.{Query}
use quagenticus.Hooks.Documents.{use_documents}

-- `folder`, `view` and `type`
abbrev pub folder_of : Dict String → String
folder_of params = or_else (lookup "folder" params) ""

abbrev view_of : Dict String → String
view_of params = or_else (lookup "view" params) "folder"

abbrev type_of : Dict String → String
type_of params = or_else (lookup "type" params) ""

-- an entry of the filters, where there is one
abbrev pub entry : String → Option String → Dict String → Dict String
entry key none filters = filters
entry key (some v) filters = (key, v) ∷ filters

abbrev parent_filter : Dict String → String → Option String
parent_filter params q =
    if view_of params == "folder" && q == ""
    then some (or_else (truthy (some (folder_of params))) "root")
    else none

-- the filters of the list; an entry that is `undefined` is none
unfoldable pub list_filters : Dict String → String → Dict String
list_filters params q =
    let view = view_of params in
    entry "parent_id" (parent_filter params q) (
      entry "archived" (if view == "archived" then some "true" else none) (
        entry "favorites" (if view == "favorites" then some "true" else none)
          (entry "type" (truthy (some (type_of params))) (entry "q" (truthy (some q)) []))))

-- the two queries of the page
abbrev folders_query : (Dict String → String) → String → Query
folders_query encode space_id = use_documents encode space_id (("type", "folder") ∷ [])

abbrev list_query : (Dict String → String) → String → Dict String → String → Query
list_query encode space_id params q = use_documents encode space_id (list_filters params q)

abbrev pub has_id : Option String → DocumentSummary → Bool
has_id none f = false
has_id (some id) f = f.id == id

-- `folders.find((x) => x.id === f.parent_id)`
abbrev pub parent_of : List DocumentSummary → DocumentSummary → Option DocumentSummary
parent_of folders f = find (has_id f.parent_id) folders

-- `currentFolder`
abbrev pub current_folder : Dict String → List DocumentSummary → Option DocumentSummary
current_folder params folders = find (has_id (some (folder_of params))) folders

-- The loop of `breadcrumbs`, on fuel: `none` if it has not ended.
unfoldable pub climb :
    ℕ
    → List DocumentSummary
    → Option DocumentSummary
    → List DocumentSummary
    → Option (List DocumentSummary)
climb n folders none out = some out
climb zero folders (some f) out = none
climb (suc n) folders (some f) out = climb n folders (parent_of folders f) (f ∷ out)

-- `breadcrumbs`
abbrev pub breadcrumbs : ℕ → Dict String → List DocumentSummary → Option (List DocumentSummary)
breadcrumbs n params folders = climb n folders (current_folder params folders) []

-- `setView`
abbrev set_view : String → Dict String → Dict String
set_view v extra = ("view", v) ∷ extra

abbrev pub open_folder : String → Dict String
open_folder id = set_view "folder" (("folder", id) ∷ [])

-- the choice of a type, which keeps the rest of the address
abbrev set_type : String → Dict String → Dict String
set_type value params =
    if value == "" then delete_param "type" params else set_param "type" value params

-- The body of the request for a new document; `title` is what the dialog resolves to.
record NewDocument : Type 0 where
  pub doc_type : DocType
  pub title : String
  pub parent_id : Option String

abbrev new_parent : Dict String → Option String
new_parent params = if view_of params == "folder" then truthy (some (folder_of params)) else none

-- `newDoc`
abbrev new_doc : DocType → Option String → Dict String → Option NewDocument
new_doc doc_type none params = none
new_doc doc_type (some title) params =
    some (record { doc_type = doc_type; title = title; parent_id = new_parent params })

-- Where a document leads once it is made: to the view of the folder, or to its page.
data Target : Type 0 where
  to_view : Dict String → Target
  to_page : String → Target

abbrev after_new : DocType → String → Target
after_new folder id = to_view (open_folder id)
after_new note id = to_page id
after_new wiki id = to_page id
after_new requirement id = to_page id
after_new template id = to_page id

-- `f.parent_id === parentId`
abbrev same_parent : Option String → Option String → Bool
same_parent none none = true
same_parent none (some _) = false
same_parent (some _) none = false
same_parent (some a) (some b) = a == b

-- the children of a folder in the tree, or of the top, and whether it has any
abbrev children_of : List DocumentSummary → Option String → List DocumentSummary
children_of folders parent = keep (λ f. same_parent f.parent_id parent) folders

abbrev has_children : List DocumentSummary → DocumentSummary → Bool
has_children folders f = any (λ x. same_parent x.parent_id (some f.id)) folders

-- whether a folder of the tree is open: as it was set, or else if it is the current one
abbrev is_open : Dict Bool → String → String → Bool
is_open set current id = or_else (lookup id set) (current == id)

abbrev toggle_open : Dict Bool → String → String → Dict Bool
toggle_open set current id = assign id (not (is_open set current id)) set

-- the folders that a document may be moved to, besides the top
abbrev move_targets : DocumentSummary → List DocumentSummary → List DocumentSummary
move_targets moving = keep (λ f. not (f.id == moving.id))
