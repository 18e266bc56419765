-- ===== src/MarkdownEditor.antt =====
-- web/src/components/editor/MarkdownEditor.tsx with SuggestionList.tsx: the text, the suggestions at the
-- caret and the uploads of the editor. Texts are UTF-16 code units. `selection` is that of the text area,
-- `none` where there is none.
pub mod Laws
use quagenticus.Base.{
  ℕ, ◌+◌, ◌-◌, ◌*◌, ◌%◌, suc, String, Bool, true, false, Option, none, some, List, [], ◌∷◌, ◌++◌,
  ◌==◌, ◌&&◌, not, nat_eq, string_eq, ltb, leb, if◌then◌else◌, Text, codes, take, drop, length,
  get_elem?, newline, keep, map, or_else, is_some,
}
use quagenticus.BoardPage.{strip_prefix, truthy}
use quagenticus.Cache.{template}
use quagenticus.Refs.Trigger.{ActiveTrigger}
use quagenticus.MarkdownToolbar.{ToolbarAction, Applied, apply_action}

pub data SuggestKind : Type 0 where
  requirement document user : SuggestKind

-- `SuggestItem` of lib/api.ts
pub record SuggestItem : Type 0 where
  pub kind : SuggestKind
  pub id : String
  pub ref_key : Option Text
  pub title : Text
  pub subtitle : Option Text
  pub space_id : String
  pub score : ℕ

-- `${ref_key}` of what may be null
abbrev key_text : Option Text → Text
key_text o = or_else o (codes "null")

-- `suggestionInsertText`
abbrev pub suggestion_insert_text : SuggestItem → Text
suggestion_insert_text item = elim item.kind [
  | user ↦ codes "@" ++ key_text item.ref_key ++ codes " "
  | requirement ↦ codes "#" ++ key_text item.ref_key ++ codes " "
  | document ↦ codes "[[" ++ item.title ++ codes "]] "
]

-- the new text, and the selection that is set afterwards
pub record Edited : Type 0 where
  pub value : Text
  pub sel_start : ℕ
  pub sel_end : ℕ

abbrev start_of : Text → Option (ℕ × ℕ) → ℕ
start_of value none = length value
start_of value (some (start, end)) = start

abbrev end_of : Text → Option (ℕ × ℕ) → ℕ
end_of value none = length value
end_of value (some (start, end)) = end

-- a text in place of a part of another, with the caret behind it
abbrev pub replace : Text → ℕ → ℕ → Text → Edited
replace value start end text = record {
  value = take start value ++ (text ++ drop end value);
  sel_start = start + length text;
  sel_end = start + length text;
}

-- `insertAtCaret`
unfoldable insert_at_caret : Text → Option (ℕ × ℕ) → Text → Edited
insert_at_caret current selection text =
    replace current (start_of current selection) (end_of current selection) text

-- `onAction`
abbrev on_action : Text → Option (ℕ × ℕ) → ToolbarAction → Applied
on_action value selection = apply_action value (start_of value selection) (end_of value selection)

-- `items`: without the requirement that is edited
abbrev items_of : Option String → List SuggestItem → List SuggestItem
items_of none suggestions = suggestions
items_of (some exclude) suggestions = keep (λ s. not (s.id == exclude)) suggestions

abbrev pub pick_item : Text → Option ActiveTrigger → Option SuggestItem → Option Edited
pick_item value none item = none
pick_item value (some trigger) none = none
pick_item value (some trigger) (some item) =
    some (replace value trigger.start trigger.end (suggestion_insert_text item))

-- `pick`, with a text area; `none` where nothing is changed
unfoldable pub pick : Text → Option ActiveTrigger → List SuggestItem → ℕ → Option Edited
pick value trigger items index = pick_item value trigger (get_elem? items index)

-- What the keys do to the suggestions that are shown.
pub data Key : Type 0 where
  arrow_down arrow_up enter tab escape : Key

pub data Effect : Type 0 where
  move_to : ℕ → Effect
  pick_active : Effect
  close : Effect
  submit : Effect
  ignored : Effect

-- with suggestions
abbrev pub suggestion_key : ℕ → ℕ → Key → Effect
suggestion_key count active arrow_down = move_to ((active + 1) % count)
suggestion_key count active arrow_up = move_to ((active + count - 1) % count)
suggestion_key count active enter = pick_active
suggestion_key count active tab = pick_active
suggestion_key count active escape = close

-- without; `command` is the meta or the control key, `submits` whether there is an `onSubmit`
abbrev pub plain_key : Bool → Bool → Bool → Key → Effect
plain_key triggered command submits escape = if triggered then close else ignored
plain_key triggered command submits enter = if command && submits then submit else ignored
plain_key triggered command submits arrow_down = ignored
plain_key triggered command submits arrow_up = ignored
plain_key triggered command submits tab = ignored

-- `onKeyDown`
unfoldable pub on_key_down : Bool → ℕ → ℕ → Key → Bool → Bool → Effect
on_key_down triggered count active key command submits =
    if triggered && ltb 0 count
    then suggestion_key count active key
    else plain_key triggered command submits key

data UploadMode : Type 0 where
  staged direct no_upload : UploadMode

pub record File : Type 0 where
  pub name : String
  pub size : ℕ

-- A line of the uploads that are under way; the progress is what has been sent of what there is.
pub record Upload : Type 0 where
  pub key : String
  pub name : String
  pub size : ℕ
  pub progress : ℕ × ℕ

-- `maxUploadMb * 1024 * 1024`
abbrev max_bytes : ℕ → ℕ
max_bytes mb = mb * 1024 * 1024

-- `tooBig` and `ok`
unfoldable pub too_big : ℕ → List File → List File
too_big mb files = keep (λ f. ltb (max_bytes mb) f.size) files

unfoldable pub fitting : ℕ → List File → List File
fitting mb files = keep (λ f. leb f.size (max_bytes mb)) files

abbrev total_size : List File → ℕ
total_size [] = 0
total_size (f ∷ files) = f.size + total_size files

-- the name of an upload; `count_name` makes `${n} archivos`
abbrev upload_name : (ℕ → String) → List File → String
upload_name count_name (f ∷ []) = f.name
upload_name count_name files = count_name (length files)

unfoldable pub begin_upload : (ℕ → String) → String → List File → List Upload → List Upload
begin_upload count_name key ok uploads =
    uploads
    ++ record {
      key = key;
      name = upload_name count_name ok;
      size = total_size ok;
      progress = (0, 0);
    }
      ∷ []

-- `onProgress`
unfoldable pub on_progress : String → ℕ → ℕ → List Upload → List Upload
on_progress key loaded total uploads =
    map (λ x. if x.key == key then record x { progress = (loaded, total) } else x) uploads

-- the `finally`
unfoldable pub end_upload : String → List Upload → List Upload
end_upload key uploads = keep (λ x. not (x.key == key)) uploads

-- `uploadStaged` of hooks/useAttachments.ts
abbrev staged_path : String → Option String → String
staged_path space_id document_id = template (
    "/spaces/"
    ∷ space_id
    ∷ "/uploads"
    ∷ elim (truthy document_id) [ none ↦ "" | some id ↦ template ("?document_id=" ∷ id ∷ []) ]
    ∷ [])

-- Where the files are sent to, if anywhere.
abbrev upload_path : UploadMode → String → Option String → Option String
upload_path no_upload space_id document_id = none
upload_path direct space_id document_id = elim (truthy document_id) [
  | some id ↦ some (template ("/documents/" ∷ id ∷ "/attachments" ∷ []))
  | none ↦ some (staged_path space_id document_id)
]
upload_path staged space_id document_id = some (staged_path space_id document_id)

-- A file as the server has it, by texts.
pub record Uploaded : Type 0 where
  pub id : Text
  pub filename : Text
  pub content_type : String

abbrev link_of : Uploaded → Text
link_of f =
    (if is_some (strip_prefix "image/" f.content_type) then codes "!" else [])
    ++ codes "["
    ++ f.filename
    ++ codes "](attachment:"
    ++ f.id
    ++ codes ")"

-- `snippet`: `join('\n')`
abbrev snippet_of : List Uploaded → Text
snippet_of [] = []
snippet_of (f ∷ []) = link_of f
snippet_of (f ∷ g ∷ files) = link_of f ++ newline ∷ snippet_of (g ∷ files)

-- `value.endsWith('\n')`
abbrev ends_line : Text → Bool
ends_line [] = false
ends_line (c ∷ []) = c == newline
ends_line (c ∷ d ∷ s) = ends_line (d ∷ s)

-- what is inserted once the files are there
unfoldable pub upload_text : Text → List Uploaded → Text
upload_text value files =
    (if ltb 0 (length value) && not (ends_line value) then newline ∷ [] else [])
    ++ snippet_of files
    ++ newline ∷ []
