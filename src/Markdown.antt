-- ===== src/Markdown.antt =====
-- The references in a rendered text: web/src/components/markdown/remarkRefs.ts, which makes links of the
-- tokens of the text nodes, and the links of web/src/components/markdown/Markdown.tsx, which show them.
-- `tokenize` is `tokenizeRefs` of web/src/lib/refs.ts with the engine of its pattern; `encode` and `decode` are
-- the browser's `encodeURIComponent` and `decodeURIComponent`, which throws for a malformed text: `none`. The
-- renderer between the two passes a link on as it is. A record of the server has no keys but its own here.
pub mod Links
use quagenticus.Base.{
  ℕ, String, Bool, true, false, Option, none, some, List, [], ◌∷◌, ◌++◌, ◌==◌, ◌&&◌, ◌||◌, not,
  nat_eq, string_eq, or_else, if◌then◌else◌, get_elem?, lookup, elem, Text, codes, drop, length,
}
use quagenticus.Refs.{RefToken, text, requirement, wikilink, user}
use quagenticus.Api.Documents.{DocType}
use quagenticus.Api.Results.{ResolvedRequirement, ResolvedDocument, ResolvedUser, ResolvedRefs}
use quagenticus.Cache.{template}

-- `MdNode`: a leaf is a node without `children`
mutual
  pub data Node : Type 0 where
    leaf : String → Option Text → Option Text → Node
    node : String → Option Text → Option Text → Nodes → Node

  pub data Nodes : Type 0 where
    nil : Nodes
    cons : Node → Nodes → Nodes

abbrev append : Nodes → Nodes → Nodes
append nil ns = ns
append (cons n ms) ns = cons n (append ms ns)

-- `SKIP`
abbrev skipped : List String
skipped = "code" ∷ "inlineCode" ∷ "link" ∷ "linkReference" ∷ "definition" ∷ "html" ∷ "image" ∷ []

abbrev text_node : Text → Node
text_node value = leaf "text" (some value) none

abbrev link_node : Text → Text → Node
link_node url value = node "link" none (some url) (cons (text_node value) nil)

-- the `url` of the link of a token
abbrev pub url_of : (Text → Text) → RefToken → Option Text
url_of encode (text value) = none
url_of encode (requirement raw key) = some (codes "qg-ref:requirement:" ++ encode key)
url_of encode (wikilink raw target alias) = some (codes "qg-ref:wikilink:" ++ encode target)
url_of encode (user raw handle) = some (codes "qg-ref:user:" ++ encode handle)

-- the text that is shown for it
abbrev shown : RefToken → Text
shown (text value) = value
shown (requirement raw key) = raw
shown (wikilink raw target alias) = or_else alias target
shown (user raw handle) = raw

abbrev node_of : (Text → Text) → RefToken → Node
node_of encode t = elim (url_of encode t) [
  | none ↦ text_node (shown t)
  | some url ↦ link_node url (shown t)
]

abbrev nodes_of : (Text → Text) → List RefToken → Nodes
nodes_of encode [] = nil
nodes_of encode (t ∷ ts) = cons (node_of encode t) (nodes_of encode ts)

-- the nodes that stand for a text node
abbrev linked : (Text → Text) → Node → List RefToken → Nodes
linked encode child (text value ∷ []) = cons child nil
linked encode child ts = nodes_of encode ts

abbrev given_text : String → Option Text → Option Text
given_text type none = none
given_text type (some []) = none
given_text type (some (c ∷ value)) = if type == "text" then some (c ∷ value) else none

-- `child.type === 'text' && child.value`
abbrev value_of : Node → Option Text
value_of (leaf type value url) = given_text type value
value_of (node type value url children) = given_text type value

-- `walk`, on a node and on its children
module _ (tokenize : Text → List RefToken) (encode : Text → Text) where
  abbrev mutual
    pub walk : Node → Node
    walk (leaf type value url) = leaf type value url
    walk (node type value url children) =
        let next = walk_all children in
        node type value url (if elem type skipped then children else next)

    walk_all : Nodes → Nodes
    walk_all nil = nil
    walk_all (cons child rest) =
        let walked = walk child in
        let others = walk_all rest in
        append
          (elim (value_of child) [
            | none ↦ cons walked nil
            | some value ↦ linked encode child (tokenize value)
          ])
          others

abbrev pub colon : ℕ
colon = 58

abbrev same_text : Text → Text → Bool
same_text [] [] = true
same_text [] (_ ∷ _) = false
same_text (_ ∷ _) [] = false
same_text (c ∷ s) (d ∷ t) = c == d && same_text s t

-- `s.startsWith(p)`
abbrev starts_with : Text → Text → Bool
starts_with [] s = true
starts_with (_ ∷ _) [] = false
starts_with (c ∷ p) (d ∷ s) = c == d && starts_with p s

abbrev to_first : ℕ → List Text → List Text
to_first c [] = []
to_first c (part ∷ parts) = (c ∷ part) ∷ parts

-- `href.split(':')`
abbrev pub split : Text → List Text
split [] = [] ∷ []
split (c ∷ s) = let parts = split s in if c == colon then [] ∷ parts else to_first c parts

-- `urlTransform`; `other` is the transformation that the renderer has for other links
abbrev pub url_transform : (Text → Text) → Text → Text
url_transform other url =
    if starts_with (codes "qg-ref:") url || starts_with (codes "attachment:") url
    then url
    else other url

-- What `RefAnchor` shows.
pub data Anchor : Type 0 where
  missing_requirement : Anchor
  requirement_link : String → ResolvedRequirement → Anchor
  broken_document : Anchor
  document_link : String → ResolvedDocument → Anchor
  mention : Option ResolvedUser → Anchor

abbrev pub requirement_anchor : Option ResolvedRequirement → Anchor
requirement_anchor none = missing_requirement
requirement_anchor (some r) =
    requirement_link (template ("/spaces/" ∷ r.space_id ∷ "/requirements/" ∷ r.id ∷ [])) r

abbrev space_of : String → String → String
space_of space_id other = if space_id == "" then other else space_id

abbrev document_path : String → DocType → ResolvedDocument → String
document_path space_id DocType.requirement d =
    template ("/spaces/" ∷ d.space_id ∷ "/requirements/" ∷ d.id ∷ [])
document_path space_id _ d =
    template ("/spaces/" ∷ space_of space_id d.space_id ∷ "/docs/" ∷ d.id ∷ [])

abbrev pub document_anchor : String → Option ResolvedDocument → Anchor
document_anchor space_id none = broken_document
document_anchor space_id (some d) = document_link (document_path space_id d.doc_type d) d

abbrev pub find_requirement : Option ResolvedRefs → String → Option ResolvedRequirement
find_requirement none key = none
find_requirement (some refs) key = lookup key refs.requirements

abbrev pub find_document : Option ResolvedRefs → String → Option ResolvedDocument
find_document none key = none
find_document (some refs) key = lookup key refs.documents

abbrev pub find_user : Option ResolvedRefs → String → Option ResolvedUser
find_user none key = none
find_user (some refs) key = lookup key refs.users

abbrev pub anchor_of : String → Option ResolvedRefs → Text → String → Anchor
anchor_of space_id refs kind key =
    if same_text kind (codes "requirement")
    then requirement_anchor (find_requirement refs key)
    else if same_text kind (codes "wikilink")
    then document_anchor space_id (find_document refs key)
    else mention (find_user refs key)

-- `RefAnchor`, from the parts of its `href` on
abbrev pub anchor_from :
    (Text → Option String) → String → Option ResolvedRefs → List Text → Option Anchor
anchor_from decode space_id refs parts =
    let kind = or_else (get_elem? parts 1) [] in
    elim (decode (or_else (get_elem? parts 2) [])) [
      | none ↦ none
      | some key ↦ some (anchor_of space_id refs kind key)
    ]

unfoldable pub ref_anchor :
    (Text → Option String) → String → Option ResolvedRefs → Text → Option Anchor
ref_anchor decode space_id refs href = anchor_from decode space_id refs (split href)

-- What `MdLink` shows for a link: only its text, a reference, a file, a page of the client, or another page.
pub data Link : Type 0 where
  plain : Link
  reference : Anchor → Link
  attachment : Text → Link
  internal external : Text → Link

abbrev pub reference_link : Option Anchor → Option Link
reference_link none = none
reference_link (some a) = some (reference a)

-- `MdLink`
unfoldable pub md_link : (Text → Option String) → String → Option ResolvedRefs → Text → Option Link
md_link decode space_id refs href =
    if same_text href []
    then some plain
    else if starts_with (codes "qg-ref:") href
    then reference_link (ref_anchor decode space_id refs href)
    else if starts_with (codes "attachment:") href
    then some (attachment (drop 11 href))
    else if starts_with (codes "/") href && not (starts_with (codes "//") href)
    then some (internal href)
    else some (external href)
