-- ===== src/Tests/Links.antt =====
-- A rendered text with references, and the order of the statuses.
use quagenticus.Base.{
  String, false, Option, none, some, List, [], ◌∷◌, ◌≡◌, refl, ◌==◌, nat_eq, if◌then◌else◌, Text,
  codes,
}
use quagenticus.Refs.{RefToken, requirement, text}
use quagenticus.Api.Results.{ResolvedRequirement, ResolvedRefs}
use quagenticus.Markdown.{
  leaf, node, nil, cons, walk, md_link, ref_anchor, url_transform, reference, requirement_link,
}
use quagenticus.Markdown.Links.{md_link-url_of}
use quagenticus.StatusesAdmin.{up, down, click}
use quagenticus.StatusesAdmin.Swaps.{click-swaps}

abbrev login : ResolvedRequirement
login = record {
  id = "r12";
  ref_key = "QG-12";
  title = "Login";
  space_id = "s";
  status_name = "";
  status_color = none;
  is_closed = false;
}

abbrev refs : ResolvedRefs
refs = record { requirements = ("QG-12", login) ∷ []; documents = []; users = [] }

abbrev unchanged : Text → Text
unchanged t = t

-- it knows the key, and throws for all else
abbrev decode_key : Text → Option String
decode_key [] = none
decode_key (c ∷ _) = if c == 81 then some "QG-12" else none

abbrev token : RefToken
token = requirement (codes "#12") (codes "QG-12")

abbrev tokens : Text → List RefToken
tokens t = text (codes "see ") ∷ token ∷ []

walked :
    walk tokens unchanged
      (node "paragraph" none none (cons (leaf "text" (some (codes "see #12")) none) nil))
    ≡ node "paragraph" none none (
        cons (leaf "text" (some (codes "see ")) none) (
          cons
            (node "link" none
              (some (codes "qg-ref:requirement:QG-12"))
              (cons (leaf "text" (some (codes "#12")) none) nil))
            nil))
walked = refl

-- A link that is written by hand with a malformed key throws when it is rendered.
thrown : md_link decode_key "s" (some refs) (codes "qg-ref:user:%FF") ≡ none
unfolding md_link ref_anchor
thrown = refl

md_link-url_of_example :
    md_link decode_key "s" (some refs) (url_transform unchanged (codes "qg-ref:requirement:QG-12"))
    ≡ some (reference (requirement_link "/spaces/s/requirements/r12" login))
md_link-url_of_example =
    md_link-url_of unchanged decode_key unchanged "s" (some refs) "QG-12" refl refl token
      (codes "qg-ref:requirement:QG-12") refl refl

click-swaps_example :
    (click ("todo" ∷ "doing" ∷ "review" ∷ "done" ∷ []) 1 down
      ≡ some ("todo" ∷ "review" ∷ "doing" ∷ "done" ∷ []))
    × (click ("todo" ∷ "doing" ∷ "review" ∷ "done" ∷ []) 2 up
        ≡ some ("todo" ∷ "review" ∷ "doing" ∷ "done" ∷ []))
click-swaps_example = click-swaps ("todo" ∷ []) ("done" ∷ []) "doing" "review"
