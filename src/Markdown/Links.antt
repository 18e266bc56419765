-- ===== src/Markdown/Links.antt =====
-- That a reference of a text, through web/src/components/markdown/remarkRefs.ts and
-- web/src/components/markdown/Markdown.tsx, shows what the server answered for its key.
use quagenticus.Base.{
  String, Bool, false, Option, none, some, [], ◌∷◌, ◌++◌, ◌==◌, ◌||◌, ◌≡◌, refl, sym, ap, ◌∙◌,
  nat_eq, Text, codes, arith,
}
use mathlib.Core.Path.{subst}
use quagenticus.Refs.{RefToken, requirement, wikilink, user}
use quagenticus.Api.Results.{ResolvedRefs}
use quagenticus.Markdown.{
  url_of, colon, split, url_transform, requirement_anchor, document_anchor, mention,
  find_requirement, find_document, find_user, Anchor, Link, reference, reference_link, anchor_of,
  anchor_from, ref_anchor, md_link,
}

abbrev pub has_colon : Text → Bool
has_colon [] = false
has_colon (c ∷ s) = c == colon || has_colon s

split-whole : (s : Text) → has_colon s ≡ false → split s ≡ s ∷ []
split-whole [] h = refl
split-whole (c ∷ s) h = ground (arith, h, split-whole s)

split-append : (p s : Text) → has_colon p ≡ false → split (p ++ colon ∷ s) ≡ p ∷ split s
split-append [] s h = refl
split-append (c ∷ p) s h = ground (arith, h, split-append p s)

split-three :
    (a b s : Text)
    → has_colon a ≡ false
    → has_colon b ≡ false
    → has_colon s ≡ false
    → split (a ++ colon ∷ (b ++ colon ∷ s)) ≡ a ∷ b ∷ s ∷ []
split-three a b s h k l =
    split-append a (b ++ colon ∷ s) h
    ∙ ap (λ p. a ∷ p) (split-append b s k ∙ ap (λ p. b ∷ p) (split-whole s l))

-- what a token is shown as, if it names `key`
abbrev pub anchor_for : String → Option ResolvedRefs → String → RefToken → Anchor
anchor_for space_id refs key (RefToken.text value) = mention none
anchor_for space_id refs key (requirement raw k) = requirement_anchor (find_requirement refs key)
anchor_for space_id refs key (wikilink raw target alias) =
    document_anchor space_id (find_document refs key)
anchor_for space_id refs key (user raw handle) = mention (find_user refs key)

abbrev pub IsNamed : Text → RefToken → Type 0
IsNamed key (RefToken.text value) = ⊥
IsNamed key (requirement raw k) = k ≡ key
IsNamed key (wikilink raw target alias) = target ≡ key
IsNamed key (user raw handle) = handle ≡ key

some_inj : {A : Type 0} {x y : A} → some x ≡ some y → x ≡ y
some_inj h = cc h

module _ (encode : Text → Text) (decode : Text → Option String) (other : Text → Text)
    (space_id : String) (refs : Option ResolvedRefs) (key : String)
    (h : has_colon (encode (codes key)) ≡ false) (d : decode (encode (codes key)) ≡ some key) where
  abbrev shows : Text → Option Link
  shows url = md_link decode space_id refs (url_transform other url)

  -- a reference with the kind `kind`
  link_lem :
      (kind : Text)
      → has_colon kind ≡ false
      → reference_link (
          ref_anchor decode space_id refs
            (codes "qg-ref" ++ colon ∷ (kind ++ colon ∷ encode (codes key))))
        ≡ some (reference (anchor_of space_id refs kind key))
  unfolding ref_anchor
  link_lem kind k =
      ap (λ parts. reference_link (anchor_from decode space_id refs parts))
        (split-three (codes "qg-ref") kind (encode (codes key)) refl k h)
      ∙ ap
          (λ o.
            reference_link
              (elim o [ none ↦ none | some c ↦ some (anchor_of space_id refs kind c) ]))
          d

  requirement_lem :
      shows (codes "qg-ref:requirement:" ++ encode (codes key))
      ≡ some (reference (requirement_anchor (find_requirement refs key)))
  unfolding md_link
  requirement_lem = link_lem (codes "requirement") refl

  wikilink_lem :
      shows (codes "qg-ref:wikilink:" ++ encode (codes key))
      ≡ some (reference (document_anchor space_id (find_document refs key)))
  unfolding md_link
  wikilink_lem = link_lem (codes "wikilink") refl

  user_lem :
      shows (codes "qg-ref:user:" ++ encode (codes key))
      ≡ some (reference (mention (find_user refs key)))
  unfolding md_link
  user_lem = link_lem (codes "user") refl

  -- For every token with the key `key`, the link that is made of it is transformed to itself and shows what the
  -- server has answered for `key` among the requirements, the documents or the users, by the kind of the token;
  -- if `encode` leaves no colon in the key, and `decode` undoes `encode` on it.
  pub md_link-url_of :
      (t : RefToken) (url : Text)
      → IsNamed (codes key) t
      → url_of encode t ≡ some url
      → md_link decode space_id refs (url_transform other url)
        ≡ some (reference (anchor_for space_id refs key t))
  md_link-url_of (RefToken.text value) url n e = absurd n
  md_link-url_of (requirement raw k) url n e =
      subst (λ u. shows u ≡ some (reference (requirement_anchor (find_requirement refs key))))
        (ap (λ c. codes "qg-ref:requirement:" ++ encode c) (sym n) ∙ some_inj e) requirement_lem
  md_link-url_of (wikilink raw target alias) url n e =
      subst (λ u. shows u ≡ some (reference (document_anchor space_id (find_document refs key))))
        (ap (λ c. codes "qg-ref:wikilink:" ++ encode c) (sym n) ∙ some_inj e) wikilink_lem
  md_link-url_of (user raw handle) url n e =
      subst (λ u. shows u ≡ some (reference (mention (find_user refs key))))
        (ap (λ c. codes "qg-ref:user:" ++ encode c) (sym n) ∙ some_inj e) user_lem
