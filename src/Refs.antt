-- ===== src/Refs.antt =====
-- web/src/lib/refs.ts: the tokens that `tokenizeRefs` makes of a text and of the matches of its pattern.
-- The matches are the regular-expression engine's and are an argument, as are `trim` and `to_lower`.
pub mod Lossless
pub mod Trigger
use quagenticus.Base.{
  ℕ, ◌+◌, Bool, true, false, Option, none, some, List, [], ◌∷◌, ◌++◌, ◌==◌, ◌&&◌, ◌||◌, nat_eq,
  if◌then◌else◌, Text, slice, take, drop, length,
}

pub data RefToken : Type 0 where
  text : Text → RefToken
  requirement : Text → Text → RefToken
  wikilink : Text → Text → Option Text → RefToken
  user : Text → Text → RefToken

-- The groups of a match, by the alternative of the pattern that matched: a target and an alias; a
-- prefix, a key and a number, behind "#" or "@" or with the key in front; a prefix and a handle.
pub data Groups : Type 0 where
  wiki : Text → Option Text → Groups
  marked : Text → Option Text → Text → Groups
  keyed : Text → Text → Text → Groups
  mention : Text → Text → Groups

pub record Match : Type 0 where
  pub index : ℕ
  pub whole : Text
  pub groups : Groups

abbrev pub hyphen : ℕ
hyphen = 45

abbrev pub at_sign : ℕ
at_sign = 64

-- the last token of `out` and the text behind it
abbrev pub merge : RefToken → Text → List RefToken
merge (text u) value = text (u ++ value) ∷ []
merge (requirement raw key) value = requirement raw key ∷ text value ∷ []
merge (wikilink raw target alias) value = wikilink raw target alias ∷ text value ∷ []
merge (user raw handle) value = user raw handle ∷ text value ∷ []

abbrev pub append_text : Text → List RefToken → List RefToken
append_text value [] = text value ∷ []
append_text value (t ∷ []) = merge t value
append_text value (t ∷ u ∷ out) = t ∷ append_text value (u ∷ out)

-- `push`
abbrev pub push : Text → List RefToken → List RefToken
push [] out = out
push (c ∷ value) out = append_text (c ∷ value) out

abbrev pub is_punctuation : ℕ → Bool
is_punctuation c = c == 46 || c == 95 || c == hyphen

abbrev pub is_empty : Text → Bool
is_empty [] = true
is_empty (_ ∷ _) = false

-- the loop on a handle's last character: `handle` and `trailing`
abbrev pub split_trailing : Text → Text × Text
split_trailing [] = ([], [])
split_trailing (c ∷ h) =
    let (handle, trailing) = split_trailing h in
    if is_empty handle && is_punctuation c then ([], c ∷ trailing) else (c ∷ handle, trailing)

-- the key of a reference
abbrev key_of : Option Text → Text → Text
key_of none num = num
key_of (some []) num = num
key_of (some (c ∷ key)) num = (c ∷ key) ++ hyphen ∷ num

abbrev given : Option Text → Option Text
given none = none
given (some []) = none
given (some (c ∷ s)) = some (c ∷ s)

module _ (trim to_lower : Text → Text) (value : Text) where
  abbrev trim_alias : Option Text → Option Text
  trim_alias none = none
  trim_alias (some alias) = given (some (trim alias))

  -- the tokens of one match, behind `out`, from `last` on
  unfoldable pub tokens_of : Match → Groups → ℕ → List RefToken → List RefToken
  tokens_of m (wiki target alias) last out =
      push (slice value last m.index) out ++ wikilink m.whole (trim target) (trim_alias alias) ∷ []
  tokens_of m (marked prefix key num) last out =
      push (slice value last (m.index + length prefix)) out
      ++ requirement (drop (length prefix) m.whole) (key_of key num) ∷ []
  tokens_of m (keyed prefix key num) last out =
      push (slice value last (m.index + length prefix)) out
      ++ requirement (key ++ hyphen ∷ num) (key ++ hyphen ∷ num) ∷ []
  tokens_of m (mention prefix name) last out =
      let (handle, trailing) = split_trailing name in
      push trailing (
        push (slice value last (m.index + length prefix)) out
        ++ user (at_sign ∷ handle) (to_lower handle) ∷ [])

  -- the loop over the matches, and the rest of the text
  unfoldable pub tokenize_from : List Match → ℕ → List RefToken → List RefToken
  tokenize_from [] last out = push (drop last value) out
  tokenize_from (m ∷ matches) last out =
      tokenize_from matches (m.index + length m.whole) (tokens_of m m.groups last out)

  unfoldable pub tokenize_refs : List Match → List RefToken
  tokenize_refs matches = tokenize_from matches 0 []
