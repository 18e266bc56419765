-- ===== src/Refs/Trigger.antt =====
-- web/src/lib/refs.ts: the trigger of the suggestions right before the caret (`detectTrigger`) and what it
-- asks for (`suggestTypesFor`). The two patterns are written out as scans. `letter` stands for the classes
-- of letters and digits of Unicode (`\p{L}`, `\p{N}`), by code units: a query of letters outside the basic
-- plane is left out.
pub mod Laws
use quagenticus.Base.{
  ℕ, ◌+◌, ◌-◌, String, Bool, true, false, Option, none, some, List, [], ◌∷◌, ◌==◌, ◌&&◌, ◌||◌, not,
  nat_eq, leb, if◌then◌else◌, Text, codes, take, length, all, elem, newline,
}

pub data TriggerKind : Type 0 where
  hash at wiki : TriggerKind

pub record ActiveTrigger : Type 0 where
  pub kind : TriggerKind
  pub query : Text
  pub start : ℕ
  pub end : ℕ

-- `[^\]\n]`
abbrev in_wiki : ℕ → Bool
in_wiki c = not (c == 93) && not (c == newline)

-- `([^\]\n]{0,60})$` behind the two brackets
abbrev wiki_query : Text → Option Text
wiki_query s = if all in_wiki s && leb (length s) 60 then some s else none

abbrev pub first_of {ℓ} : {A : Type ℓ} → Option A → Option A → Option A
first_of none b = b
first_of (some a) b = some a

-- the pattern at the head of a text
abbrev pub wiki_here : Text → Option Text
wiki_here [] = none
wiki_here (c ∷ []) = none
wiki_here (c ∷ d ∷ s) = if c == 91 && d == 91 then wiki_query s else none

-- its first match: the query
abbrev pub find_wiki : Text → Option Text
find_wiki [] = none
find_wiki (c ∷ s) = let later = find_wiki s in first_of (wiki_here (c ∷ s)) later

-- `\s`
abbrev is_space : ℕ → Bool
is_space c =
    (leb 9 c && leb c 13)
    || c == 32
    || c == 160
    || c == 5760
    || (leb 8192 c && leb c 8202)
    || c == 8232
    || c == 8233
    || c == 8239
    || c == 8287
    || c == 12288
    || c == 65279

-- `[\s([{>,;:!¡¿?]`
abbrev pub boundary : ℕ → Bool
boundary c = is_space c || elem c (codes "([{>,;:!¡¿?")

pub record Mark : Type 0 where
  pub sign : ℕ
  pub query : Text

module _ (letter : ℕ → Bool) where
  -- `[\p{L}\p{N}._-]`
  abbrev in_word : ℕ → Bool
  in_word c = letter c || elem c (codes "._-")

  -- `([#@])([\p{L}\p{N}._-]{0,40})$` at the head of a text
  abbrev pub mark_here : Text → Option Mark
  mark_here [] = none
  mark_here (c ∷ s) =
      if elem c (codes "#@") && all in_word s && leb (length s) 40
      then some (record { sign = c; query = s })
      else none

  -- behind a boundary
  abbrev pub mark_behind : Text → Option Mark
  mark_behind [] = none
  mark_behind (c ∷ s) =
      let later = mark_behind s in first_of (if boundary c then mark_here s else none) later

  -- at the start of the text, or behind a boundary
  abbrev pub find_mark : Text → Option Mark
  find_mark s = first_of (mark_here s) (mark_behind s)

  abbrev pub kind_of : ℕ → TriggerKind
  kind_of sign = if sign == 35 then hash else at

  abbrev pub mark_trigger : ℕ → Option Mark → Option ActiveTrigger
  mark_trigger caret none = none
  mark_trigger caret (some m) = some (record {
    kind = kind_of m.sign;
    query = m.query;
    start = caret - length m.query - 1;
    end = caret;
  })

  abbrev pub wiki_trigger : ℕ → Option Text → Option ActiveTrigger → Option ActiveTrigger
  wiki_trigger caret none other = other
  wiki_trigger caret (some q) other =
      some (record { kind = wiki; query = q; start = caret - (2 + length q); end = caret })

  -- `detectTrigger`; `before` is `value.slice(0, caret)`
  unfoldable pub detect_trigger : Text → ℕ → Option ActiveTrigger
  detect_trigger value caret =
      let before = take caret value in
      wiki_trigger caret (find_wiki before) (mark_trigger caret (find_mark before))

-- `/^\d/.test(query)`
abbrev starts_with_digit : Text → Bool
starts_with_digit [] = false
starts_with_digit (c ∷ s) = leb 48 c && leb c 57

-- `suggestTypesFor`
unfoldable suggest_types_for : ActiveTrigger → List String
suggest_types_for trigger = elim trigger.kind [
  | wiki ↦ "document" ∷ "requirement" ∷ []
  | hash ↦ "requirement" ∷ []
  | at ↦ if starts_with_digit trigger.query then "requirement" ∷ [] else "user" ∷ "requirement" ∷ []
]
