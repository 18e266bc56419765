-- ===== src/Refs/Lossless.antt =====
-- That `tokenizeRefs` of web/src/lib/refs.ts loses nothing of the text.
use quagenticus.Base.{
  ℕ, zero, suc, ◌+◌, ◌-◌, ◌≤◌, Bool, true, false, List, [], ◌∷◌, ◌++◌, append_assoc, append-nil,
  Text, slice, take, drop, length, length-append, take-append_le, drop-append_le, take-append-drop,
  ◌≡◌, refl, sym, ap, ◌∙◌, arith, ◌&&◌, if◌then◌else◌,
}
use quagenticus.Refs.{
  RefToken, text, requirement, wikilink, user, Groups, wiki, marked, keyed, mention, Match, hyphen,
  at_sign, merge, append_text, push, split_trailing, is_empty, is_punctuation, tokens_of,
  tokenize_from, tokenize_refs,
}

-- the characters of a token
abbrev pub raw_of : RefToken → Text
raw_of (text value) = value
raw_of (requirement raw key) = raw
raw_of (wikilink raw target alias) = raw
raw_of (user raw handle) = raw

abbrev pub join : List RefToken → Text
join [] = []
join (t ∷ out) = raw_of t ++ join out

join-append : (xs ys : List RefToken) → join (xs ++ ys) ≡ join xs ++ join ys
join-append [] ys = refl
join-append (t ∷ xs) ys = rw (join-append xs ys, append_assoc (raw_of t) (join xs) (join ys)) refl

join-merge : (t : RefToken) (value : Text) → join (merge t value) ≡ raw_of t ++ value
join-merge (text u) value = append-nil (u ++ value)
join-merge (requirement raw key) value = ap (raw ++◌) (append-nil value)
join-merge (wikilink raw target alias) value = ap (raw ++◌) (append-nil value)
join-merge (user raw handle) value = ap (raw ++◌) (append-nil value)

join-append_text :
    (value : Text) (out : List RefToken) → join (append_text value out) ≡ join out ++ value
join-append_text value [] = append-nil value
join-append_text value (t ∷ []) =
    join-merge t value ∙ ap (λ x. x ++ value) (sym (append-nil (raw_of t)))
join-append_text value (t ∷ u ∷ out) =
    ap (raw_of t ++◌) (join-append_text value (u ∷ out))
    ∙ sym (append_assoc (raw_of t) (join (u ∷ out)) value)

join-push : (value : Text) (out : List RefToken) → join (push value out) ≡ join out ++ value
join-push [] out = sym (append-nil (join out))
join-push (c ∷ value) out = join-append_text (c ∷ value) out

abbrev joined : Text × Text → Text
joined x = x.0 ++ x.1

split_cons :
    (c : ℕ) (a b h : Text) (p : Bool)
    → a ++ b ≡ h
    → joined (if is_empty a && p then ([], c ∷ b) else (c ∷ a, b)) ≡ c ∷ h
split_cons c [] b h true e = ap (c ∷◌) e
split_cons c [] b h false e = ap (c ∷◌) e
split_cons c (x ∷ a) b h p e = ap (c ∷◌) e

join-split_trailing : (h : Text) → (split_trailing h).0 ++ (split_trailing h).1 ≡ h
join-split_trailing [] = refl
join-split_trailing (c ∷ h) = split_cons c _ _ h (is_punctuation c) (join-split_trailing h)

take-nil : (n : ℕ) → take {A = ℕ} n [] ≡ []
take-nil zero = refl
take-nil (suc n) = refl

take_plus : (t : Text) (i k : ℕ) → take i t ++ take k (drop i t) ≡ take (i + k) t
take_plus t zero k = ap (λ n. take n t) (omega arith)
take_plus [] (suc i) k = take-nil k ∙ sym (take-nil (suc i + k))
take_plus (x ∷ t) (suc i) k =
    let n : suc (i + k) ≡ suc i + k = omega arith in
    ap (x ∷◌) (take_plus t i k) ∙ ap (λ n. take n (x ∷ t)) n

take-slice : (t : Text) (i j : ℕ) → i ≤ j → take i t ++ slice t i j ≡ take j t
take-slice t i j h = take_plus t i (j - i) ∙ ap (λ n. take n t) (omega (arith, h))

-- What the groups of a match say of the whole of it.
abbrev pub Spells : Groups → Text → Type 0
Spells (wiki target alias) w = Unit {0}
Spells (marked prefix key num) w = (rest : Text) × (w ≡ prefix ++ rest)
Spells (keyed prefix key num) w = w ≡ prefix ++ (key ++ hyphen ∷ num)
Spells (mention prefix name) w = w ≡ prefix ++ at_sign ∷ name

module _ (value : Text) where
  -- A match stands in the text at its index.
  pub record IsMatch (m : Match) : Type 0 where
    pub before : Text
    pub after : Text
    pub stands : value ≡ before ++ (m.whole ++ after)
    pub place : m.index ≡ length before
    pub spells : Spells m.groups m.whole

  -- The matches stand in the text one behind the other.
  abbrev pub Follow : ℕ → List Match → Type 0
  Follow last [] = Unit {0}
  Follow last (m ∷ matches) =
      (last ≤ m.index) × IsMatch m × Follow (m.index + length m.whole) matches

  -- Pushing the text up to the prefix of a match gives the text before it and the prefix.
  join-push_before :
      (a p r : Text) (last j : ℕ) (out : List RefToken)
      → value ≡ a ++ (p ++ r)
      → last ≤ j
      → j ≡ length a + length p
      → join out ≡ take last value
      → join (push (slice value last j) out) ≡ a ++ p
  join-push_before a p r last j out e h n k =
      join-push (slice value last j) out
      ∙ ap (λ x. x ++ slice value last j) k
      ∙ take-slice value last j h
      ∙ ap (take j) (e ∙ sym (append_assoc a p r))
      ∙ take-append_le j (a ++ p) r (omega (arith, n, length-append a p))

  -- The text before a match and the match are what is taken up to its end.
  take-match :
      (m : Match) (v : IsMatch m) → take (m.index + length m.whole) value ≡ v.before ++ m.whole
  take-match m v =
      ap (take (m.index + length m.whole)) (v.stands ∙ sym (append_assoc v.before m.whole v.after))
      ∙ take-append_le _ (v.before ++ m.whole) v.after
          (omega (arith, v.place, length-append v.before m.whole))

  module _ (trim to_lower : Text → Text) where
    -- Behind a prefix `p`, the token `t` and the text `u` that follows it spell the rest of the match.
    join-token :
        (a p r c : Text) (last j : ℕ) (out : List RefToken) (t : RefToken)
        → value ≡ a ++ ((p ++ r) ++ c)
        → last ≤ j
        → j ≡ length a + length p
        → join out ≡ take last value
        → raw_of t ≡ r
        → join (push (slice value last j) out ++ t ∷ []) ≡ a ++ (p ++ r)
    join-token a p r c last j out t e h n k q =
        join-append (push (slice value last j) out) (t ∷ [])
        ∙ ap (λ x. x ++ (raw_of t ++ []))
            (join-push_before a p (r ++ c) last j out (e ∙ ap (a ++◌) (append_assoc p r c)) h n k)
        ∙ ap (λ x. (a ++ p) ++ x) (append-nil (raw_of t) ∙ q)
        ∙ append_assoc a p r

    join-tokens_of :
        (m : Match) (g : Groups) (last : ℕ) (out : List RefToken) (v : IsMatch m)
        → Spells g m.whole
        → last ≤ m.index
        → join out ≡ take last value
        → join (tokens_of trim to_lower value m g last out) ≡ v.before ++ m.whole
    unfolding tokens_of
    join-tokens_of m (wiki target alias) last out v s h k =
        join-token v.before [] m.whole v.after last m.index out _ v.stands h
          (omega (arith, v.place)) k refl
    join-tokens_of m (marked prefix key num) last out v (rest, e) h k =
        join-token v.before prefix rest v.after last (m.index + length prefix) out _
          (v.stands ∙ ap (λ w. v.before ++ (w ++ v.after)) e) (omega (arith, h))
          (omega (arith, v.place)) k
          (ap (drop (length prefix)) e ∙ drop-append_le (length prefix) prefix rest refl)
        ∙ ap (v.before ++◌) (sym e)
    join-tokens_of m (keyed prefix key num) last out v e h k =
        join-token v.before prefix (key ++ hyphen ∷ num) v.after last (m.index + length prefix) out
          _ (v.stands ∙ ap (λ w. v.before ++ (w ++ v.after)) e) (omega (arith, h))
          (omega (arith, v.place)) k refl
        ∙ ap (v.before ++◌) (sym e)
    join-tokens_of m (mention prefix name) last out v e h k =
        let (handle, trailing) = split_trailing name in
        let front = prefix ++ at_sign ∷ handle in
        let whole : m.whole ≡ front ++ trailing =
          e
          ∙ ap (λ n. prefix ++ at_sign ∷ n) (sym (join-split_trailing name))
          ∙ sym (append_assoc prefix (at_sign ∷ handle) trailing) in
        join-push trailing _
        ∙ ap (λ x. x ++ trailing)
            (join-token v.before prefix (at_sign ∷ handle) (trailing ++ v.after) last
              (m.index + length prefix) out _
              (v.stands
                ∙ ap (λ w. v.before ++ (w ++ v.after)) whole
                ∙ ap (v.before ++◌) (append_assoc front trailing v.after))
              (omega (arith, h)) (omega (arith, v.place)) k refl)
        ∙ append_assoc v.before front trailing
        ∙ ap (v.before ++◌) (sym whole)

    join-tokenize_from :
        (matches : List Match) (last : ℕ) (out : List RefToken)
        → Follow last matches
        → join out ≡ take last value
        → join (tokenize_from trim to_lower value matches last out) ≡ value
    unfolding tokenize_from
    join-tokenize_from [] last out f k =
        join-push (drop last value) out
        ∙ ap (λ x. x ++ drop last value) k
        ∙ take-append-drop last value
    join-tokenize_from (m ∷ matches) last out (h, v, f) k =
        join-tokenize_from matches (m.index + length m.whole) _ f
          (join-tokens_of m m.groups last out v v.spells h k ∙ sym (take-match m v))

    -- The tokens of a text, joined, are the text again, whatever the matches of the pattern are, as
    -- long as they stand in the text one behind the other and their groups spell them.
    pub join-tokenize_refs :
        (matches : List Match)
        → Follow 0 matches
        → join (tokenize_refs trim to_lower value matches) ≡ value
    unfolding tokenize_refs
    join-tokenize_refs matches f = join-tokenize_from matches 0 [] f refl
