-- ===== src/Tests/Refs.antt =====
-- web/src/lib/refs.ts on a text with a mention and a reference.
use quagenticus.Base.{◌≡◌, refl, none, List, [], ◌∷◌, Text, codes, arith}
use quagenticus.Refs.{
  text, requirement, user, marked, mention, Match, tokenize_refs, tokenize_from, tokens_of,
}
use quagenticus.Refs.Lossless.{join, Follow, join-tokenize_refs}

abbrev sentence : Text
sentence = codes "see #12, @ana."

abbrev matches : List Match
matches =
    (record { index = 3; whole = codes " #12"; groups = marked (codes " ") none (codes "12") })
    ∷ (record { index = 8; whole = codes " @ana."; groups = mention (codes " ") (codes "ana.") })
    ∷ []

abbrev same : Text → Text
same t = t

tokens_of_sentence :
    tokenize_refs same same sentence matches
    ≡ text (codes "see ")
      ∷ requirement (codes "#12") (codes "12")
      ∷ text (codes ", ")
      ∷ user (codes "@ana") (codes "ana")
      ∷ text (codes ".")
      ∷ []
unfolding tokenize_refs tokenize_from tokens_of
tokens_of_sentence = refl

matches-Follow : Follow sentence 0 matches
matches-Follow = (
  omega arith,
  record {
    before = codes "see";
    after = codes ", @ana.";
    stands = refl;
    place = refl;
    spells = (codes "#12", refl);
  },
  (
    omega arith,
    record { before = codes "see #12,"; after = []; stands = refl; place = refl; spells = refl },
    tt,
  ),
)

join-tokenize_refs_example : join (tokenize_refs same same sentence matches) ≡ sentence
join-tokenize_refs_example = join-tokenize_refs sentence same same matches matches-Follow
