-- ===== src/Comments/Threads.antt =====
-- That the threads of web/src/components/comments/CommentThread.tsx show every comment once.
use quagenticus.Base.{
  ℕ, ◌+◌, String, Bool, true, false, Option, none, some, List, [], ◌∷◌, ◌++◌, ◌≡◌, refl, sym, ap,
  ◌∙◌, ◌==◌, not, string_eq, if◌then◌else◌, or_else, is_some, keep, map, Dict, lookup,
  lookup-assign, append_assoc, append-nil, length, All, arith, eq_iff, Bool-cases, inl, inr, ◌⊎◌,
}
use quagenticus.BoardPage.{truthy}
use quagenticus.Api.Activity.{Journal}
use quagenticus.Comments.{Thread, roots_of, add_reply, replies_of, thread, threads}

abbrev is_for : String → Option String → Bool
is_for id none = false
is_for id (some target) = target == id

-- `j` answers the comment `id`
abbrev pub answers : String → Journal → Bool
answers id j = is_for id (truthy j.reply_to_id)

abbrev at : String → Dict (List Journal) → List Journal
at id d = or_else (lookup id d) []

at-add_reply :
    (id : String) (o : Option String) (j : Journal) (d : Dict (List Journal))
    → at id (add_reply o j d) ≡ at id d ++ (if is_for id o then j ∷ [] else [])
at-add_reply id none j d = sym (append-nil _)
at-add_reply id (some t) j d = elim (Bool-cases (t == id)) [
  | inl e ↦
      rw (lookup-assign t id (or_else (lookup t d) [] ++ j ∷ []) d, e)
        (ap (λ i. at i d ++ j ∷ []) ((eq_iff t id).0 e))
  | inr e ↦ rw (lookup-assign t id (or_else (lookup t d) [] ++ j ∷ []) d, e) (sym (append-nil _))
]

keep-cons :
    (b : Bool) (j : Journal) (rest : List Journal)
    → (if b then j ∷ [] else []) ++ rest ≡ (if b then j ∷ rest else rest)
keep-cons true j rest = refl
keep-cons false j rest = refl

-- the replies of a thread are the comments that answer its root, in order
at-replies_of :
    (id : String) (js : List Journal) (d : Dict (List Journal))
    → at id (replies_of js d) ≡ at id d ++ keep (answers id) js
unfolding replies_of
at-replies_of id [] d = sym (append-nil _)
at-replies_of id (j ∷ js) d =
    at-replies_of id js (add_reply (truthy j.reply_to_id) j d)
    ∙ ap (λ xs. xs ++ keep (answers id) js) (at-add_reply id (truthy j.reply_to_id) j d)
    ∙ append_assoc (at id d) _ (keep (answers id) js)
    ∙ ap (λ xs. at id d ++ xs) (keep-cons (answers id j) j (keep (answers id) js))

-- the comments that the threads show
abbrev pub shown : List Thread → List Journal
shown [] = []
shown (t ∷ ts) = t.root ∷ t.replies ++ shown ts

abbrev pub count_if : (Journal → Bool) → List Journal → ℕ
count_if p xs = length (keep p xs)

-- how many of some comments have an id
abbrev ids_count : String → List Journal → ℕ
ids_count id = count_if (λ j. id == j.id)

-- A comment is a root, or answers a root, and one only.
abbrev pub IsPlaced : List Journal → Journal → Type 0
IsPlaced roots j =
    (truthy j.reply_to_id ≡ none)
    ⊎ ((t : String) × (truthy j.reply_to_id ≡ some t) × (ids_count t roots ≡ 1))

-- how many replies to some comments there are
abbrev answered : (Journal → Bool) → List Journal → List Journal → ℕ
answered p js [] = 0
answered p js (r ∷ rs) = count_if p (keep (answers r.id) js) + answered p js rs

abbrev one : Bool → ℕ
one b = if b then 1 else 0

count_if-cons :
    (p : Journal → Bool) (j : Journal) (xs : List Journal)
    → count_if p (j ∷ xs) ≡ one (p j) + count_if p xs
count_if-cons p j xs = ground arith

count_if-append :
    (p : Journal → Bool) (xs ys : List Journal)
    → count_if p (xs ++ ys) ≡ count_if p xs + count_if p ys
count_if-append p [] ys = omega arith
count_if-append p (x ∷ xs) ys = ground (arith, count_if-append p xs ys)

count_if-split :
    (p q : Journal → Bool) (js : List Journal)
    → count_if p (keep (λ j. not (q j)) js) + count_if p (keep q js) ≡ count_if p js
count_if-split p q [] = omega arith
count_if-split p q (j ∷ js) = ground (arith, count_if-split p q js)

shown-thread :
    (js rs : List Journal)
    → (p : Journal → Bool)
    → count_if p (shown (map (thread (replies_of js [])) rs)) ≡ count_if p rs + answered p js rs
unfolding thread
shown-thread js [] p = omega arith
shown-thread js (r ∷ rs) p =
    let replies = at r.id (replies_of js []) in
    let rest = shown (map (thread (replies_of js [])) rs) in
    omega (
      arith,
      count_if-cons p r (replies ++ rest),
      count_if-cons p r rs,
      count_if-append p replies rest,
      ap (count_if p) (at-replies_of r.id js []),
      shown-thread js rs p,
    )

answered-none : (p : Journal → Bool) (rs : List Journal) → answered p [] rs ≡ 0
answered-none p [] = refl
answered-none p (r ∷ rs) = omega (arith, answered-none p rs)

-- how many of some comments are answered by one
abbrev hits : Option String → List Journal → ℕ
hits o = count_if (λ r. is_for r.id o)

hits-none : (rs : List Journal) → hits none rs ≡ 0
hits-none [] = refl
hits-none (r ∷ rs) = hits-none rs

answered-cons :
    (p : Journal → Bool) (j : Journal) (js rs : List Journal)
    → answered p (j ∷ js) rs
      ≡ (if p j then hits (truthy j.reply_to_id) rs else 0) + answered p js rs
answered-cons p j js [] = ground arith
answered-cons p j js (r ∷ rs) = ground (arith, answered-cons p j js rs)

-- every comment that is a reply is among the replies of one root
answered-all :
    (p : Journal → Bool) (js rs : List Journal)
    → All (IsPlaced rs) js
    → answered p js rs ≡ count_if p (keep (λ j. is_some (truthy j.reply_to_id)) js)
answered-all p [] rs h = answered-none p rs
answered-all p (j ∷ js) rs (h, hs) =
    let rest = answered-all p js rs hs in
    let first = answered-cons p j js rs in
    elim h [
      | inl e ↦ rw e (ground (arith, first, rest, ap (λ o. hits o rs) e, hits-none rs))
      | inr (t, e, k) ↦ rw e (ground (arith, first, rest, ap (λ o. hits o rs) e, k))
    ]

-- The threads show every comment as often as it stands among the comments, whatever one counts;
-- provided that each reply answers a comment that is no reply, and that no other such comment has the
-- same id.
pub count_if-threads :
    (journals : List Journal) (p : Journal → Bool)
    → All (IsPlaced (roots_of journals)) journals
    → count_if p (shown (threads journals)) ≡ count_if p journals
unfolding threads roots_of
count_if-threads journals p h =
    shown-thread journals (roots_of journals) p
    ∙ (ap (λ n. count_if p (roots_of journals) + n) (answered-all p journals (roots_of journals) h)
        ∙ count_if-split p (λ j. is_some (truthy j.reply_to_id)) journals)
