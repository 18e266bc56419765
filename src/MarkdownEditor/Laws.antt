-- ===== src/MarkdownEditor/Laws.antt =====
-- What a suggestion that is picked, the keys and the uploads do to web/src/components/editor/MarkdownEditor.tsx.
use quagenticus.Base.{
  ℕ, zero, suc, ◌+◌, ◌-◌, ◌≤◌, ◌<◌, String, Bool, true, false, some, List, [], ◌∷◌, ◌++◌, ◌≡◌, refl,
  sym, ap, ◌∙◌, ◌==◌, ◌&&◌, nat_eq, string_eq, ltb, if◌then◌else◌, Text, take, drop, slice, length,
  get_elem?, any, length-take, take-append-drop, arith, Bool-cases, inl, inr, ==_refl,
}
use mathlib.Core.Path.{subst}
use native.Mathlib.Nat.{mod-lt}
use quagenticus.Refs.Trigger.{ActiveTrigger, detect_trigger}
use quagenticus.Refs.Trigger.Laws.{IsSigned, detect_trigger-IsFound}
use quagenticus.MarkdownEditor.{
  SuggestItem, suggestion_insert_text, Edited, replace, pick_item, pick, File, Upload, too_big,
  fitting, begin_upload, on_progress, end_upload, on_key_down, Key, arrow_down, arrow_up, enter,
  tab, escape, move_to, suggestion_key, plain_key,
}

abbrev empty : Text
empty = []

drop-nil : (n : ℕ) → drop n empty ≡ empty
drop-nil zero = refl
drop-nil (suc n) = refl

drop-drop : (m n k : ℕ) (xs : Text) → k ≡ m + n → drop n (drop m xs) ≡ drop k xs
drop-drop zero n k xs h = ap (λ i. drop i xs) (omega (arith, h))
drop-drop (suc m) n zero xs h = absurd (omega (arith, h))
drop-drop (suc m) n (suc k) [] h = drop-nil n
drop-drop (suc m) n (suc k) (x ∷ xs) h = drop-drop m n k xs (omega (arith, h))

-- a text is what stands before a part, the part and what stands behind it
parts :
    (value : Text) (start end : ℕ)
    → start ≤ end
    → value ≡ take start value ++ (slice value start end ++ drop end value)
parts value start end h =
    sym (take-append-drop start value)
    ∙ ap (λ x. take start value ++ x)
        (sym (take-append-drop (end - start) (drop start value))
          ∙ ap (λ x. slice value start end ++ x)
              (drop-drop start (end - start) end value (omega (arith, h))))

-- What picking a suggestion does: the sign and the query give way to the text of the suggestion, behind
-- which the caret stands, and the rest is kept.
abbrev pub Replaces : Text → ActiveTrigger → Text → Edited → Type 0
Replaces value t text e =
    (front sign back : Text) × IsSigned t sign
    × (value ≡ front ++ ((sign ++ t.query) ++ back))
    × (e.value ≡ front ++ (text ++ back))
    × (e.sel_start ≡ length front + length text)
    × (e.sel_end ≡ length front + length text)

-- Picking a suggestion replaces the sign and the query before the caret, and nothing else, by the text of
-- the suggestion, and sets the caret behind it; provided that the trigger is the one at the caret, that the
-- caret is in the text, and that there is a suggestion at the index.
pub pick-Replaces :
    (letter : ℕ → Bool) (value : Text) (caret : ℕ) (t : ActiveTrigger) (items : List SuggestItem)
    (index : ℕ) (item : SuggestItem)
    → caret ≤ length value
    → detect_trigger letter value caret ≡ some t
    → get_elem? items index ≡ some item
    → (e : Edited) × (pick value (some t) items index ≡ some e)
      × Replaces value t (suggestion_insert_text item) e
unfolding pick
pick-Replaces letter value caret t items index item k h g =
    let (sign, signed, end, start, cut) = detect_trigger-IsFound letter value caret t k h in
    (
      replace value t.start t.end (suggestion_insert_text item),
      ap (pick_item value (some t)) g,
      (
        take t.start value,
        sign,
        drop t.end value,
        signed,
        (parts value t.start t.end (omega (arith, start, end))
            ∙ ap (λ x. take t.start value ++ (x ++ drop t.end value)) cut),
        refl,
        omega (arith, length-take t.start value, start, k),
        omega (arith, length-take t.start value, start, k),
      ),
    )

-- Every file is sent or refused, by its size.
length-too_big :
    (mb : ℕ) (files : List File)
    → length (too_big mb files) + length (fitting mb files) ≡ length files
unfolding too_big fitting
length-too_big mb [] = omega arith
length-too_big mb (f ∷ files) = ground (arith, length-too_big mb files)

-- An upload leaves the list of uploads as it was, whatever progress it has made and however it ended;
-- provided that its key is new.
end_upload-begin_upload :
    (count_name : ℕ → String) (key : String) (ok : List File) (loaded total : ℕ)
    (uploads : List Upload)
    → any (λ x. x.key == key) uploads ≡ false
    → end_upload key (on_progress key loaded total (begin_upload count_name key ok uploads))
      ≡ uploads
unfolding end_upload on_progress begin_upload
end_upload-begin_upload count_name key ok loaded total [] h = rw (==_refl key, ==_refl key) refl
end_upload-begin_upload count_name key ok loaded total (u ∷ uploads) h =
    let other : u.key == key ≡ false = ground (arith, h) in
    rw (other, other)
      (ap (λ x. u ∷ x)
        (end_upload-begin_upload count_name key ok loaded total uploads (ground (arith, h))))

move_inj : {a b : ℕ} → move_to a ≡ move_to b → a ≡ b
move_inj h = cc h

suggestion_key-bounds :
    (count active to : ℕ) (key : Key)
    → 0 < count
    → suggestion_key count active key ≡ move_to to
    → to < count
suggestion_key-bounds count active to arrow_down l h =
    subst (λ n. n < count) (move_inj h) (mod-lt (active + 1) l)
suggestion_key-bounds count active to arrow_up l h =
    subst (λ n. n < count) (move_inj h) (mod-lt (active + count - 1) l)
suggestion_key-bounds count active to enter l h = absurd (cc h)
suggestion_key-bounds count active to tab l h = absurd (cc h)
suggestion_key-bounds count active to escape l h = absurd (cc h)

plain_key-moves :
    (triggered command submits : Bool) (to : ℕ) (key : Key)
    → ¬ (plain_key triggered command submits key ≡ move_to to)
plain_key-moves true c s to escape = λ h. absurd (cc h)
plain_key-moves false c s to escape = λ h. absurd (cc h)
plain_key-moves t true true to enter = λ h. absurd (cc h)
plain_key-moves t true false to enter = λ h. absurd (cc h)
plain_key-moves t false s to enter = λ h. absurd (cc h)
plain_key-moves t c s to arrow_down = λ h. absurd (cc h)
plain_key-moves t c s to arrow_up = λ h. absurd (cc h)
plain_key-moves t c s to tab = λ h. absurd (cc h)

-- Whichever key is pressed, the suggestion that is made active is one of those that are shown.
on_key_down-bounds :
    (triggered command submits : Bool) (active count to : ℕ) (key : Key)
    → on_key_down triggered count active key command submits ≡ move_to to
    → to < count
unfolding on_key_down
on_key_down-bounds triggered command submits active count to key h =
    let choose = λ (b : Bool).
      if b then suggestion_key count active key else plain_key triggered command submits key in
    elim (Bool-cases (triggered && ltb 0 count)) [
      | inl e ↦
          suggestion_key-bounds count active to key (ground (arith, e)) (sym (ap choose e) ∙ h)
      | inr e ↦ absurd (plain_key-moves triggered command submits to key (sym (ap choose e) ∙ h))
    ]
