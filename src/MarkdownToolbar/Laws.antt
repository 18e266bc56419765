-- ===== src/MarkdownToolbar/Laws.antt =====
-- What an action of web/src/components/editor/MarkdownToolbar.tsx leaves of the text, and what it selects.
use quagenticus.Base.{
  ℕ, ◌+◌, ◌-◌, ◌≤◌, ◌++◌, append_assoc, Text, slice, take, drop, length, length-append, length-take,
  take-append_le, drop-append_le, ◌≡◌, sym, ap, ◌∙◌, arith,
}
use quagenticus.MarkdownToolbar.{ToolbarAction, apply_action, selection_of, prefix_of}

-- The middle of a text lies between the lengths of what is before it and of it.
pub slice-middle :
    (a b c : Text) (i j : ℕ)
    → i ≡ length a
    → j ≡ length a + length b
    → slice (a ++ (b ++ c)) i j ≡ b
slice-middle a b c i j p q =
    rw (drop-append_le i a (b ++ c) p) (take-append_le (j - i) b c (omega (arith, p, q)))

slice-third :
    (a b c d : Text) (i j : ℕ)
    → i ≡ length a + length b
    → j ≡ length a + length b + length c
    → slice (a ++ (b ++ (c ++ d))) i j ≡ c
slice-third a b c d i j p q =
    ap (λ x. slice x i j) (sym (append_assoc a b (c ++ d)))
    ∙ slice-middle (a ++ b) c d i j (omega (arith, p, length-append a b))
        (omega (arith, q, length-append a b))

drop-third :
    (a b c d : Text) (i : ℕ)
    → i ≡ length a + length b + length c
    → drop i (a ++ (b ++ (c ++ d))) ≡ d
drop-third a b c d i p =
    ap (drop i) (sym (append_assoc a b (c ++ d)) ∙ sym (append_assoc (a ++ b) c d))
    ∙ drop-append_le i ((a ++ b) ++ c) d
        (omega (arith, p, length-append (a ++ b) c, length-append a b))

module _ (value : Text) (start end : ℕ) (a : ToolbarAction) (h : start ≤ end)
    (k : end ≤ length value) where
  -- An action keeps the text before and behind the selection, and selects the text that was selected,
  -- or the action's own if there was none; in front of it stand the prefix, behind it the suffix.
  pub apply_action-parts :
      (take start (apply_action value start end a).value ≡ take start value)
      × (slice
            (apply_action value start end a).value
            start
            (apply_action value start end a).sel_start
          ≡ prefix_of value start a)
      × (slice
            (apply_action value start end a).value
            (apply_action value start end a).sel_start
            (apply_action value start end a).sel_end
          ≡ selection_of value start end a)
      × (drop (apply_action value start end a).sel_end (apply_action value start end a).value
          ≡ a.suffix ++ drop end value)
  unfolding apply_action
  apply_action-parts =
      let before = take start value in
      let prefix = prefix_of value start a in
      let selection = selection_of value start end a in
      let rest = a.suffix ++ drop end value in
      let n : start ≡ length before = omega (arith, length-take start value, h, k) in
      (
        take-append_le start before _ n,
        slice-middle before prefix (selection ++ rest) start (start + length prefix) n
            (omega (arith, n)),
        slice-third before prefix selection rest _ _ (omega (arith, n)) (omega (arith, n)),
        drop-third before prefix selection rest _ (omega (arith, n)),
      )
