-- ===== src/Dialogs/Promises.antt =====
-- That the promises of web/src/components/ui/Confirm.tsx are resolved at most once, to what the dialog
-- asked for, and that none is forgotten while no dialog is asked for over another.
use quagenticus.Base.{
  ℕ, ◌+◌, ◌<◌, String, true, false, Option, none, some, List, [], ◌∷◌, ◌≡◌, refl, ap, ◌==◌, ◌&&◌,
  string_eq, length, arith, Bool-cases, inl, inr,
}
use mathlib.Core.Path.{subst}
use quagenticus.Dialogs.{
  Input, Answer, Dialog, Store, start, confirm_dialog, finish, is_required, blocked, type_in, Event,
  asked, typed, cancelled, confirmed, on_dialog, step, run,
}

module _ (trim : String → String) where
  -- The result is `false`, or a text: the empty one without an input, and none that is blank if the
  -- input is required.
  abbrev IsAnswer : Option Input → Option String → Type 0
  IsAnswer i none = Unit
  IsAnswer none (some v) = v ≡ ""
  IsAnswer (some i) (some v) = (i.required ≡ true) → ((trim v == "") ≡ false)

  -- Answers of promises below `n`, each of another promise, the last first.
  abbrev pub AreAnswers : ℕ → List Answer → Type 0
  AreAnswers n [] = Unit
  AreAnswers n (a ∷ xs) =
      (a.promise < n) × IsAnswer a.options.input a.result × AreAnswers a.promise xs

  abbrev IsDialog : Option Dialog → ℕ → List Answer → Type 0
  IsDialog none n xs = AreAnswers n xs
  IsDialog (some d) n xs =
      (d.resolve < n) × AreAnswers d.resolve xs × (d.options.input ≡ none → d.value ≡ "")

  AreAnswers-later : (m n : ℕ) (xs : List Answer) → AreAnswers m xs → m < n → AreAnswers n xs
  AreAnswers-later m n [] h l = tt
  AreAnswers-later m n (a ∷ xs) (p, q, r) l = (omega (arith, p, l), q, r)

  made-answers : (o : Option Dialog) (n : ℕ) (xs : List Answer) → IsDialog o n xs → AreAnswers n xs
  made-answers none n xs h = h
  made-answers (some d) n xs (l, h, _) = AreAnswers-later d.resolve n xs h l

  -- the answer that a confirmed dialog gives
  confirmed-IsAnswer :
      (d : Dialog) (i : Option Input)
      → (i ≡ none → d.value ≡ "")
      → is_required i && trim d.value == "" ≡ false
      → IsAnswer i (some d.value)
  confirmed-IsAnswer d none h b = h refl
  confirmed-IsAnswer d (some i) h b = λ r. ground (arith, b, r)

  abbrev IsStore : Store → Type 0
  IsStore s = IsDialog s.dialog s.made s.answers

  type_in-IsStore :
      (text : String) (d : Dialog) (i : Option Input) (s : Store)
      → d.options.input ≡ i
      → s.dialog ≡ some d
      → IsStore s
      → IsStore (type_in text d i s)
  type_in-IsStore text d none s e k h = h
  type_in-IsStore text d (some i) s e k h =
      let (l, a, _) = subst (λ o. IsDialog o s.made s.answers) k h in
      (l, a, λ n. absurd (cc (e, n)))

  on_dialog-IsStore :
      (e : Event) (o : Option Dialog) (s : Store)
      → s.dialog ≡ o
      → IsStore s
      → IsStore (on_dialog trim e o s)
  unfolding confirm_dialog finish blocked
  on_dialog-IsStore (asked options) o s k h =
      (omega arith, made-answers s.dialog s.made s.answers h, λ _. refl)
  on_dialog-IsStore (typed text) (some d) s k h = type_in-IsStore text d d.options.input s refl k h
  on_dialog-IsStore cancelled (some d) s k h =
      let (l, a, v) = subst (λ o. IsDialog o s.made s.answers) k h in (l, tt, a)
  on_dialog-IsStore confirmed (some d) s k h =
      let (l, a, v) = subst (λ o. IsDialog o s.made s.answers) k h in
      elim (Bool-cases (blocked trim d)) [
        | inl b ↦ rw b h
        | inr b ↦ rw b (l, confirmed-IsAnswer d d.options.input v b, a)
      ]
  on_dialog-IsStore (typed text) none s k h = h
  on_dialog-IsStore cancelled none s k h = h
  on_dialog-IsStore confirmed none s k h = h

  run_from-IsStore : (es : List Event) (s : Store) → IsStore s → IsStore (run trim es s)
  unfolding run step
  run_from-IsStore [] s h = h
  run_from-IsStore (e ∷ es) s h =
      run_from-IsStore es (step trim e s) (on_dialog-IsStore e s.dialog s refl h)

  -- Whatever the user does and however dialogs are asked for, no promise is resolved twice; a dialog
  -- without an input resolves to `false` or the empty text, and one whose input is required to `false` or
  -- a text that is not blank.
  pub run-AreAnswers :
      (es : List Event) → AreAnswers (run trim es start).made (run trim es start).answers
  run-AreAnswers es =
      let s = run trim es start in
      made-answers s.dialog s.made s.answers (run_from-IsStore es start tt)

  -- how many promises are open
  abbrev pub open_count : Option Dialog → ℕ
  open_count none = 0
  open_count (some _) = 1

  abbrev IsFree : Event → Option Dialog → Type 0
  IsFree (asked _) o = o ≡ none
  IsFree _ o = Unit

  -- No dialog is asked for over another.
  abbrev pub IsCalm : List Event → Store → Type 0
  IsCalm [] s = Unit
  IsCalm (e ∷ es) s = IsFree e s.dialog × IsCalm es (step trim e s)

  abbrev IsKept : Option Dialog → Store → Type 0
  IsKept o s = s.made ≡ length s.answers + open_count o

  type_in-IsKept :
      (text : String) (d : Dialog) (i : Option Input) (s : Store)
      → s.dialog ≡ some d
      → IsKept (some d) s
      → IsKept (type_in text d i s).dialog (type_in text d i s)
  type_in-IsKept text d none s k h = rw k h
  type_in-IsKept text d (some i) s k h = h

  on_dialog-IsKept :
      (e : Event) (o : Option Dialog) (s : Store)
      → s.dialog ≡ o
      → IsFree e o
      → IsKept o s
      → IsKept (on_dialog trim e o s).dialog (on_dialog trim e o s)
  unfolding confirm_dialog finish
  on_dialog-IsKept (asked options) o s k f h = omega (arith, h, ap open_count f)
  on_dialog-IsKept (typed text) (some d) s k f h = type_in-IsKept text d d.options.input s k h
  on_dialog-IsKept cancelled (some d) s k f h = omega (arith, h)
  on_dialog-IsKept confirmed (some d) s k f h = elim (Bool-cases (blocked trim d)) [
    | inl b ↦ rw b (rw k h)
    | inr b ↦ rw b (omega (arith, h))
  ]
  on_dialog-IsKept (typed text) none s k f h = rw k h
  on_dialog-IsKept cancelled none s k f h = rw k h
  on_dialog-IsKept confirmed none s k f h = rw k h

  run_from-IsKept :
      (es : List Event) (s : Store)
      → IsCalm es s
      → IsKept s.dialog s
      → IsKept (run trim es s).dialog (run trim es s)
  unfolding run step
  run_from-IsKept [] s c h = h
  run_from-IsKept (e ∷ es) s (f, c) h =
      run_from-IsKept es (step trim e s) c (on_dialog-IsKept e s.dialog s refl f h)

  -- Every promise of a dialog has been resolved, but for that of the open dialog; provided that no dialog
  -- was asked for while another was open.
  pub run-answers :
      (es : List Event)
      → IsCalm es start
      → (run trim es start).made
        ≡ length (run trim es start).answers + open_count (run trim es start).dialog
  run-answers es c = run_from-IsKept es start c (omega arith)
