-- ===== src/Dialogs.antt =====
-- web/src/components/ui/Confirm.tsx: the store of the confirmation dialog and the promises that
-- `confirmDialog` makes. A promise is the number of those made before it. `trim` is the browser's
-- `String.trim`.
pub mod Promises
use quagenticus.Base.{
  ℕ, suc, String, Bool, true, false, Option, none, some, List, [], ◌∷◌, ◌==◌, ◌&&◌, string_eq,
  if◌then◌else◌,
}

-- `input` of `ConfirmOptions`
pub record Input : Type 0 where
  pub label : String
  pub placeholder : Option String
  pub required : Bool
  pub multiline : Bool

-- `ConfirmOptions`, but for what is only shown
pub record ConfirmOptions : Type 0 where
  pub title : String
  pub confirm_label : Option String
  pub danger : Bool
  pub input : Option Input

-- What a promise was resolved to: `none` is `false`.
pub record Answer : Type 0 where
  pub promise : ℕ
  pub options : ConfirmOptions
  pub result : Option String

-- `ConfirmState` while a dialog is open
pub record Dialog : Type 0 where
  pub options : ConfirmOptions
  pub value : String
  pub resolve : ℕ

-- The store, the number of promises made, and those resolved so far, the last first.
pub record Store : Type 0 where
  pub dialog : Option Dialog
  pub made : ℕ
  pub answers : List Answer

abbrev pub start : Store
start = record { dialog = none; made = 0; answers = [] }

-- `confirmDialog`
unfoldable pub confirm_dialog : ConfirmOptions → Store → Store
confirm_dialog options s = record {
  dialog = some (record { options = options; value = ""; resolve = s.made });
  made = suc s.made;
  answers = s.answers;
}

-- `finish`
unfoldable pub finish : Dialog → Option String → Store → Store
finish d v s = record {
  dialog = none;
  made = s.made;
  answers = record { promise = d.resolve; options = d.options; result = v } ∷ s.answers;
}

abbrev is_required : Option Input → Bool
is_required none = false
is_required (some i) = i.required

-- `blocked`
unfoldable pub blocked : (String → String) → Dialog → Bool
blocked trim d = is_required d.options.input && trim d.value == ""

-- `setValue`, which only the input calls
abbrev pub type_in : String → Dialog → Option Input → Store → Store
type_in text d none s = s
type_in text d (some _) s = record s { dialog = some (record d { value = text }) }

-- What happens: a dialog is asked for, the text is changed, the dialog is closed or cancelled, or it is
-- confirmed, by the button, which is disabled if it is blocked, or by the form.
pub data Event : Type 0 where
  asked : ConfirmOptions → Event
  typed : String → Event
  cancelled : Event
  confirmed : Event

abbrev pub on_dialog : (String → String) → Event → Option Dialog → Store → Store
on_dialog trim (asked options) o s = confirm_dialog options s
on_dialog trim (typed text) (some d) s = type_in text d d.options.input s
on_dialog trim cancelled (some d) s = finish d none s
on_dialog trim confirmed (some d) s =
    let finished = finish d (some d.value) s in if blocked trim d then s else finished
on_dialog trim (typed _) none s = s
on_dialog trim cancelled none s = s
on_dialog trim confirmed none s = s

unfoldable pub step : (String → String) → Event → Store → Store
step trim e s = on_dialog trim e s.dialog s

unfoldable pub run : (String → String) → List Event → Store → Store
run trim [] s = s
run trim (e ∷ es) s = run trim es (step trim e s)
