-- ===== src/Tests/Dialogs.antt =====
-- The confirmation dialog, asked for once and asked for over itself.
use quagenticus.Base.{◌+◌, String, true, false, none, some, List, [], ◌∷◌, ◌≡◌, refl, length}
use quagenticus.Dialogs.{
  ConfirmOptions, Event, asked, typed, cancelled, confirmed, start, step, run, confirm_dialog,
  finish, blocked,
}
use quagenticus.Dialogs.Promises.{AreAnswers, run-AreAnswers, open_count, IsCalm, run-answers}

abbrev name_of_view : ConfirmOptions
name_of_view = record {
  title = "Guardar vista";
  confirm_label = some "Guardar";
  danger = false;
  input =
      some (record { label = "Nombre"; placeholder = none; required = true; multiline = false });
}

abbrev archive : ConfirmOptions
archive = record { title = "Archivar"; confirm_label = none; danger = true; input = none }

-- `trim`, of texts without spaces
abbrev trim : String → String
trim text = text

abbrev events : List Event
events =
    asked name_of_view
    ∷ confirmed
    ∷ typed "v"
    ∷ confirmed
    ∷ asked archive
    ∷ typed "x"
    ∷ confirmed
    ∷ []

results :
    (run trim events start).answers
    ≡ record { promise = 1; options = archive; result = some "" }
      ∷ record { promise = 0; options = name_of_view; result = some "v" }
      ∷ []
unfolding run step confirm_dialog finish blocked
results = refl

-- A dialog that is asked for over another: the first promise stays without an answer.
replaced :
    (run trim (asked archive ∷ asked name_of_view ∷ cancelled ∷ cancelled ∷ []) start).answers
    ≡ record { promise = 1; options = name_of_view; result = none } ∷ []
unfolding run step confirm_dialog finish
replaced = refl

run-AreAnswers_example :
    AreAnswers trim (run trim events start).made (run trim events start).answers
run-AreAnswers_example = run-AreAnswers trim events

events-IsCalm : IsCalm trim events start
unfolding step confirm_dialog finish blocked
events-IsCalm = (refl, (tt, (tt, (tt, (refl, (tt, (tt, tt)))))))

run-answers_example :
    (run trim events start).made
    ≡ length (run trim events start).answers + open_count trim (run trim events start).dialog
run-answers_example = run-answers trim events events-IsCalm
