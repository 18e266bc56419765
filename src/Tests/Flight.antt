-- ===== src/Tests/Flight.antt =====
-- Two requests of web/src/lib/api.ts that are answered with a 401 while one renewal is under way.
use quagenticus.Base.{String, none, some, List, [], ◌∷◌, ◌≡◌, refl}
use quagenticus.Api.Session.{Response}
use quagenticus.Api.Flight.{
  by_request, by_upload, waiting, ended, fetched, refreshed, Event, called, responded, failed,
  answered, finalized, resumed, token_given, step, run, start, send_call, set_token, refresh_token,
}
use quagenticus.Api.Flight.Laws.{IsSingle, run-IsSingle}
use quagenticus.Api.Flight.Waits.{IsResumed, run-IsResumed}

abbrev denied : Response String
denied = record { status = 401; status_text = ""; content_type = none; text = some ""; json = none }

-- both have been sent with an old token, and both wait
abbrev two_wait : List (Event String)
two_wait =
    token_given (some "old")
    ∷ called 0 (by_request "/spaces")
    ∷ called 1 (by_upload "/uploads")
    ∷ responded 1 denied
    ∷ responded 0 denied
    ∷ []

-- and both are sent again with the one new token
abbrev both_again : List (Event String)
both_again =
    token_given (some "old")
    ∷ called 0 (by_request "/spaces")
    ∷ called 1 (by_upload "/uploads")
    ∷ responded 1 denied
    ∷ responded 0 denied
    ∷ answered (some "new")
    ∷ finalized
    ∷ resumed 0
    ∷ resumed 1
    ∷ responded 0 denied
    ∷ failed 1
    ∷ []

both_again_messages :
    (run both_again start).messages
    ≡ fetched 1 (some "new")
      ∷ fetched 0 (some "new")
      ∷ refreshed
      ∷ fetched 1 (some "old")
      ∷ fetched 0 (some "old")
      ∷ []
unfolding run step send_call set_token refresh_token
both_again_messages = refl

both_again_ended :
    ((run both_again start).calls 0 ≡ ended (some denied))
    × ((run both_again start).calls 1 ≡ ended none)
unfolding run step send_call set_token refresh_token
both_again_ended = (refl, refl)

two_wait_calls : (run two_wait start).calls 0 ≡ waiting (by_request "/spaces") 0 denied
unfolding run step send_call set_token refresh_token
two_wait_calls = refl

run-IsSingle_example : IsSingle (run two_wait start).refresh_promise (run two_wait start).promises
run-IsSingle_example = run-IsSingle two_wait

run-IsResumed_example :
    IsResumed
      (by_request "/spaces")
      denied
      ((run (answered (some "new") ∷ finalized ∷ resumed 0 ∷ []) (run two_wait start)).calls 0)
run-IsResumed_example =
    run-IsResumed two_wait 0 0 (by_request "/spaces") denied (some "new") two_wait_calls
