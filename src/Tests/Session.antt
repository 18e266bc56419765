-- ===== src/Tests/Session.antt =====
-- The session of web/src/lib/api.ts against a server whose tokens expire, and the store of
-- web/src/lib/auth.ts.
use quagenticus.Base.{
  ℕ, suc, String, false, Option, none, some, List, [], ◌∷◌, ◌++◌, ◌≡◌, refl, ◌==◌, string_eq,
  or_else, if◌then◌else◌,
}
use quagenticus.Api.Types.{user}
use quagenticus.Api.Documents.{Me, null}
use quagenticus.Api.Session.{
  Response, Server, Session, Call, send, renew, parse, request, send_request, retry, attempt_again,
  refresh_session,
}
use quagenticus.Api.Session.Laws.{Outcome, request-Outcome, Fits, parse-Fits}
use quagenticus.Api.Upload.{upload_xhr}
use quagenticus.Api.Upload.Laws.{Attempts, upload_xhr-Attempts}
use quagenticus.Auth.{Event, token_changed, user_loaded, user_set, logged_out, run, start}
use quagenticus.Auth.Laws.{IsSound, run-IsSound}

abbrev response : ℕ → Response String
response status = record {
  status = status;
  status_text = "";
  content_type = some "application/json; charset=utf-8";
  text = some "";
  json = none;
}

-- A server that knows one token, "new", and counts the requests: any other gets a 401.
abbrev answer : ℕ → Option String → String → ℕ × Option (Response String)
answer n token path = (suc n, some (response (if or_else token "" == "new" then 200 else 401)))

abbrev renewal : ℕ → ℕ × Option String
renewal n = (suc n, some "new")

abbrev server : Server String
server = record { State = ℕ; fetch = answer; refresh = renewal }

abbrev session : Session server
session = record { state = 0; token = some "old"; calls = [] }

request_repeated :
    (request server "/spaces" session).0.calls
    ≡ send (some "old") "/spaces" ∷ renew ∷ send (some "new") "/spaces" ∷ []
unfolding request send_request retry attempt_again refresh_session
request_repeated = refl

request-Outcome_example :
    (more : List Call) × ((request server "/spaces" session).0.calls ≡ [] ++ more)
    × Outcome server "/spaces" session
        (request server "/spaces" session).0
        more
        (request server "/spaces" session).1
request-Outcome_example = request-Outcome server "/spaces" session

abbrev of_message : String → String
of_message text = text

parse-Fits_example : Fits (response 503) (parse of_message (response 503))
parse-Fits_example = parse-Fits of_message (response 503)

upload_xhr-Attempts_example :
    (more : List Call) × ((upload_xhr server "" "/uploads" session).0.calls ≡ [] ++ more)
    × Attempts server "" "/uploads" session (upload_xhr server "" "/uploads" session).0 more
upload_xhr-Attempts_example = upload_xhr-Attempts server "" "/uploads" session

abbrev me : Me
me = record {
  id = "u";
  account_id = "";
  email = "";
  handle = "";
  display_name = "";
  avatar_url = none;
  locale = "en";
  timezone = "Europe/Madrid";
  is_account_admin = false;
  preferences = null;
  actor_type = user;
}

abbrev events : List Event
events =
    token_changed (some "t") ∷ user_loaded me ∷ token_changed none ∷ user_set me ∷ logged_out ∷ []

run-IsSound_example : IsSound (run events start)
run-IsSound_example = run-IsSound events
