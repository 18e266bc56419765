-- ===== src/Api/Session.antt =====
-- web/src/lib/api.ts: the access token, its renewal, and the requests that use it (`session`, `parse`,
-- `request`, `uploadXHR`). The server and the network are a parameter.
pub mod Laws
use quagenticus.Base.{
  ℕ, String, Bool, true, false, Option, none, some, List, [], ◌∷◌, ◌++◌, or_else, if◌then◌else◌,
  not, ◌&&◌, ◌==◌, nat_eq, string_eq, leb,
}
use quagenticus.BoardPage.{strip_prefix, truthy}
use quagenticus.Base.{is_some}

pub record ApiError : Type 0 where
  pub status : ℕ
  pub code : String
  pub message : String

-- What a request resolves to, or how it fails: with an `ApiError`, with another error, or never.
pub data Result (V : Type 0) : Type 0 where
  ok : V → Result V
  err : ApiError → Result V
  thrown unsettled : Result V

-- A JSON body: whether it is `null`, the fields that an error is made of, which only another value has, and the
-- value as a whole.
pub record JsonBody (V : Type 0) : Type 0 where
  pub is_null : Bool
  pub code : Option String
  pub message : Option String
  pub value : V

-- A response; `text` and `json` are `none` where `res.text()` and `res.json()` reject.
pub record Response (V : Type 0) : Type 0 where
  pub status : ℕ
  pub status_text : String
  pub content_type : Option String
  pub text : Option String
  pub json : Option (JsonBody V)

-- `res.ok`
abbrev pub is_ok : ℕ → Bool
is_ok status = leb 200 status && leb status 299

-- `s.includes(part)`
abbrev pub includes : String → String → Bool
includes part String.[] = is_some (strip_prefix part String.[])
includes part (String.◌∷◌ c s) =
    let later = includes part s in
    if is_some (strip_prefix part (String.◌∷◌ c s)) then true else later

-- `a || b` for strings
abbrev pub or_text : String → String → String
or_text a b = if a == "" then b else a

-- `{ message }`, the body that stands in where `res.json()` rejects: a value made of the text
abbrev pub fallback : {V : Type 0} → (String → V) → Response V → JsonBody V
fallback of_message res = record {
  is_null = false;
  code = none;
  message = some res.status_text;
  value = of_message res.status_text;
}

-- The value that `parse` resolves to: `undefined`, a text, or a JSON value.
pub data Parsed (V : Type 0) : Type 0 where
  undefined : Parsed V
  plain : String → Parsed V
  json_value : V → Parsed V

-- `parse` once the text of the response is there
abbrev pub parse_text : {V : Type 0} → Response V → Option String → Result (Parsed V)
parse_text res none = thrown
parse_text res (some text) =
    if not (is_ok res.status)
    then err
        (record { status = res.status; code = "error"; message = or_text text res.status_text })
    else ok (plain text)

-- `parse` once the body is there; the fields of `null` cannot be read.
abbrev pub parse_body : {V : Type 0} → Response V → JsonBody V → Result (Parsed V)
parse_body res body =
    if not (is_ok res.status)
    then if body.is_null
      then thrown
      else err (record {
        status = res.status;
        code = or_else body.code "error";
        message = or_else body.message res.status_text;
      })
    else ok (json_value body.value)

-- `parse`; `of_message` makes the object `{ message }` of a text.
unfoldable pub parse : {V : Type 0} → (String → V) → Response V → Result (Parsed V)
parse of_message res =
    if res.status == 204
    then ok undefined
    else if not (includes "application/json" (or_else res.content_type ""))
    then parse_text res res.text
    else parse_body res (or_else res.json (fallback of_message res))

-- The other side: the state of the server and the network, and how it answers a request with a
-- token. `none` is a `fetch` that rejects. The reply to a refresh is the new token, if the response
-- is a success that can be read.
pub record Server (V : Type 0) : Type 1 where
  pub State : Type 0
  pub fetch : State → Option String → String → State × Option (Response V)
  pub refresh : State → State × Option String

-- What the client does, in order: `send token path`, or `renew`.
pub data Call : Type 0 where
  send : Option String → String → Call
  renew : Call

-- How a request ends: `parse` of the last response, or the rejection of `fetch`.
pub data Reply (V : Type 0) : Type 0 where
  parsed : Response V → Reply V
  rejected : Reply V

module _ {V : Type 0} (server : Server V) where
  open server use {State, fetch, refresh}

  -- the server, `accessToken`, and the calls made so far
  pub record Session : Type 0 where
    pub state : State
    pub token : Option String
    pub calls : List Call

  -- one `fetch` with the present token; an empty token is not sent
  unfoldable pub send_request : String → Session → Session × Option (Response V)
  send_request path s =
      let (next, res) = fetch s.state (truthy s.token) path in
      (record s { state = next; calls = s.calls ++ send (truthy s.token) path ∷ [] }, res)

  -- `session.refresh()`, which also sets the token, to null if there is none
  unfoldable pub refresh_session : Session → Session × Option String
  refresh_session s =
      let (next, token) = refresh s.state in
      (record { state = next; token = token; calls = s.calls ++ renew ∷ [] }, token)

  abbrev pub finish : Session × Option (Response V) → Session × Reply V
  finish (s, none) = (s, rejected)
  finish (s, some res) = (s, parsed res)

  -- `request` behind the refresh: with a token, the second and last attempt
  unfoldable pub attempt_again : String → Response V → Session × Option String → Session × Reply V
  attempt_again path res (renewed, token) = elim (truthy token) [
    | none ↦ (renewed, parsed res)
    | some _ ↦ finish (send_request path renewed)
  ]

  -- `request` once a response of the first attempt is there
  unfoldable pub retry : String → Response V → Session → Session × Reply V
  retry path res s =
      if res.status == 401 && not (is_some (strip_prefix "/auth/" path))
      then attempt_again path res (refresh_session s)
      else (s, parsed res)

  -- `request`, up to the `parse` of the response that it returns
  unfoldable pub request : String → Session → Session × Reply V
  request path s =
      let (sent, res) = send_request path s in
      elim res [ none ↦ (sent, rejected) | some r ↦ retry path r sent ]
