-- ===== src/Api/Upload.antt =====
-- web/src/lib/api.ts: `uploadXHR`, on the session of `Api.Session`. One `xhr.send` is one call of the
-- server; the progress of the upload, which only the page's callback sees, is left out.
pub mod Laws
use quagenticus.Base.{
  String, Bool, true, false, Option, none, some, List, or_else, if◌then◌else◌, ◌==◌, nat_eq,
}
use quagenticus.BoardPage.{truthy}
use quagenticus.Api.Session.{
  Response, JsonBody, Server, Session, send_request, refresh_session, Result, ok, err, unsettled,
  is_ok,
}

-- the body that `JSON.parse` gives, or `{}`
abbrev pub body_of : {V : Type 0} → V → Response V → JsonBody V
body_of empty res =
    or_else res.json (record { is_null = false; code = none; message = none; value = empty })

-- `onload` behind the refresh: `resolve` or `reject`; it throws, and does neither, for an error with the body
-- `null`.
unfoldable pub load : {V : Type 0} → V → Response V → Result V
load empty res =
    let body = body_of empty res in
    if is_ok res.status
    then ok body.value
    else if body.is_null
    then unsettled
    else err (record {
      status = res.status;
      code = or_else body.code "error";
      message = or_else body.message res.status_text;
    })

module _ {V : Type 0} (server : Server V) (empty : V) where
  -- `onload` or `onerror` of an attempt that is not repeated
  abbrev pub conclude : Session server × Option (Response V) → Session server × Result V
  conclude (s, none) = (
    s,
    err (record { status = 0; code = "network"; message = "Error de red al subir el archivo" }),
  )
  conclude (s, some res) = (s, load empty res)

  -- the second attempt, if the refresh gave a token
  unfoldable pub upload_again :
      String → Response V → Session server × Option String → Session server × Result V
  upload_again path res (renewed, token) = elim (truthy token) [
    | none ↦ (renewed, load empty res)
    | some _ ↦ conclude (send_request server path renewed)
  ]

  -- the first attempt, once it has ended
  unfoldable pub first_ended :
      String → Session server × Option (Response V) → Session server × Result V
  first_ended path (s, none) = conclude (s, none)
  first_ended path (s, some res) =
      if res.status == 401
      then upload_again path res (refresh_session server s)
      else (s, load empty res)

  unfoldable pub upload_xhr : String → Session server → Session server × Result V
  upload_xhr path s = first_ended path (send_request server path s)
