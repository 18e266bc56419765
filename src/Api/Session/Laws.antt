-- ===== src/Api/Session/Laws.antt =====
-- How often and with what `request` of web/src/lib/api.ts calls the server, and what it makes of the
-- responses.
use quagenticus.Base.{
  String, Bool, ◌⊎◌, sym, true, false, Option, none, some, List, [], ◌∷◌, ◌++◌, ◌≡◌, refl, ◌∙◌,
  Bool-cases, Option-cases, not, ◌&&◌, ◌==◌, nat_eq, inl, inr, arith, is_some, append_assoc,
  or_else,
}
use quagenticus.BoardPage.{strip_prefix, truthy}
use quagenticus.Api.Session.{
  Response, Reply, parsed, rejected, Server, Session, Call, send, renew, finish, send_request,
  refresh_session, retry, attempt_again, request, Result, ok, err, thrown, unsettled, JsonBody,
  fallback, parse_text, parse_body, parse, is_ok, includes,
}

module _ {V : Type 0} (server : Server V) where
  -- how the first call of a request ends
  abbrev pub first_reply : String → Session server → Option (Response V)
  first_reply path s = (server.fetch s.state (truthy s.token) path).1

  -- The ways in which a request may go: the calls that it makes, and the reply that it gives.
  pub data Outcome (path : String) (s after : Session server) (more : List Call) (reply : Reply V)
      : Type 0 where
    lost :
        first_reply path s ≡ none
        → more ≡ send (truthy s.token) path ∷ []
        → reply ≡ rejected
        → Outcome path s after more reply
    answered :
        (res : Response V)
        → first_reply path s ≡ some res
        → more ≡ send (truthy s.token) path ∷ []
        → reply ≡ parsed res
        → (res.status == 401) && not (is_some (strip_prefix "/auth/" path)) ≡ false
        → after.token ≡ s.token
        → Outcome path s after more reply
    logged_out :
        (res : Response V)
        → first_reply path s ≡ some res
        → more ≡ send (truthy s.token) path ∷ renew ∷ []
        → reply ≡ parsed res
        → res.status ≡ 401
        → truthy after.token ≡ none
        → Outcome path s after more reply
    repeated :
        (res : Response V) (token : String)
        → first_reply path s ≡ some res
        → res.status ≡ 401
        → more ≡ send (truthy s.token) path ∷ renew ∷ send (some token) path ∷ []
        → after.token ≡ some token
        → is_some (strip_prefix "/auth/" path) ≡ false
        → Outcome path s after more reply

  -- A result of `request` that one of these ways describes.
  abbrev Describes : String → Session server → Session server × Reply V → Type 0
  Describes path s x =
      (more : List Call) × (x.0.calls ≡ s.calls ++ more) × Outcome path s x.0 more x.1

  finish-calls : (x : Session server × Option (Response V)) → (finish server x).0 ≡ x.0
  finish-calls (s, none) = refl
  finish-calls (s, some res) = refl

  truthy-token : (o : Option String) {t : String} → truthy o ≡ some t → o ≡ some t
  truthy-token none h = cc
  truthy-token (some t) h = ground arith

  attempt_again-Describes :
      (path : String) (res : Response V) (s renewed : Session server) (token : Option String)
      → renewed.calls ≡ s.calls ++ send (truthy s.token) path ∷ renew ∷ []
      → renewed.token ≡ token
      → res.status ≡ 401
      → is_some (strip_prefix "/auth/" path) ≡ false
      → first_reply path s ≡ some res
      → Describes path s (attempt_again server path res (renewed, token))
  unfolding attempt_again send_request
  attempt_again-Describes path res s renewed token c k h p first =
      elim (Option-cases (truthy token)) [
        | inl e ↦ rw (e, attempt_again) (_, c, logged_out res first refl refl h (rw k e))
        | inr (t, e) ↦
            let now : truthy renewed.token ≡ some t = rw k e in
            rw (e, attempt_again)
              (rw (finish-calls (send_request server path renewed)) (
                send (truthy s.token) path ∷ renew ∷ send (some t) path ∷ [],
                simp (now, c, append_assoc),
                repeated res t first h refl (k ∙ truthy-token token e) p,
              ))
      ]

  retry-Describes :
      (path : String) (res : Response V) (s sent : Session server)
      → sent.calls ≡ s.calls ++ send (truthy s.token) path ∷ []
      → sent.token ≡ s.token
      → first_reply path s ≡ some res
      → Describes path s (retry server path res sent)
  unfolding retry refresh_session
  retry-Describes path res s sent c k first =
      elim (Bool-cases ((res.status == 401) && not (is_some (strip_prefix "/auth/" path)))) [
        | inl e ↦
            rw (e, retry)
              (attempt_again-Describes path res s _ _ (simp (c, append_assoc)) refl
                (ground (arith, e)) (ground (arith, e)) first)
        | inr e ↦ rw (e, retry) (_, c, answered res first refl refl e k)
      ]

  -- Every request is one call, or a call and a refresh, or these and a second call of the same path,
  -- and never more. The first reply stands unless it is a 401 to a path outside "/auth/"; then the
  -- token is renewed, and the call is repeated, with the new token, exactly if there is one.
  pub request-Outcome :
      (path : String) (s : Session server)
      → (more : List Call) × ((request server path s).0.calls ≡ s.calls ++ more)
        × Outcome path s (request server path s).0 more (request server path s).1
  unfolding request send_request
  request-Outcome path s = go (server.fetch s.state (truthy s.token) path).1 refl
    where
      go :
          (o : Option (Response V))
          → (server.fetch s.state (truthy s.token) path).1 ≡ o
          → Describes path s (request server path s)
      go none e = rw (e, request) (_, refl, lost e refl refl)
      go (some res) e = rw (e, request) (retry-Describes path res s _ refl refl e)

-- `JSON.parse` of the body gives `null`.
abbrev pub is_null_body : {V : Type 0} → Response V → Bool
is_null_body res = elim res.json [ none ↦ false | some body ↦ body.is_null ]

-- What a result has to say about the response.
abbrev pub Fits : {V W : Type 0} → Response V → Result W → Type 0
Fits res (ok _) = is_ok res.status ≡ true
Fits res (err e) = (is_ok res.status ≡ false) × (e.status ≡ res.status)
Fits res thrown = (res.text ≡ none) ⊎ ((is_ok res.status ≡ false) × (is_null_body res ≡ true))
Fits res unsettled = ⊥

parse_text-Fits :
    {V : Type 0} (res : Response V) (o : Option String) → res.text ≡ o → Fits res (parse_text res o)
parse_text-Fits res none h = inl h
parse_text-Fits res (some text) h = elim (Bool-cases (is_ok res.status)) [
  | inl k ↦ rw k k
  | inr k ↦ rw k (k, refl)
]

null-fallback :
    {V : Type 0} (of_message : String → V) (res : Response V) (o : Option (JsonBody V))
    → (or_else o (fallback of_message res)).is_null
      ≡ elim o [ none ↦ false | some body ↦ body.is_null ]
null-fallback of_message res none = refl
null-fallback of_message res (some body) = refl

parse_body-Fits :
    {V : Type 0} (res : Response V) (body : JsonBody V)
    → body.is_null ≡ is_null_body res
    → Fits res (parse_body res body)
parse_body-Fits res body h = elim (Bool-cases (is_ok res.status)) [
  | inl k ↦ rw k k
  | inr k ↦ elim (Bool-cases body.is_null) [
    | inl n ↦ rw (k, n) (inr (k, sym h ∙ n))
    | inr n ↦ rw (k, n) (k, refl)
  ]
]

-- `parse` always ends. It gives a value only for a status from 200 to 299; an `ApiError` is thrown only for
-- another status, and carries it; and another error is thrown only if the text of the response cannot be read,
-- or if its body is the JSON value `null` and the status is none from 200 to 299.
pub parse-Fits :
    {V : Type 0} (of_message : String → V) (res : Response V) → Fits res (parse of_message res)
unfolding parse
parse-Fits of_message res = elim (Bool-cases (res.status == 204)) [
  | inl e ↦ rw (e, parse) (ground (arith, e))
  | inr e ↦ elim (Bool-cases (not (includes "application/json" (or_else res.content_type "")))) [
    | inl j ↦ rw (e, j, parse) (parse_text-Fits res res.text refl)
    | inr j ↦
        rw (e, j, parse)
          (parse_body-Fits res (or_else res.json (fallback of_message res))
            (null-fallback of_message res res.json))
  ]
]
