-- ===== src/Api/Upload/Laws.antt =====
-- How often `uploadXHR` of web/src/lib/api.ts sends the files, and what it makes of the answer.
use quagenticus.Base.{
  ℕ, Bool, true, false, String, Option, none, some, List, [], ◌∷◌, ◌++◌, ◌≡◌, ◌≢◌, refl, ap, ◌∙◌,
  inl, inr, ◌==◌, nat_eq, Bool-cases, Option-cases, append_assoc,
}
use quagenticus.BoardPage.{truthy}
use quagenticus.Api.Session.{
  Response, Server, Session, Call, send, renew, send_request, refresh_session, is_ok, Result, ok,
  err, thrown, unsettled,
}
use quagenticus.Api.Session.Laws.{first_reply}
use quagenticus.Api.Upload.{body_of, load, conclude, upload_again, first_ended, upload_xhr}

some_is_not-none : {o : Option String} {t : String} → o ≡ some t → o ≢ none
some_is_not-none h k = cc

-- What the end of an attempt says about its status and its body, which is `null` or not.
abbrev Ends : {V : Type 0} → ℕ → Bool → Result V → Type 0
Ends status null (ok _) = is_ok status ≡ true
Ends status null (err e) = (is_ok status ≡ false) × (null ≡ false) × (e.status ≡ status)
Ends status null thrown = ⊥
Ends status null unsettled = (is_ok status ≡ false) × (null ≡ true)

-- An upload is resolved exactly by a status from 200 to 299, and any other status is in the error, also when
-- the body is no JSON; only if the body is `null` the upload never ends.
load-Ends :
    {V : Type 0} (empty : V) (res : Response V)
    → Ends res.status (body_of empty res).is_null (load empty res)
unfolding load
load-Ends empty res = elim (Bool-cases (is_ok res.status)) [
  | inl e ↦ rw (e, load) e
  | inr e ↦ elim (Bool-cases (body_of empty res).is_null) [
    | inl n ↦ rw (e, n, load) (e, refl)
    | inr n ↦ rw (e, n, load) (e, refl, refl)
  ]
]

module _ {V : Type 0} (server : Server V) (empty : V) where
  -- the first reply is a 401
  abbrev Refused : String → Session server → Type 0
  Refused path s = (res : Response V) × (first_reply server path s ≡ some res) × (res.status ≡ 401)

  -- the calls that an upload makes: one, one and a refresh, or two with a refresh between
  pub data Attempts (path : String) (s after : Session server) : List Call → Type 0 where
    once : Attempts path s after (send (truthy s.token) path ∷ [])
    logged_out :
        Refused path s
        → truthy after.token ≡ none
        → Attempts path s after (send (truthy s.token) path ∷ renew ∷ [])
    twice :
        Refused path s
        → truthy after.token ≢ none
        → Attempts path s after
            (send (truthy s.token) path ∷ renew ∷ send (truthy after.token) path ∷ [])

  abbrev Counts : String → Session server → Session server → Type 0
  Counts path s after =
      (more : List Call) × (after.calls ≡ s.calls ++ more) × Attempts path s after more

  conclude-session : (x : Session server × Option (Response V)) → (conclude server empty x).0 ≡ x.0
  conclude-session (s, none) = refl
  conclude-session (s, some res) = refl

  upload_again-Counts :
      (path : String) (res : Response V) (s renewed : Session server) (token : Option String)
      → renewed.calls ≡ s.calls ++ send (truthy s.token) path ∷ renew ∷ []
      → renewed.token ≡ token
      → Refused path s
      → Counts path s (upload_again server empty path res (renewed, token)).0
  unfolding upload_again send_request
  upload_again-Counts path res s renewed token c k first = elim (Option-cases (truthy token)) [
    | inl e ↦ rw (e, upload_again) (_, c, logged_out first (ap truthy k ∙ e))
    | inr (t, e) ↦
        rw (e, upload_again)
          (rw (conclude-session (send_request server path renewed))
            (_, rw c (append_assoc s.calls _ _), twice first (some_is_not-none (ap truthy k ∙ e))))
  ]

  -- An upload sends the files once or twice, and a second time only if the first reply is a 401 and a
  -- refresh has given a token, with that token; never more.
  pub upload_xhr-Attempts :
      (path : String) (s : Session server)
      → (more : List Call) × ((upload_xhr server empty path s).0.calls ≡ s.calls ++ more)
        × Attempts path s (upload_xhr server empty path s).0 more
  unfolding upload_xhr first_ended send_request refresh_session
  upload_xhr-Attempts path s = go (server.fetch s.state (truthy s.token) path).1 refl
    where
      go :
          (o : Option (Response V))
          → (server.fetch s.state (truthy s.token) path).1 ≡ o
          → Counts path s (upload_xhr server empty path s).0
      go none e = rw (e, upload_xhr, first_ended) (_, refl, once)
      go (some res) e = elim (Bool-cases (res.status == 401)) [
        | inl k ↦
            rw (e, upload_xhr, first_ended, k)
              (upload_again-Counts path res s _ _ (append_assoc s.calls _ _) refl
                (res, e, (nat_eq.same_iff res.status 401).0 k))
        | inr k ↦ rw (e, upload_xhr, first_ended, k) (_, refl, once)
      ]
