-- ===== src/Auth/Laws.antt =====
-- What holds of the store of web/src/lib/auth.ts however its handlers interleave.
use quagenticus.Base.{
  String, true, false, Option, none, some, List, [], ◌∷◌, ◌≡◌, refl, arith, is_some, string_eq, ap,
  Option-cases, ◌⊎◌, Bool-cases, not, ◌&&◌, inl, inr,
}
use quagenticus.Api.Documents.{Me}
use quagenticus.BoardPage.{truthy}
use quagenticus.Auth.{
  authenticated, anonymous, AuthState, DateConfig, configure_dates, is_authenticated, set_session,
  loaded, failed, bootstrap, logout, set_user, Event, token_changed, user_loaded, user_set,
  load_failed, logged_out, step, run, start,
}

-- An authenticated session has a user, and the dates are shown by the settings of the user.
pub record IsSound (st : AuthState) : Type 0 where
  pub present : is_authenticated st.status ≡ true → is_some st.user ≡ true
  pub settings : (me : Me) → st.user ≡ some me → st.dates ≡ configure_dates me.locale me.timezone

-- The settings of the user that `set` has just put in the store.
user-settings :
    (me m : Me)
    → some me ≡ some m
    → configure_dates me.locale me.timezone ≡ configure_dates m.locale m.timezone
user-settings me m h =
    ap
      (λ (o : Option Me). elim o [
        | none ↦ configure_dates me.locale me.timezone
        | some x ↦ configure_dates x.locale x.timezone
      ])
      h

no-settings : {d : DateConfig} (m : Me) → none ≡ some m → d ≡ configure_dates m.locale m.timezone
no-settings m h = ground arith

set_session-IsSound :
    (token : Option String) (st : AuthState) → IsSound st → IsSound (set_session token st)
unfolding set_session
set_session-IsSound token st v =
    elim (Bool-cases (not (is_some (truthy token)) && is_authenticated st.status)) [
      | inl e ↦ rw (e, set_session) (record { present = ground arith; settings = no-settings })
      | inr e ↦ rw (e, set_session) (record { present = v.present; settings = v.settings })
    ]

step-IsSound : (e : Event) (st : AuthState) → IsSound st → IsSound (step e st)
unfolding step loaded failed logout set_user
step-IsSound (token_changed token) st v = set_session-IsSound token st v
step-IsSound (user_loaded me) st v = record { present = λ _. refl; settings = user-settings me }
step-IsSound (user_set me) st v = record { present = λ _. refl; settings = user-settings me }
step-IsSound load_failed st v = record { present = ground arith; settings = no-settings }
step-IsSound logged_out st v = record { present = ground arith; settings = no-settings }

run-step-IsSound : (events : List Event) (st : AuthState) → IsSound st → IsSound (run events st)
unfolding run
run-step-IsSound [] st v = v
run-step-IsSound (e ∷ events) st v = run-step-IsSound events (step e st) (step-IsSound e st v)

-- In whatever order the changes of the token, the ends of `bootstrap`, `login` and `logout`, and the
-- calls of `setUser` follow each other from the start, the store says "authenticated" only with a
-- user, and whenever it has a user the dates are shown by that user's locale and time zone; the settings of a user who is loaded, and the change of the store that follows
-- them, being one step.
pub run-IsSound : (events : List Event) → IsSound (run events start)
run-IsSound events =
    run-step-IsSound events start (record { present = ground arith; settings = no-settings })

-- `bootstrap` never leaves the store loading: it is authenticated exactly if the refresh gave a
-- non-empty token and the user was loaded, and anonymous without a user otherwise.
bootstrap-settled :
    (token : Option String) (me : Option Me) (st : AuthState)
    → ((is_some (truthy token) && is_some me ≡ true)
        × ((bootstrap token me st).status ≡ authenticated)
        × ((bootstrap token me st).user ≡ me))
      ⊎ ((is_some (truthy token) && is_some me ≡ false)
          × ((bootstrap token me st).status ≡ anonymous)
          × ((bootstrap token me st).user ≡ none))
unfolding bootstrap loaded failed
bootstrap-settled token none st = elim (Option-cases (truthy token)) [
  | inl e ↦ rw (e, bootstrap) (inr (refl, refl, refl))
  | inr (t, e) ↦ rw (e, bootstrap) (inr (refl, refl, refl))
]
bootstrap-settled token (some m) st = elim (Option-cases (truthy token)) [
  | inl e ↦ rw (e, bootstrap) (inr (refl, refl, refl))
  | inr (t, e) ↦ rw (e, bootstrap) (inl (refl, refl, refl))
]
