-- ===== src/Auth.antt =====
-- web/src/lib/auth.ts: the store of the logged-in user, and the date settings of web/src/lib/dates.ts
-- that it configures. What the server answers is an argument, `none` for a rejection.
pub mod Laws
use quagenticus.Base.{
  String, Bool, true, false, Option, none, some, List, [], ◌∷◌, ◌==◌, ◌&&◌, not, string_eq,
  if◌then◌else◌, is_some,
}
use quagenticus.BoardPage.{truthy}
use quagenticus.Api.Documents.{Me}

pub data Status : Type 0 where
  loading authenticated anonymous : Status

-- `currentLocale` and `currentTimeZone`
pub record DateConfig : Type 0 where
  pub current_locale : String
  pub current_time_zone : Option String

-- `configureDates`
unfoldable pub configure_dates : String → String → DateConfig
configure_dates locale time_zone = record {
  current_locale = if locale == "" then "es" else locale;
  current_time_zone =
      if time_zone == "" then none else if time_zone == "UTC" then none else some time_zone;
}

-- the session's token, the store, and the date settings
pub record AuthState : Type 0 where
  pub session_token : Option String
  pub status : Status
  pub token : Option String
  pub user : Option Me
  pub dates : DateConfig

abbrev pub is_authenticated : Status → Bool
is_authenticated authenticated = true
is_authenticated loading = false
is_authenticated anonymous = false

-- `session.set(token)`, which calls the store's listener
unfoldable pub set_session : Option String → AuthState → AuthState
set_session token st =
    if not (is_some (truthy token)) && is_authenticated st.status
    then record st { session_token = token; status = anonymous; token = none; user = none }
    else record st { session_token = token; token = token }

-- `configureDates` of `loadMe`, and `set({ status: 'authenticated', user: await loadMe() })`, which follows it in
-- the next microtask and is taken for the same step
unfoldable pub loaded : Me → AuthState → AuthState
loaded me st = record st {
  status = authenticated;
  user = some me;
  dates = configure_dates me.locale me.timezone;
}

-- `set({ status: 'anonymous', user: null })`
unfoldable pub failed : AuthState → AuthState
failed st = record st { status = anonymous; user = none }

-- `bootstrap`: what the refresh gave, and what `loadMe` did
unfoldable pub bootstrap : Option String → Option Me → AuthState → AuthState
bootstrap token me st =
    let refreshed = set_session token st in
    elim (truthy token) [
      | none ↦ failed refreshed
      | some _ ↦ elim me [ none ↦ failed refreshed | some m ↦ loaded m refreshed ]
    ]

-- `login`: the token of the response, and what `loadMe` did; the flag says that it throws.
unfoldable pub login : Option String → Option Me → AuthState → AuthState × Bool
login none me st = (st, true)
login (some token) none st = (set_session (some token) st, true)
login (some token) (some me) st = (loaded me (set_session (some token) st), false)

unfoldable pub logout : AuthState → AuthState
logout st = record (set_session none st) { status = anonymous; user = none; token = none }

-- `setUser`
unfoldable pub set_user : Me → AuthState → AuthState
set_user me st = record st { user = some me; dates = configure_dates me.locale me.timezone }

-- What changes the store, at the places where the handlers wait for the server: a change of the
-- session's token, the end of `bootstrap` and of `login`, that of `logout`, and `setUser`.
pub data Event : Type 0 where
  token_changed : Option String → Event
  user_loaded user_set : Me → Event
  load_failed logged_out : Event

pub step : Event → AuthState → AuthState
step (token_changed token) st = set_session token st
step (user_loaded me) st = loaded me st
step (user_set me) st = set_user me st
step load_failed st = failed st
step logged_out st = logout st

pub run : List Event → AuthState → AuthState
run [] st = st
run (e ∷ events) st = run events (step e st)

-- the store and the settings before anything has happened
abbrev pub start : AuthState
start = record {
  session_token = none;
  status = loading;
  token = none;
  user = none;
  dates = record { current_locale = "es"; current_time_zone = none };
}
