-- ===== src/Webui.antt =====
-- internal/webui/webui.go: the routing behind the secret path, the sessions and the limit on failed
-- logins. Go's time is a number of seconds since the zero time, so that `time.Time{}` is 0. A
-- handler reads the clock several times: `clock k` is its k-th reading. What a handler sends is a
-- `Reply`; pages, assets and the JSON of the API are not spelled out.
pub mod Api
pub mod Sessions
pub mod RateLimit
pub mod Gate
mod Examples
use conduitvpn.Base.{
  ℕ, zero, suc, ◌+◌, ◌-◌, ◌*◌, ◌/◌, ◌%◌, ◌^◌, ◌≤◌, ◌<◌, ◌≡◌, refl, sym, ap, ◌∙◌, subst, ◌≢◌, ◌↔◌,
  ◌⊎◌, inl, inr, Bool, true, false, not, ◌&&◌, ◌||◌, Option, none, some, List, [], ◌∷◌, ◌++◌, map,
  arith, ltb, leb, ◌==◌, if◌then◌else◌, is_some, ==_iff, Bool-cases, Option-cases, length,
  get_elem?, set, take, drop, any, keep, All, Elem, length-append, length-drop, length-take,
  length-set, All-Elem, Elem-append_left, Elem-append_last, Str, codes, is_empty, str_eq,
  str_eq_iff, str_eq_refl, trim_space, trim, to_upper, to_lower, has_prefix, trim_prefix, contains,
  split, fields, join, one_of, one_of_sound, one_of_complete, to_upper_idem, Dict, lookup, insert,
  delete, keys, lookup-insert, lookup-delete, ℤ, pos, negsuc, ltb_ℤ, leb_ℤ, add_ℕ, sort_stable,
  IsSorted, atoi, sprint, parse_ip, to4, is_loopback,
}
use conduitvpn.State.Auth.{UiAuth, Loaded, found, missing, unparsed, verify_password}

-- `time.Time.After` and `time.Time.Before`.
abbrev pub after : ℕ → ℕ → Bool
after t u = ltb u t

abbrev pub session_ttl : ℕ
session_ttl = 43200

abbrev pub max_sessions : ℕ
max_sessions = 256

abbrev pub max_login_failures : ℕ
max_login_failures = 5

abbrev pub login_window : ℕ
login_window = 900

pub record LoginAttempt : Type 0 where
  pub failed : ℕ
  pub until : ℕ

abbrev pub zero_attempt : LoginAttempt
zero_attempt = record { failed = 0; until = 0 }

pub record Server : Type 0 where
  pub demo : Bool
  pub tls : Bool
  pub secret : Str
  pub sessions : Dict ℕ
  pub attempts : Dict LoginAttempt

pub record Request : Type 0 where
  pub is_post : Bool
  pub path : Str
  pub remote : Str
  -- The value of the session cookie.
  pub cookie : Option Str
  -- The decoded body of a login, or `none` where decodeJSON fails.
  pub body : Option (Str × Str)

pub data Reply : Type 0 where
  redirect not_found method_not_allowed rate_limited invalid_json : Reply
  auth_not_initialized login_failed internal_error session_capacity : Reply
  logged_in : Str → Reply
  logged_out login_page unauthorized index_page : Reply
  static_file api_call : Str → Reply

abbrev pub or_zero : Option LoginAttempt → LoginAttempt
or_zero none = zero_attempt
or_zero (some a) = a

abbrev is_blocked : Option LoginAttempt → ℕ → Bool
is_blocked none now = false
is_blocked (some a) now = leb max_login_failures a.failed && after a.until now

unfoldable pub login_blocked : Server → Str → ℕ → Bool
login_blocked s remote now = is_blocked (lookup remote s.attempts) now

-- The attempt behind a failure: forgotten where its time is over, then counted.
abbrev pub reset : LoginAttempt → ℕ → LoginAttempt
reset a now = if ltb a.until now then zero_attempt else a

abbrev pub count_failure : LoginAttempt → ℕ → LoginAttempt
count_failure a now =
    let failed = a.failed + 1 in
    record {
      failed = failed;
      until = if leb max_login_failures failed then now + login_window else a.until;
    }

unfoldable pub record_login_failure : Server → Str → ℕ → ℕ → Server
record_login_failure s remote now later =
    let old = or_zero (lookup remote s.attempts) in
    let a = count_failure (reset old now) later in
    if ltb (length s.attempts) 4096 || ltb 0 old.failed
    then record s { attempts = insert remote a s.attempts }
    else s

-- The sessions that have not run out.
unfoldable pub prune : Dict ℕ → ℕ → Dict ℕ
prune [] now = []
prune ((token, exp) ∷ rest) now =
    let kept = prune rest now in if after exp now then (token, exp) ∷ kept else kept

abbrev session_of : Option ℕ → Server → Str → ℕ → ℕ → Bool × Server
session_of none s token now later = (false, s)
session_of (some exp) s token now later =
    if not (after exp now)
    then (false, record s { sessions = delete token s.sessions })
    else (after exp later, s)

abbrev authorize : Option Str → Server → (ℕ → ℕ) → Bool × Server
authorize none s clock = (false, s)
authorize (some token) s clock = session_of (lookup token s.sessions) s token (clock 0) (clock 1)

unfoldable pub is_authorized : Server → Request → (ℕ → ℕ) → Bool × Server
is_authorized s r clock = authorize r.cookie s clock

abbrev forget : Option Str → Server → Server
forget none s = s
forget (some token) s = record s { sessions = delete token s.sessions }

unfoldable pub api_logout : Server → Request → Reply × Server
api_logout s r = if not r.is_post then (method_not_allowed, s) else (logged_out, forget r.cookie s)

-- isStaticAsset: a dot behind the last slash.
unfoldable pub has_dot_in_last : Str → Bool
has_dot_in_last [] = false
has_dot_in_last (c ∷ s) =
    let rest = has_dot_in_last s in if any (λ d. d == b'/') s then rest else rest || c == b'.'

abbrev pub secret_prefix : Server → Str
secret_prefix s = codes "/" ++ (s.secret ++ codes "/")

-- validatePath: the path below the secret one, or the reply that was sent.
pub data Checked : Type 0 where
  effective : Str → Checked
  answered : Reply → Checked

unfoldable pub validate_path : Server → Str → Checked
validate_path s path =
    if str_eq path (codes "/" ++ s.secret)
    then answered redirect
    else if has_prefix path (secret_prefix s)
    then effective (codes "/" ++ trim_prefix path (secret_prefix s))
    else answered not_found

-- What is sent to a browser without a session, and with one.
abbrev pub without_session : Str → Reply
without_session path =
    if str_eq path (codes "/") || str_eq path (codes "/index.html")
    then login_page
    else if has_dot_in_last path
    then static_file path
    else unauthorized

abbrev pub with_session : Str → Reply
with_session path =
    if has_prefix path (codes "/api/")
    then api_call path
    else if str_eq path (codes "/") || str_eq path (codes "/index.html")
    then index_page
    else static_file path

abbrev pub serve : Str → Bool × Server → Reply × Server
serve path (allowed, s) = (if allowed then with_session path else without_session path, s)

module _ (hmac : List ℕ → List ℕ → List ℕ) where
  -- The end of a login whose credentials are right; `token` is what randToken returns.
  unfoldable pub open_session : Server → Str → Option Str → (ℕ → ℕ) → Reply × Server
  unfolding prune
  open_session s remote none clock = (internal_error, s)
  open_session s remote (some token) clock =
      let live = prune s.sessions (clock 3) in
      if leb max_sessions (length live) then (session_capacity, record s { sessions = live }) else (
        logged_in token,
        record s {
          sessions = insert token (clock 4 + session_ttl) live;
          attempts = delete remote s.attempts;
        },
      )

  pub check_credentials :
      Server → Request → Str × Str → UiAuth → Option Str → (ℕ → ℕ) → Reply × Server
  unfolding open_session record_login_failure
  check_credentials s r (username, password) auth token clock =
      if is_empty auth.username || is_empty auth.password_hash || is_empty auth.password_salt
      then (auth_not_initialized, s)
      else if not (str_eq username auth.username) || not (verify_password hmac auth password)
      then (login_failed, record_login_failure s r.remote (clock 1) (clock 2))
      else open_session s r.remote token clock

  abbrev pub with_auth :
      Loaded → Server → Request → Str × Str → Option Str → (ℕ → ℕ) → Reply × Server
  with_auth missing s r body token clock = (auth_not_initialized, s)
  with_auth unparsed s r body token clock = (auth_not_initialized, s)
  with_auth (found auth) s r body token clock = check_credentials s r body auth token clock

  abbrev pub with_body :
      Option (Str × Str) → Loaded → Server → Request → Option Str → (ℕ → ℕ) → Reply × Server
  with_body none loaded s r token clock = (invalid_json, s)
  with_body (some body) loaded s r token clock = with_auth loaded s r body token clock

  unfoldable pub api_login : Loaded → Option Str → (ℕ → ℕ) → Server → Request → Reply × Server
  unfolding check_credentials login_blocked
  api_login loaded token clock s r =
      if not r.is_post
      then (method_not_allowed, s)
      else if login_blocked s r.remote (clock 0)
      then (rate_limited, s)
      else with_body r.body loaded s r token clock

  unfoldable pub route : Loaded → Option Str → (ℕ → ℕ) → Server → Request → Str → Reply × Server
  unfolding api_login api_logout is_authorized has_dot_in_last
  route loaded token clock s r path =
      if str_eq path (codes "/api/login")
      then api_login loaded token clock s r
      else if str_eq path (codes "/api/logout")
      then api_logout s r
      else serve path (is_authorized s r clock)

  abbrev pub route_if : Checked → Loaded → Option Str → (ℕ → ℕ) → Server → Request → Reply × Server
  route_if (answered reply) loaded token clock s r = (reply, s)
  route_if (effective path) loaded token clock s r = route loaded token clock s r path

  unfoldable pub handle_all : Loaded → Option Str → (ℕ → ℕ) → Server → Request → Reply × Server
  unfolding route validate_path
  handle_all loaded token clock s r =
      if s.demo && str_eq r.path (codes "/")
      then (redirect, s)
      else route_if (validate_path s r.path) loaded token clock s r
