-- ===== src/Webui/Examples.antt =====
-- A login, a visit with its session, a logout, and the theorems at them.
use conduitvpn.Base.{
  ℕ, ◌+◌, ◌≤◌, ◌<◌, ◌≡◌, refl, ◌≢◌, ◌↔◌, true, false, Option, none, some, [], ◌∷◌, arith, length,
  All, Str, codes, str_eq, has_prefix, trim_prefix, lookup,
}
use conduitvpn.State.Auth.{found, missing, verify_password}
use conduitvpn.Webui.{
  Server, Request, rate_limited, logged_in, login_blocked, prune, is_authorized, open_session,
  check_credentials, api_login, api_logout, validate_path, route, handle_all,
}
use conduitvpn.State.Auth.Password.{verify_password_iff, is_empty-hash}
use conduitvpn.State.Auth.Examples.{
  toy_hmac, toy_rand, toy-Crypto, admin, admin-IsStored, long_password,
}
use conduitvpn.Webui.RateLimit.{replies-IsOpen, replies}
use conduitvpn.Webui.Gate.{is_panel, handle_all-IsLive, IsLive}
use conduitvpn.Webui.Sessions.{
  api_login-logged_in, api_logout-revokes, handle_all-length, IsGranted,
}

abbrev server : Server
server = record { demo = false; tls = true; secret = codes "s3cret"; sessions = []; attempts = [] }

abbrev token : Str
token = codes "00112233"

-- The k-th reading of the clock.
abbrev clock : ℕ → ℕ
clock k = 1000 + k

abbrev post : Str → Option Str → Option (Str × Str) → Request
post path cookie body = record {
  is_post = true;
  path = path;
  remote = codes "192.0.2.1";
  cookie = cookie;
  body = body;
}

abbrev login : Request
login = post (codes "/s3cret/api/login") none (some (codes "admin", long_password))

abbrev visit : Request
visit = record (post (codes "/s3cret/api/status") (some token) none) { is_post = false }

abbrev logout : Request
logout = post (codes "/s3cret/api/logout") (some token) none

abbrev known : Server
known = record server { sessions = (token, 44204) ∷ [] }

right_password : verify_password toy_hmac admin long_password ≡ true
right_password =
    (verify_password_iff toy_hmac toy_rand toy-Crypto admin long_password long_password
        admin-IsStored).1
      refl

login_succeeds :
    (api_login toy_hmac (found admin) (some token) clock server login).0 ≡ logged_in token
unfolding api_login check_credentials login_blocked open_session lookup prune str_eq
login_succeeds =
    rw (is_empty-hash toy_hmac toy_rand toy-Crypto long_password _, right_password) refl

visit_allowed : is_panel (handle_all toy_hmac missing none clock known visit).0 ≡ true
unfolding handle_all validate_path route is_authorized lookup str_eq has_prefix trim_prefix
visit_allowed = refl

replies-IsOpen_example :
    All
      (λ reply. reply ≢ rate_limited)
      (replies toy_hmac server
        (record { request = login; loaded = missing; token = none; clock = clock } ∷ []))
replies-IsOpen_example =
    replies-IsOpen toy_hmac server
      (record { request = login; loaded = missing; token = none; clock = clock } ∷ []) refl
      (λ k. omega arith, tt)

api_login-logged_in_example :
    IsGranted toy_hmac (found admin) server login 1000
    × (some token ≡ some token)
    × (((is_authorized
            (api_login toy_hmac (found admin) (some token) clock server login).1
            visit
            clock).0
          ≡ true)
        ↔ ((1000 < 44204) × (1001 < 44204)))
api_login-logged_in_example =
    api_login-logged_in toy_hmac clock (found admin) server login (some token) token clock visit
      login_succeeds refl

api_logout-revokes_example : (is_authorized (api_logout known logout).1 visit clock).0 ≡ false
api_logout-revokes_example = api_logout-revokes known logout visit token clock refl refl refl

handle_all-length_example :
    length (handle_all toy_hmac (found admin) (some token) clock known login).1.sessions ≤ 256
handle_all-length_example =
    handle_all-length toy_hmac (found admin) (some token) clock known login (omega arith)

handle_all-IsLive_example :
    IsLive known visit clock × (has_prefix (codes "/s3cret/api/status") (codes "/s3cret/") ≡ true)
handle_all-IsLive_example = handle_all-IsLive toy_hmac missing none clock known visit visit_allowed
