-- ===== src/Webui/Gate.antt =====
-- Who is let through by handleAll of internal/webui/webui.go.
use conduitvpn.Base.{
  ℕ, ◌<◌, ◌≡◌, refl, inl, inr, Bool, true, false, ◌&&◌, Option, none, some, List, arith,
  if◌then◌else◌, Bool-cases, Str, codes, str_eq, has_prefix, lookup,
}
use conduitvpn.State.Auth.{Loaded}
use conduitvpn.Webui.{
  Server, Request, Reply, index_page, api_call, session_of, authorize, is_authorized, open_session,
  check_credentials, api_login, api_logout, secret_prefix, Checked, effective, answered,
  validate_path, without_session, serve, route, route_if, handle_all,
}

-- The replies with what the panel knows.
abbrev pub is_panel : Reply → Bool
is_panel (api_call path) = true
is_panel index_page = true
is_panel reply = false

-- The request carries the token of a session that has not run out at either reading of the clock.
abbrev pub IsLive : Server → Request → (ℕ → ℕ) → Type 0
IsLive s r clock =
    (token : Str) × (exp : ℕ) × (r.cookie ≡ some token)
    × (lookup token s.sessions ≡ some exp)
    × (clock 0 < exp)
    × (clock 1 < exp)

impossible : {A : Type 0} → {b : Bool} → b ≡ false → b ≡ true → A
impossible p q = let c : ⊥ = cc in absurd c

without_session-is_panel : (path : Str) → is_panel (without_session path) ≡ false
without_session-is_panel path = ground arith

session_of-IsLive :
    (o : Option ℕ) (s : Server) (token : Str) (now later : ℕ)
    → (session_of o s token now later).0 ≡ true
    → (exp : ℕ) × (o ≡ some exp) × (now < exp) × (later < exp)
session_of-IsLive none s token now later e = impossible refl e
session_of-IsLive (some exp) s token now later e = (exp, refl, ground arith, ground arith)

authorize-IsLive :
    (c : Option Str) (s : Server) (clock : ℕ → ℕ)
    → (authorize c s clock).0 ≡ true
    → (token : Str) × (exp : ℕ) × (c ≡ some token)
      × (lookup token s.sessions ≡ some exp)
      × (clock 0 < exp)
      × (clock 1 < exp)
authorize-IsLive none s clock e = impossible refl e
authorize-IsLive (some token) s clock e =
    let (exp, is_found, first, second) =
      session_of-IsLive (lookup token s.sessions) s token (clock 0) (clock 1) e in
    (token, exp, refl, is_found, first, second)

-- A reply of the panel is given to a live session only.
abbrev IsGated : Server → Request → (ℕ → ℕ) → Reply × Server → Type 0
IsGated s r clock o = is_panel o.0 ≡ true → IsLive s r clock

IsGated-if :
    (s : Server) (r : Request) (clock : ℕ → ℕ) (b : Bool) (x y : Reply × Server)
    → IsGated s r clock x
    → IsGated s r clock y
    → IsGated s r clock (if b then x else y)
IsGated-if s r clock true x y h k = h
IsGated-if s r clock false x y h k = k

serve-IsGated : (path : Str) (o : Bool × Server) → is_panel (serve path o).0 ≡ true → o.0 ≡ true
serve-IsGated path (true, s) e = refl
serve-IsGated path (false, s) e = impossible (without_session-is_panel path) e

api_login-is_panel :
    (hmac : List ℕ → List ℕ → List ℕ) (loaded : Loaded) (token : Option Str) (clock : ℕ → ℕ)
    (s : Server) (r : Request)
    → is_panel (api_login hmac loaded token clock s r).0 ≡ false
unfolding api_login check_credentials open_session
api_login-is_panel hmac loaded token clock s r = ground arith

api_logout-is_panel : (s : Server) (r : Request) → is_panel (api_logout s r).0 ≡ false
unfolding api_logout
api_logout-is_panel s r = ground arith

module _ (hmac : List ℕ → List ℕ → List ℕ) (loaded : Loaded) (token : Option Str)
    (clock : ℕ → ℕ) where
  route-IsGated :
      (s : Server) (r : Request) (path : Str)
      → IsGated s r clock (route hmac loaded token clock s r path)
  unfolding route is_authorized
  route-IsGated s r path =
      IsGated-if s r clock (str_eq path (codes "/api/login")) _ _
        (λ e. impossible (api_login-is_panel hmac loaded token clock s r) e)
        (IsGated-if s r clock (str_eq path (codes "/api/logout")) _ _
          (λ e. impossible (api_logout-is_panel s r) e)
          (λ e.
            authorize-IsLive r.cookie s clock (serve-IsGated path (authorize r.cookie s clock) e)))

  validate_path-is_panel :
      (s : Server) (path : Str) (reply : Reply)
      → validate_path s path ≡ answered reply
      → is_panel reply ≡ false
  unfolding validate_path
  validate_path-is_panel s path reply e = ground arith

  route_if-IsGated :
      (c : Checked) (s : Server) (r : Request)
      → ((reply : Reply) → c ≡ answered reply → is_panel reply ≡ false)
      → is_panel (route_if hmac c loaded token clock s r).0 ≡ true
      → ((path : Str) × (c ≡ effective path)) × IsLive s r clock
  route_if-IsGated (answered reply) s r g e = impossible (g reply refl) e
  route_if-IsGated (effective path) s r g e = ((path, refl), route-IsGated s r path e)

  validate_path-effective :
      (s : Server) (path below : Str)
      → validate_path s path ≡ effective below
      → has_prefix path (secret_prefix s) ≡ true
  unfolding validate_path
  validate_path-effective s path below e = ground arith

  -- A request that is answered with the panel or by its API carries the token of a session that has
  -- not run out at either reading of the clock, and its path lies below the secret one.
  pub handle_all-IsLive :
      (s : Server) (r : Request)
      → is_panel (handle_all hmac loaded token clock s r).0 ≡ true
      → IsLive s r clock × (has_prefix r.path (secret_prefix s) ≡ true)
  unfolding handle_all
  handle_all-IsLive s r e = elim (Bool-cases (s.demo && str_eq r.path (codes "/"))) [
    | inl y ↦ impossible refl (rw y at e)
    | inr n ↦
        let (path, live) =
          route_if-IsGated (validate_path s r.path) s r (validate_path-is_panel s r.path)
            (rw n at e) in
        (live, validate_path-effective s r.path path.0 path.1)
  ]
