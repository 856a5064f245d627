-- ===== src/Webui/RateLimit.antt =====
-- The limit on failed logins of internal/webui/webui.go: it never takes effect.
use conduitvpn.Base.{
  ℕ, ◌≤◌, ◌<◌, ◌≡◌, refl, ◌≢◌, inl, inr, Bool, true, false, not, ◌&&◌, ◌||◌, Option, none, some,
  List, [], ◌∷◌, arith, ltb, leb, if◌then◌else◌, Bool-cases, Option-cases, length, All, Str, codes,
  is_empty, str_eq, lookup, delete, lookup-insert, lookup-delete,
}
use conduitvpn.State.Auth.{UiAuth, Loaded, found, missing, unparsed, verify_password}
use conduitvpn.Webui.{
  max_sessions, LoginAttempt, Server, Request, Reply, rate_limited, or_zero, login_blocked, reset,
  count_failure, record_login_failure, prune, is_authorized, open_session, check_credentials,
  with_body, api_login, forget, api_logout, Checked, effective, answered, validate_path,
  without_session, with_session, serve, route, route_if, handle_all,
}

-- No address has more than one counted failure, and none is blocked until a later time.
abbrev pub IsFresh : Option LoginAttempt → Type 0
IsFresh none = Unit
IsFresh (some a) = (a.failed ≤ 1) × (a.until ≡ 0)

abbrev pub AllFresh : Server → Type 0
AllFresh s = (remote : Str) → IsFresh (lookup remote s.attempts)

IsFresh-if :
    (b : Bool) (x y : Option LoginAttempt) → IsFresh x → IsFresh y → IsFresh (if b then x else y)
IsFresh-if true x y h k = h
IsFresh-if false x y h k = k

login_blocked-AllFresh :
    (s : Server) (remote : Str) (now : ℕ) → AllFresh s → login_blocked s remote now ≡ false
unfolding login_blocked
login_blocked-AllFresh s remote now h = elim (Option-cases (lookup remote s.attempts)) [
  | inl e ↦ rw e refl
  | inr (a, e) ↦ let f : IsFresh (some a) = rw e at (h remote) in rw e (ground (arith, f.0, f.1))
]

counted-IsFresh :
    (o : Option LoginAttempt) (now later : ℕ)
    → 0 < now
    → IsFresh o
    → IsFresh (some (count_failure (reset (or_zero o) now) later))
counted-IsFresh none now later p h = ground arith
counted-IsFresh (some a) now later p h = ground arith

record_login_failure-AllFresh :
    (s : Server) (remote : Str) (now later : ℕ)
    → 0 < now
    → AllFresh s
    → AllFresh (record_login_failure s remote now later)
unfolding record_login_failure
record_login_failure-AllFresh s remote now later p h other =
    let o = lookup remote s.attempts in
    elim (Bool-cases (ltb (length s.attempts) 4096 || ltb 0 (or_zero o).failed)) [
      | inl e ↦
          rw
            (e, lookup-insert remote other (count_failure (reset (or_zero o) now) later) s.attempts)
            (IsFresh-if (str_eq remote other) _ _ (counted-IsFresh o now later p (h remote))
              (h other))
      | inr e ↦ rw e (h other)
    ]

delete-AllFresh :
    (remote : Str) (s : Server)
    → AllFresh s
    → (other : Str) → IsFresh (lookup other (delete remote s.attempts))
delete-AllFresh remote s h other =
    rw (lookup-delete remote other s.attempts)
      (IsFresh-if (str_eq remote other) none _ tt (h other))

-- The second part of each result keeps the attempts fresh, and the reply is not the limit's.
abbrev IsOpen : Reply × Server → Type 0
IsOpen (reply, s) = (reply ≢ rate_limited) × AllFresh s

IsOpen-if : (b : Bool) (x y : Reply × Server) → IsOpen x → IsOpen y → IsOpen (if b then x else y)
IsOpen-if true x y h k = h
IsOpen-if false x y h k = k

module _ (hmac : List ℕ → List ℕ → List ℕ) (clock : ℕ → ℕ) (positive : (k : ℕ) → 0 < clock k) where
  open_session-IsOpen :
      (s : Server) (remote : Str) (token : Option Str)
      → AllFresh s
      → IsOpen (open_session hmac s remote token clock)
  unfolding open_session
  open_session-IsOpen s remote none h = (λ e. cc, h)
  open_session-IsOpen s remote (some token) h =
      IsOpen-if (leb max_sessions (length (prune s.sessions (clock 3)))) _ _ (λ e. cc, h)
        (λ e. cc, delete-AllFresh remote s h)

  check_credentials-IsOpen :
      (s : Server) (r : Request) (body : Str × Str) (auth : UiAuth) (token : Option Str)
      → AllFresh s
      → IsOpen (check_credentials hmac s r body auth token clock)
  unfolding check_credentials
  check_credentials-IsOpen s r (username, password) auth token h =
      IsOpen-if
        (is_empty auth.username || is_empty auth.password_hash || is_empty auth.password_salt) _ _
        (λ e. cc, h)
        (IsOpen-if (not (str_eq username auth.username) || not (verify_password hmac auth password))
          _ _ (λ e. cc, record_login_failure-AllFresh s r.remote (clock 1) (clock 2) (positive 1) h)
          (open_session-IsOpen s r.remote token h))

  with_body-IsOpen :
      (body : Option (Str × Str)) (loaded : Loaded) (s : Server) (r : Request) (token : Option Str)
      → AllFresh s
      → IsOpen (with_body hmac body loaded s r token clock)
  with_body-IsOpen none loaded s r token h = (λ e. cc, h)
  with_body-IsOpen (some body) missing s r token h = (λ e. cc, h)
  with_body-IsOpen (some body) unparsed s r token h = (λ e. cc, h)
  with_body-IsOpen (some body) (found auth) s r token h =
      check_credentials-IsOpen s r body auth token h

  api_login-IsOpen :
      (loaded : Loaded) (token : Option Str) (s : Server) (r : Request)
      → AllFresh s
      → IsOpen (api_login hmac loaded token clock s r)
  unfolding api_login
  api_login-IsOpen loaded token s r h =
      IsOpen-if (not r.is_post) _ _ (λ e. cc, h)
        (rw (login_blocked-AllFresh s r.remote (clock 0) h)
          (with_body-IsOpen r.body loaded s r token h))

  authorize-attempts :
      (s : Server) (r : Request) → (is_authorized s r clock).1.attempts ≡ s.attempts
  unfolding is_authorized
  authorize-attempts s r = ground arith

  forget-attempts : (c : Option Str) (s : Server) → (forget c s).attempts ≡ s.attempts
  forget-attempts none s = refl
  forget-attempts (some token) s = refl

  api_logout-IsOpen : (s : Server) (r : Request) → AllFresh s → IsOpen (api_logout s r)
  unfolding api_logout
  api_logout-IsOpen s r h =
      IsOpen-if (not r.is_post) _ _ (λ e. cc, h) (λ e. cc, rw (forget-attempts r.cookie s) h)

  with_session-IsOther : (path : Str) → with_session path ≢ rate_limited
  with_session-IsOther path = ground arith

  without_session-IsOther : (path : Str) → without_session path ≢ rate_limited
  without_session-IsOther path = ground arith

  serve-IsOpen : (path : Str) (o : Bool × Server) → AllFresh o.1 → IsOpen (serve path o)
  serve-IsOpen path (true, s) h = (with_session-IsOther path, h)
  serve-IsOpen path (false, s) h = (without_session-IsOther path, h)

  route-IsOpen :
      (loaded : Loaded) (token : Option Str) (s : Server) (r : Request) (path : Str)
      → AllFresh s
      → IsOpen (route hmac loaded token clock s r path)
  unfolding route
  route-IsOpen loaded token s r path h =
      IsOpen-if (str_eq path (codes "/api/login")) _ _ (api_login-IsOpen loaded token s r h) (
        IsOpen-if (str_eq path (codes "/api/logout")) _ _ (api_logout-IsOpen s r h)
          (serve-IsOpen path (is_authorized s r clock) (rw (authorize-attempts s r) h)))

  validate_path-IsOther :
      (s : Server) (path : Str) (reply : Reply)
      → validate_path s path ≡ answered reply
      → reply ≢ rate_limited
  unfolding validate_path
  validate_path-IsOther s path reply e = ground arith

  route_if-IsOpen :
      (c : Checked) (loaded : Loaded) (token : Option Str) (s : Server) (r : Request)
      → ((reply : Reply) → c ≡ answered reply → reply ≢ rate_limited)
      → AllFresh s
      → IsOpen (route_if hmac c loaded token clock s r)
  route_if-IsOpen (answered reply) loaded token s r g h = (g reply refl, h)
  route_if-IsOpen (effective path) loaded token s r g h = route-IsOpen loaded token s r path h

  handle_all-IsOpen :
      (loaded : Loaded) (token : Option Str) (s : Server) (r : Request)
      → AllFresh s
      → IsOpen (handle_all hmac loaded token clock s r)
  unfolding handle_all
  handle_all-IsOpen loaded token s r h =
      IsOpen-if (s.demo && str_eq r.path (codes "/")) _ _ (λ e. cc, h)
        (route_if-IsOpen (validate_path s r.path) loaded token s r
          (λ reply e. validate_path-IsOther s r.path reply e) h)

-- A request with what it meets: the stored login, the random token and the clock.
pub record Visit : Type 0 where
  pub request : Request
  pub loaded : Loaded
  pub token : Option Str
  pub clock : ℕ → ℕ

-- The replies to a sequence of requests.
unfoldable pub replies : (List ℕ → List ℕ → List ℕ) → Server → List Visit → List Reply
unfolding handle_all
replies hmac s [] = []
replies hmac s (v ∷ vs) =
    let (reply, t) = handle_all hmac v.loaded v.token v.clock s v.request in
    reply ∷ replies hmac t vs

replies-AllFresh :
    (hmac : List ℕ → List ℕ → List ℕ) (s : Server) (vs : List Visit)
    → AllFresh s
    → All (λ (v : Visit). (k : ℕ) → 0 < v.clock k) vs
    → All (λ reply. reply ≢ rate_limited) (replies hmac s vs)
unfolding replies
replies-AllFresh hmac s [] h p = tt
replies-AllFresh hmac s (v ∷ vs) h (p, ps) =
    let answer = handle_all hmac v.loaded v.token v.clock s v.request in
    let (other, fresh) = handle_all-IsOpen hmac v.clock p v.loaded v.token s v.request h in
    (other, replies-AllFresh hmac answer.1 vs fresh ps)

-- No request of any sequence, to a server without failed logins, is answered by the limit on
-- failed logins, however many of them failed: the time of an attempt is 0 until the limit sets it,
-- and recordLoginFailure resets an attempt whose time lies in the past.
pub replies-IsOpen :
    (hmac : List ℕ → List ℕ → List ℕ) (s : Server) (vs : List Visit)
    → s.attempts ≡ []
    → All (λ (v : Visit). (k : ℕ) → 0 < v.clock k) vs
    → All (λ reply. reply ≢ rate_limited) (replies hmac s vs)
unfolding lookup
replies-IsOpen hmac s vs e p = replies-AllFresh hmac s vs (λ remote. rw e tt) p
