-- ===== src/Webui/Sessions.antt =====
-- The sessions of internal/webui/webui.go: who gets one, how long it lasts, how many there are.
use conduitvpn.Base.{
  ℕ, suc, ◌+◌, ◌≤◌, ◌<◌, ◌≡◌, refl, ap, ◌↔◌, inl, inr, Bool, true, false, not, ◌&&◌, ◌||◌, Option,
  none, some, List, [], ◌∷◌, arith, leb, if◌then◌else◌, Bool-cases, length, Str, codes, is_empty,
  str_eq, str_eq_iff, str_eq_refl, Dict, lookup, insert, delete, lookup-insert, lookup-delete,
}
use conduitvpn.State.Auth.{UiAuth, Loaded, found, missing, unparsed, verify_password}
use conduitvpn.Webui.{
  session_ttl, max_sessions, Server, Request, Reply, method_not_allowed, rate_limited,
  session_capacity, logged_in, login_blocked, record_login_failure, prune, session_of, authorize,
  is_authorized, open_session, check_credentials, with_body, api_login, forget, api_logout, Checked,
  effective, answered, validate_path, route, route_if, handle_all,
}

length-insert : {A : Type 0} (k : Str) (v : A) (m : Dict A) → length (insert k v m) ≤ suc (length m)
unfolding insert
length-insert k v [] = omega arith
length-insert k v ((j, w) ∷ m) = ground (arith, length-insert k v m)

length-delete : {A : Type 0} (k : Str) (m : Dict A) → length (delete k m) ≤ length m
unfolding delete
length-delete k [] = omega arith
length-delete k ((j, w) ∷ m) = ground (arith, length-delete k m)

length-prune : (m : Dict ℕ) (now : ℕ) → length (prune m now) ≤ length m
unfolding prune
length-prune [] now = omega arith
length-prune ((j, w) ∷ m) now = ground (arith, length-prune m now)

-- What a login must have met for a session to be opened.
abbrev pub IsGranted : (List ℕ → List ℕ → List ℕ) → Loaded → Server → Request → ℕ → Type 0
IsGranted hmac loaded s r now =
    (auth : UiAuth) × (password : Str) × (loaded ≡ found auth)
    × (r.body ≡ some (auth.username, password))
    × (verify_password hmac auth password ≡ true)
    × (login_blocked s r.remote now ≡ false)
    × (r.is_post ≡ true)

within :
    (exp now later : ℕ) (s : Server) (token : Str)
    → ((session_of (some exp) s token now later).0 ≡ true) ↔ ((now < exp) × (later < exp))
within exp now later s token = (λ e. (ground arith, ground arith), λ (p, q). ground arith)

module _ (hmac : List ℕ → List ℕ → List ℕ) (clock : ℕ → ℕ) where
  open_session-logged_in :
      (s : Server) (remote : Str) (o : Option Str) (token : Str)
      → (open_session hmac s remote o clock).0 ≡ logged_in token
      → (o ≡ some token)
        × (lookup token (open_session hmac s remote o clock).1.sessions
            ≡ some (clock 4 + session_ttl))
  unfolding open_session
  open_session-logged_in s remote none token e = absurd cc
  open_session-logged_in s remote (some t) token e =
      let live = prune s.sessions (clock 3) in
      elim (Bool-cases (leb max_sessions (length live))) [
        | inl y ↦ let f : session_capacity ≡ logged_in token = rw y at e in absurd cc
        | inr n ↦
            let f : logged_in t ≡ logged_in token = rw n at e in
            let same : t ≡ token = cc in
            (
              ap some same,
              rw (n, lookup-insert t token (clock 4 + session_ttl) live, same, str_eq_refl token)
                  refl,
            )
      ]

  check_credentials-logged_in :
      (s : Server) (r : Request) (name password : Str) (auth : UiAuth) (o : Option Str)
      (token : Str)
      → (check_credentials hmac s r (name, password) auth o clock).0 ≡ logged_in token
      → (name ≡ auth.username)
        × (verify_password hmac auth password ≡ true)
        × (check_credentials hmac s r (name, password) auth o clock
            ≡ open_session hmac s r.remote o clock)
  unfolding check_credentials
  check_credentials-logged_in s r name password auth o token e =
      ground (arith, str_eq_iff name auth.username)

  with_body-logged_in :
      (body : Option (Str × Str)) (loaded : Loaded) (s : Server) (r : Request) (o : Option Str)
      (token : Str)
      → (with_body hmac body loaded s r o clock).0 ≡ logged_in token
      → (auth : UiAuth) × (password : Str) × (loaded ≡ found auth)
        × (body ≡ some (auth.username, password))
        × (verify_password hmac auth password ≡ true)
        × (with_body hmac body loaded s r o clock ≡ open_session hmac s r.remote o clock)
  with_body-logged_in none loaded s r o token e = absurd cc
  with_body-logged_in (some body) missing s r o token e = absurd cc
  with_body-logged_in (some body) unparsed s r o token e = absurd cc
  with_body-logged_in (some (name, password)) (found auth) s r o token e =
      let (same, verified, opened) = check_credentials-logged_in s r name password auth o token e in
      (auth, password, refl, ap (λ n. some (n, password)) same, verified, opened)

  api_login-with_body :
      (loaded : Loaded) (s : Server) (r : Request) (o : Option Str) (token : Str)
      → (api_login hmac loaded o clock s r).0 ≡ logged_in token
      → (r.is_post ≡ true)
        × (login_blocked s r.remote (clock 0) ≡ false)
        × (api_login hmac loaded o clock s r ≡ with_body hmac r.body loaded s r o clock)
  unfolding api_login
  api_login-with_body loaded s r o token e = elim (Bool-cases r.is_post) [
    | inl p ↦ elim (Bool-cases (login_blocked s r.remote (clock 0))) [
      | inl b ↦ let f : rate_limited ≡ logged_in token = rw (p, b) at e in absurd cc
      | inr b ↦ (p, b, rw (p, b) refl)
    ]
    | inr p ↦ let f : method_not_allowed ≡ logged_in token = rw p at e in absurd cc
  ]

  -- A login that is answered with a session was a POST from an address that is not blocked, with the
  -- stored name and its password; the session's token is the random one, and a request with it is
  -- let in exactly as long as both readings of its clock lie before the session's end, 12 hours on.
  pub api_login-logged_in :
      (loaded : Loaded) (s : Server) (r : Request) (o : Option Str) (token : Str) (later : ℕ → ℕ)
      (next : Request)
      → (api_login hmac loaded o clock s r).0 ≡ logged_in token
      → next.cookie ≡ some token
      → IsGranted hmac loaded s r (clock 0)
        × (o ≡ some token)
        × (((is_authorized (api_login hmac loaded o clock s r).1 next later).0 ≡ true)
            ↔ ((later 0 < clock 4 + session_ttl) × (later 1 < clock 4 + session_ttl)))
  unfolding is_authorized
  api_login-logged_in loaded s r o token later next e c =
      let (post, open_to, same) = api_login-with_body loaded s r o token e in
      let (auth, password, is_found, body, verified, opened) =
        with_body-logged_in r.body loaded s r o token (rw same at e) in
      let (random, stored) = open_session-logged_in s r.remote o token (rw (same, opened) at e) in
      (
        (auth, password, is_found, body, verified, open_to, post),
        random,
        rw (c, same, opened, stored) (within (clock 4 + session_ttl) (later 0) (later 1) _ token),
      )

-- What a handler leaves behind holds at most maxSessions.
abbrev IsBounded : Reply × Server → Type 0
IsBounded (reply, s) = length s.sessions ≤ max_sessions

IsBounded-if :
    (b : Bool) (x y : Reply × Server) → IsBounded x → IsBounded y → IsBounded (if b then x else y)
IsBounded-if true x y h k = h
IsBounded-if false x y h k = k

module _ (hmac : List ℕ → List ℕ → List ℕ) (clock : ℕ → ℕ) (token : Option Str) where
  open_session-IsBounded :
      (s : Server) (remote : Str) (o : Option Str)
      → length s.sessions ≤ max_sessions
      → IsBounded (open_session hmac s remote o clock)
  unfolding open_session
  open_session-IsBounded s remote none h = h
  open_session-IsBounded s remote (some t) h =
      let live = prune s.sessions (clock 3) in
      let pruned = length-prune s.sessions (clock 3) in
      let grown = length-insert t (clock 4 + session_ttl) live in
      elim (Bool-cases (leb max_sessions (length live))) [
        | inl y ↦ rw y (omega (arith, pruned))
        | inr n ↦ rw n (ground (arith, n, grown))
      ]

  check_credentials-IsBounded :
      (s : Server) (r : Request) (body : Str × Str) (auth : UiAuth)
      → length s.sessions ≤ max_sessions
      → IsBounded (check_credentials hmac s r body auth token clock)
  unfolding check_credentials record_login_failure
  check_credentials-IsBounded s r (username, password) auth h =
      IsBounded-if
        (is_empty auth.username || is_empty auth.password_hash || is_empty auth.password_salt) _ _ h
        (IsBounded-if
          (not (str_eq username auth.username) || not (verify_password hmac auth password)) _ _
          (ground (arith, h)) (open_session-IsBounded s r.remote token h))

  with_body-IsBounded :
      (body : Option (Str × Str)) (loaded : Loaded) (s : Server) (r : Request)
      → length s.sessions ≤ max_sessions
      → IsBounded (with_body hmac body loaded s r token clock)
  with_body-IsBounded none loaded s r h = h
  with_body-IsBounded (some body) missing s r h = h
  with_body-IsBounded (some body) unparsed s r h = h
  with_body-IsBounded (some body) (found auth) s r h = check_credentials-IsBounded s r body auth h

  session_of-IsBounded :
      (o : Option ℕ) (s : Server) (t : Str) (now later : ℕ)
      → length s.sessions ≤ max_sessions
      → length (session_of o s t now later).1.sessions ≤ max_sessions
  session_of-IsBounded none s t now later h = h
  session_of-IsBounded (some exp) s t now later h = ground (arith, h, length-delete t s.sessions)

  authorize-IsBounded :
      (c : Option Str) (s : Server)
      → length s.sessions ≤ max_sessions
      → length (authorize c s clock).1.sessions ≤ max_sessions
  authorize-IsBounded none s h = h
  authorize-IsBounded (some t) s h =
      session_of-IsBounded (lookup t s.sessions) s t (clock 0) (clock 1) h

  forget-IsBounded :
      (c : Option Str) (s : Server)
      → length s.sessions ≤ max_sessions
      → length (forget c s).sessions ≤ max_sessions
  forget-IsBounded none s h = h
  forget-IsBounded (some t) s h = omega (arith, length-delete t s.sessions)

  route_if-IsBounded :
      (c : Checked) (loaded : Loaded) (s : Server) (r : Request)
      → length s.sessions ≤ max_sessions
      → IsBounded (route_if hmac c loaded token clock s r)
  unfolding route api_login api_logout is_authorized
  route_if-IsBounded (answered reply) loaded s r h = h
  route_if-IsBounded (effective path) loaded s r h =
      IsBounded-if (str_eq path (codes "/api/login")) _ _
        (IsBounded-if (not r.is_post) _ _ h (
          IsBounded-if (login_blocked s r.remote (clock 0)) _ _ h
            (with_body-IsBounded r.body loaded s r h)))
        (IsBounded-if (str_eq path (codes "/api/logout")) _ _
          (IsBounded-if (not r.is_post) _ _ h (forget-IsBounded r.cookie s h))
          (authorize-IsBounded r.cookie s h))

-- No request makes the sessions more than maxSessions.
pub handle_all-length :
    (hmac : List ℕ → List ℕ → List ℕ) (loaded : Loaded) (token : Option Str) (clock : ℕ → ℕ)
    (s : Server) (r : Request)
    → length s.sessions ≤ max_sessions
    → length (handle_all hmac loaded token clock s r).1.sessions ≤ max_sessions
unfolding handle_all
handle_all-length hmac loaded token clock s r h =
    IsBounded-if (s.demo && str_eq r.path (codes "/")) _ _ h
      (route_if-IsBounded hmac clock token (validate_path s r.path) loaded s r h)

-- After a POST to the logout path, the token of its cookie opens nothing.
pub api_logout-revokes :
    (s : Server) (r next : Request) (token : Str) (clock : ℕ → ℕ)
    → r.is_post ≡ true
    → r.cookie ≡ some token
    → next.cookie ≡ some token
    → (is_authorized (api_logout s r).1 next clock).0 ≡ false
unfolding api_logout is_authorized
api_logout-revokes s r next token clock p c d =
    rw (p, c, d, lookup-delete token token s.sessions, str_eq_refl token) refl
