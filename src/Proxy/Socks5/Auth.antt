-- ===== src/Proxy/Socks5/Auth.antt =====
-- Who may dial through the SOCKS5 server of internal/proxy/socks5.go.
use conduitvpn.Base.{
  ℕ, ◌≡◌, refl, sym, ap, ◌∙◌, Bool, true, false, not, ◌&&◌, some, List, [], ◌∷◌, ◌++◌, arith, ◌==◌,
  if◌then◌else◌, length, any, Str, str_eq, str_eq_iff, byte_at, reading-all, two_bytes, one_byte,
}
use conduitvpn.Proxy.{Server, Session}
use conduitvpn.Proxy.Socks5.{serve_request, check_login, socks_auth, handle_socks5}

-- The stream goes on with the server's name and password, each behind its length.
abbrev pub HasLogin : Server → List ℕ → Type 0
HasLogin s input =
    (rest : List ℕ) × (input ≡ 1 ∷ length s.user ∷ (s.user ++ (length s.pass ∷ (s.pass ++ rest))))

-- A greeting that offers a login, and the login.
abbrev pub HasGreeting : Server → List ℕ → Type 0
HasGreeting s input =
    (methods more : List ℕ) × (input ≡ 5 ∷ length methods ∷ (methods ++ more))
    × (any (λ m. m == 2) methods ≡ true)
    × HasLogin s more

-- If the session dials, then `P` holds.
abbrev Dials : Type 0 → Session → Type 0
Dials P o = (target : Str) → o.dialled ≡ some target → P

if-Dials :
    (P : Type 0) (b : Bool) (x y : Session)
    → (b ≡ true → Dials P x)
    → (b ≡ false → Dials P y)
    → Dials P (if b then x else y)
if-Dials P true x y p q = p refl
if-Dials P false x y p q = q refl

module _ (dial : Str → Bool) (reachable : Bool) (s : Server) where
  check_login-Dials :
      (sent name password rest : List ℕ) (next : List ℕ → List ℕ → Session)
      → Dials
          ((name ≡ s.user) × (password ≡ s.pass))
          (check_login dial reachable s sent name password rest next)
  check_login-Dials sent name password rest next =
      if-Dials _ (str_eq name s.user && str_eq password s.pass) _ _
        (λ y t e. ground (arith, str_eq_iff name s.user, str_eq_iff password s.pass, y))
        (λ f t e. absurd cc)

  socks_auth-Dials :
      (sent input : List ℕ) (next : List ℕ → List ℕ → Session)
      → Dials (HasLogin s input) (socks_auth dial reachable s sent input next)
  unfolding socks_auth
  socks_auth-Dials sent input next =
      let P = Dials (HasLogin s input) in
      reading-all P 2 input _ _ (λ t e. absurd cc)
        (λ head rest e₁ l₁.
          if-Dials _ (not (byte_at 0 head == 1)) _ _ (λ y t e. absurd cc)
            (λ f.
              reading-all P (byte_at 1 head) rest _ _ (λ t e. absurd cc)
                (λ name after_name e₂ l₂.
                  reading-all P 1 after_name _ _ (λ t e. absurd cc)
                    (λ plen after_plen e₃ l₃.
                      reading-all P (byte_at 0 plen) after_plen _ _ (λ t e. absurd cc)
                        (λ password after_pass e₄ l₄ t d.
                          let (same_name, same_pass) =
                            check_login-Dials sent name password after_pass next t d in
                          (
                            after_pass,
                            e₁
                                ∙ ap (λ z. z ++ rest)
                                    (header head (length s.user) l₁ (first f)
                                      (sym l₂ ∙ ap length same_name))
                                ∙ ap (λ z. 1 ∷ length s.user ∷ z)
                                    (e₂
                                      ∙ ap (λ z. z ++ after_name) same_name
                                      ∙ ap (λ z. s.user ++ z)
                                          (e₃
                                            ∙ ap (λ z. z ++ after_plen)
                                                (one_byte plen l₃
                                                  ∙ ap (λ z. z ∷ []) (sym l₄ ∙ ap length same_pass))
                                            ∙ ap (λ z. length s.pass ∷ z)
                                                (e₄ ∙ ap (λ z. z ++ after_pass) same_pass))),
                          ))))))
    where
      first : {a : ℕ} → not (a == 1) ≡ false → a ≡ 1
      first g = ground arith

      header :
          (b : List ℕ) (k : ℕ) → length b ≡ 2 → byte_at 0 b ≡ 1 → byte_at 1 b ≡ k → b ≡ 1 ∷ k ∷ []
      header b k size e f =
          two_bytes b size ∙ ap (λ z. z ∷ byte_at 1 b ∷ []) e ∙ ap (λ z. 1 ∷ z ∷ []) f

  -- Where the server asks for a login, whoever makes it dial has sent a greeting that offers one and
  -- then exactly the server's name and password; nothing is dialled before.
  pub handle_socks5-HasGreeting :
      (input : List ℕ) (target : Str)
      → s.auth_on ≡ true
      → (handle_socks5 dial reachable s input).dialled ≡ some target
      → HasGreeting s input
  unfolding handle_socks5
  handle_socks5-HasGreeting input target on =
      let P = Dials (HasGreeting s input) in
      reading-all P 2 input _ _ (λ t e. absurd cc)
        (λ head rest e₁ l₁.
          if-Dials _ (not (byte_at 0 head == 5)) _ _ (λ y t e. absurd cc)
            (λ f.
              reading-all P (byte_at 1 head) rest _ _ (λ t e. absurd cc)
                (λ methods more e₂ l₂.
                  if-Dials _ s.auth_on _ _
                    (λ y.
                      if-Dials _ (any (λ m. m == 2) methods) _ _
                        (λ offered t d. (
                          methods,
                          more,
                          e₁
                              ∙ ap (λ z. z ++ rest)
                                  (two_bytes head l₁
                                    ∙ ap (λ z. z ∷ byte_at 1 head ∷ []) (fifth f)
                                    ∙ ap (λ z. 5 ∷ z ∷ []) (sym l₂))
                              ∙ ap (λ z. 5 ∷ length methods ∷ z) e₂,
                          offered,
                          socks_auth-Dials (5 ∷ 2 ∷ []) more (serve_request dial reachable) t d,
                        ))
                        (λ n t e. absurd cc))
                    (λ off. let c : ⊥ = cc in absurd c))))
        target
    where
      fifth : {a : ℕ} → not (a == 5) ≡ false → a ≡ 5
      fifth g = ground arith
