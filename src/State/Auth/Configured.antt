-- ===== src/State/Auth/Configured.antt =====
-- What EnsureAuthConfigured leaves in the file of the credentials.
use conduitvpn.Base.{
  ℕ, ◌≤◌, ◌≡◌, refl, sym, ap, ◌∙◌, subst, inl, inr, Bool, true, false, not, ◌&&◌, ◌||◌, Option,
  none, some, List, [], ◌∷◌, arith, ltb, Bool-cases, rune_count, Str, is_empty, str_eq, lookup,
}
use conduitvpn.State.Files.{whole, Files, Syscall, Job}
use conduitvpn.State.Files.Atomic.{write_json-Promise}
use conduitvpn.State.Auth.{
  UiAuth, Step, ok, err, AuthError, not_paired, too_short, not_initialized, ◌>>=◌, ◌>>◌, refuse,
  differ, Loaded, missing, unparsed, found, load_auth, auth_path, initial, hex_text, rand_hex,
  with_credentials, with_secret, migrated, configured, save_auth, save_if_ok,
  ensure_auth_configured,
}
use conduitvpn.State.Auth.Password.{Crypto, IsStored, set_password-IsStored}

-- A step that succeeds had a first part that succeeded.
first_part :
    {V W : Type 0} {w : W} (before : Step V) (rest : V → Step W)
    → before >>= rest ≡ ok w
    → (v : V) × (before ≡ ok v) × (rest v ≡ ok w)
first_part (err e) rest h = absurd cc
first_part (ok v) rest h = (v, refl, h)

refuse-eq-ok :
    {W : Type 0} {w : W} (t : Bool) (e : AuthError) (rest : Step W)
    → refuse t e >> rest ≡ ok w
    → (t ≡ false) × (rest ≡ ok w)
refuse-eq-ok true e rest h = absurd (cc)
refuse-eq-ok false e rest h = (refl, h)

ok_injective : {A : Type 0} {x y : A} → Step.ok x ≡ ok y → x ≡ y
ok_injective h = cc

is_empty_sound : (s : Str) → is_empty s ≡ true → s ≡ []
is_empty_sound [] h = refl
is_empty_sound (c ∷ s) h = cc

module _ (hmac : List ℕ → List ℕ → List ℕ) (rand : ℕ → ℕ → Option (List ℕ))
    (crypto : Crypto hmac rand) where
  abbrev Stored : Str → UiAuth → Type 0
  Stored = IsStored hmac rand crypto

  with_credentials-given :
      (username password : Str) (demo : Bool) (a : UiAuth) {b : UiAuth}
      → is_empty username ≡ false
      → with_credentials hmac rand username password demo a ≡ ok b
      → Stored password b
        × (b.username ≡ username)
        × (b.secret_path ≡ a.secret_path)
        × ((ltb (rune_count password) 16 && not demo) ≡ false)
  unfolding with_credentials
  with_credentials-given username password demo a g h =
      let r = refuse-eq-ok (ltb (rune_count password) 16 && not demo) too_short _ (rw g at h) in
      let s =
        set_password-IsStored hmac rand crypto 0 (record a { username = username }) password r.1 in
      (s.0, s.1, s.2, r.0)

  with_credentials-none :
      (password : Str) (demo : Bool) (a : UiAuth) {b : UiAuth}
      → with_credentials hmac rand [] password demo a ≡ ok b
      → a ≡ b
  unfolding with_credentials
  with_credentials-none password demo a h = ok_injective h

  -- The secret path is there afterwards, the old one if there was one; nothing else changes.
  abbrev HasSecret : UiAuth → UiAuth → Type 0
  HasSecret b c =
      (is_empty c.secret_path ≡ false)
      × (c ≡ record b { secret_path = c.secret_path })
      × (is_empty b.secret_path ≡ false → c.secret_path ≡ b.secret_path)

  with_new_secret :
      (b : UiAuth) (o : Option (List ℕ)) {c : UiAuth}
      → is_empty b.secret_path ≡ true
      → rand 1 24 ≡ o
      → (hex_text o >>= λ secret. ok (record b { secret_path = secret })) ≡ ok c
      → HasSecret b c
  with_new_secret b none e r h = absurd (cc)
  with_new_secret b (some []) e r h = absurd (omega (arith, crypto.rand_fills 1 24 [] r))
  with_new_secret b (some (x ∷ xs)) e r h =
      subst (HasSecret b) (ok_injective h) (refl, refl, λ q. absurd (cc))

  with_secret-HasSecret : (b : UiAuth) {c : UiAuth} → with_secret hmac rand b ≡ ok c → HasSecret b c
  unfolding with_secret rand_hex
  with_secret-HasSecret b h = elim (Bool-cases (is_empty b.secret_path)) [
    | inl e ↦ with_new_secret b (rand 1 24) e refl (rw e at h)
    | inr e ↦ subst (HasSecret b) (ok_injective (rw e at h)) (e, refl, λ q. refl)
  ]

  abbrev Migrated : UiAuth → UiAuth → Type 0
  Migrated c d =
      (d.password ≡ [])
      × (d.username ≡ c.username)
      × (d.secret_path ≡ c.secret_path)
      × (is_empty c.password ≡ true → d ≡ c)
      × (is_empty c.password ≡ false → Stored c.password d)

  migrated-Migrated : (c : UiAuth) {d : UiAuth} → migrated hmac rand c ≡ ok d → Migrated c d
  unfolding migrated
  migrated-Migrated c h = elim (Bool-cases (is_empty c.password)) [
    | inl e ↦
        subst (Migrated c) (ok_injective (rw e at h))
          (is_empty_sound c.password e, refl, refl, λ q. refl, λ q. absurd (cc))
    | inr e ↦
        let s = set_password-IsStored hmac rand crypto 2 c c.password (rw e at h) in
        (s.0.cleared, s.1, s.2, λ q. absurd (cc), λ q. s.0)
  ]

  -- What is known of the credentials that are about to be saved.
  pub record Good (username password : Str) (demo : Bool) (loaded : Loaded) (d : UiAuth)
      : Type 0 where
    -- Name, hash and salt are there, and so is the secret path; no plaintext is.
    pub named : is_empty d.username ≡ false
    pub hashed : is_empty d.password_hash ≡ false
    pub salted : is_empty d.password_salt ≡ false
    pub cleared : d.password ≡ []
    pub hidden : is_empty d.secret_path ≡ false
    -- Name and password are given together, and the password is long enough outside a demo.
    pub paired : differ (is_empty username) (is_empty password) ≡ false
    pub long : is_empty username ≡ false → demo ≡ false → 16 ≤ rune_count password
    -- Given credentials are the ones saved.
    pub given :
        is_empty username ≡ false → (d.username ≡ username) × IsStored hmac rand crypto password d
    -- A secret path in the file stays.
    pub kept :
        (l : UiAuth)
        → loaded ≡ found l
        → is_empty l.secret_path ≡ false
        → d.secret_path ≡ l.secret_path
    -- Without new credentials the plaintext of an old file becomes its hash.
    pub upgraded :
        (l : UiAuth)
        → loaded ≡ found l
        → username ≡ []
        → is_empty l.password ≡ false
        → (d.username ≡ l.username) × IsStored hmac rand crypto l.password d

  initial-found :
      (loaded : Loaded) (l : UiAuth) {a : UiAuth}
      → loaded ≡ found l
      → initial hmac rand loaded ≡ ok a
      → a ≡ l
  initial-found missing l e h = absurd (cc)
  initial-found unparsed l e h = absurd (cc)
  initial-found (found a) l e h = cc

  -- The credentials of the three steps in the middle.
  record Steps (username password : Str) (demo : Bool) (loaded : Loaded) (d : UiAuth) : Type 0 where
    a : UiAuth
    b : UiAuth
    c : UiAuth
    first : initial hmac rand loaded ≡ ok a
    paired' : differ (is_empty username) (is_empty password) ≡ false
    second : with_credentials hmac rand username password demo a ≡ ok b
    third : HasSecret b c
    fourth : Migrated c d
    complete : (is_empty d.username || is_empty d.password_hash || is_empty d.password_salt) ≡ false

  configured-Steps :
      (username password : Str) (demo : Bool) (loaded : Loaded) {d : UiAuth}
      → configured hmac rand username password demo loaded ≡ ok d
      → Steps username password demo loaded d
  unfolding configured
  configured-Steps username password demo loaded h =
      let (a, e₁, h₁) = first_part (initial hmac rand loaded) _ h in
      let (p, h₂) = refuse-eq-ok (differ (is_empty username) (is_empty password)) not_paired _ h₁ in
      let (b, e₂, h₃) = first_part (with_credentials hmac rand username password demo a) _ h₂ in
      let (c, e₃, h₄) = first_part (with_secret hmac rand b) _ h₃ in
      let (d', e₄, h₅) = first_part (migrated hmac rand c) _ h₄ in
      let (q, h₆) =
        refuse-eq-ok
          (is_empty d'.username || is_empty d'.password_hash || is_empty d'.password_salt)
          not_initialized _ h₅ in
      subst (Steps username password demo loaded) (ok_injective h₆) (record {
        a = a;
        b = b;
        c = c;
        first = e₁;
        paired' = p;
        second = e₂;
        third = with_secret-HasSecret b e₃;
        fourth = migrated-Migrated c e₄;
        complete = q;
      })

  module _ (username password : Str) (demo : Bool) (loaded : Loaded) (d : UiAuth)
      (s : Steps username password demo loaded d) where
    c-b : s.c ≡ record s.b { secret_path = s.c.secret_path }
    c-b = s.third.1

    given-Stored :
        is_empty username ≡ false → (d.username ≡ username) × IsStored hmac rand crypto password d
    given-Stored u =
        let w = with_credentials-given username password demo s.a u s.second in
        let stored : Stored password s.c = subst (Stored password) (sym c-b) (record {
          salted = w.0.salted;
          hashed = w.0.hashed;
          counted = w.0.counted;
          cleared = w.0.cleared;
        }) in
        let same : d ≡ s.c = s.fourth.3 (rw (stored.cleared) refl) in
        (
          s.fourth.1 ∙ (ap (λ (x : UiAuth). x.username) c-b ∙ w.1),
          subst (Stored password) (sym same) stored,
        )

    b-secret : s.b.secret_path ≡ s.a.secret_path
    b-secret = go username refl
      where
        go : (v : Str) → v ≡ username → s.b.secret_path ≡ s.a.secret_path
        go [] e =
            ap (λ (x : UiAuth). x.secret_path)
              (sym (with_credentials-none password demo s.a (rw (← e) at s.second)))
        go (x ∷ v) e =
            (with_credentials-given username password demo s.a (rw (← e) refl) s.second).2

    kept-secret :
        (l : UiAuth)
        → loaded ≡ found l
        → is_empty l.secret_path ≡ false
        → d.secret_path ≡ l.secret_path
    kept-secret l e k =
        let b-l : s.b.secret_path ≡ l.secret_path =
          b-secret ∙ ap (λ (x : UiAuth). x.secret_path) (initial-found loaded l e s.first) in
        s.fourth.2 ∙ (s.third.2 (rw b-l k) ∙ b-l)

    upgraded-Stored :
        (l : UiAuth)
        → loaded ≡ found l
        → username ≡ []
        → is_empty l.password ≡ false
        → (d.username ≡ l.username) × IsStored hmac rand crypto l.password d
    upgraded-Stored l e u k =
        let b-l : s.b ≡ l =
          sym (with_credentials-none password demo s.a (rw u at s.second))
          ∙ initial-found loaded l e s.first in
        let p : s.c.password ≡ l.password =
          ap (λ (x : UiAuth). x.password) c-b ∙ ap (λ (x : UiAuth). x.password) b-l in
        let n : s.c.username ≡ l.username =
          ap (λ (x : UiAuth). x.username) c-b ∙ ap (λ (x : UiAuth). x.username) b-l in
        (s.fourth.1 ∙ n, subst (λ q. Stored q d) p (s.fourth.4 (rw p k)))

    Steps-Good : Good username password demo loaded d
    Steps-Good = record {
      named = ground (arith, s.complete);
      hashed = ground (arith, s.complete);
      salted = ground (arith, s.complete);
      cleared = s.fourth.0;
      hidden = rw (s.fourth.2) (s.third.0);
      paired = s.paired';
      long = λ u f.
          let w = with_credentials-given username password demo s.a u s.second in
          ground (arith, w.3);
      given = given-Stored;
      kept = kept-secret;
      upgraded = upgraded-Stored;
    }

  -- On success the credentials to be saved are complete and hold no plaintext; given ones are the
  -- ones saved, those of an old file are upgraded, and a secret path stays.
  pub configured-Good :
      (username password : Str) (demo : Bool) (loaded : Loaded) {d : UiAuth}
      → configured hmac rand username password demo loaded ≡ ok d
      → Good username password demo loaded d
  configured-Good username password demo loaded {d} h =
      Steps-Good username password demo loaded d (configured-Steps username password demo loaded h)

  cleared_same : (d : UiAuth) → d.password ≡ [] → record d { password = [] } ≡ d
  cleared_same d e = ap (λ (p : Str). record d { password = p }) (sym e)

  save_if_ok-Saved :
      (faults : Syscall → Bool) (tmp : Str) (m : Step UiAuth) (files : Files UiAuth)
      → str_eq tmp auth_path ≡ false
      → (save_if_ok hmac rand faults tmp m files).0 ≡ none
      → (d : UiAuth) × (m ≡ ok d)
        × (lookup auth_path (save_if_ok hmac rand faults tmp m files).1
            ≡ some (whole (record d { password = [] })))
  unfolding save_auth
  save_if_ok-Saved faults tmp (err e) files t h = absurd (cc)
  save_if_ok-Saved faults tmp (ok d) files t h =
      let job : Job UiAuth = record {
        path = auth_path;
        tmp = tmp;
        v = record d { password = [] };
      } in
      (d, refl, (write_json-Promise job files t faults).in_place (ground arith))

  -- Whenever EnsureAuthConfigured reports no error, the file holds whole credentials: a name, a hash
  -- and salt, a secret path and no plaintext. Given credentials of a name and a password (of at least
  -- 16 characters outside a demo) are the ones in the file; without them the plaintext of an old file
  -- has become its hash; a secret path that was there stays.
  pub ensure_auth_configured-Good :
      (faults : Syscall → Bool) (tmp username password : Str) (demo : Bool) (files : Files UiAuth)
      → str_eq tmp auth_path ≡ false
      → (ensure_auth_configured hmac rand faults tmp username password demo files).0 ≡ none
      → (d : UiAuth) × (lookup auth_path
            (ensure_auth_configured hmac rand faults tmp username password demo files).1
          ≡ some (whole d))
        × Good username password demo (load_auth files) d
  unfolding ensure_auth_configured
  ensure_auth_configured-Good faults tmp username password demo files t h =
      let (d, e, p) =
        save_if_ok-Saved faults tmp (configured hmac rand username password demo (load_auth files))
          files t h in
      let g = configured-Good username password demo (load_auth files) e in
      let same : record d { password = [] } ≡ d = cleared_same d g.cleared in
      (d, p ∙ ap (λ (x : UiAuth). some (whole x)) same, g)
