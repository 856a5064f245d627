-- ===== src/State/Auth.antt =====
-- UIAuth and its functions of internal/state/store.go. The random source and HMAC-SHA-256 are
-- parameters: `rand k n` is what the k-th call of `rand.Read` puts into a buffer of `n` bytes, or
-- `none` where it fails. Reading the file gives one of three outcomes; on `missing`, Go goes on with
-- the zero value.
pub mod Password
pub mod Configured
pub mod Startup
pub mod Examples
use conduitvpn.Base.{
  ℕ, zero, suc, ◌+◌, ◌-◌, ◌*◌, ◌/◌, ◌%◌, ◌^◌, ◌≤◌, ◌<◌, ◌≡◌, refl, sym, ap, ◌∙◌, subst, ◌≢◌, ◌↔◌,
  ◌⊎◌, inl, inr, Bool, true, false, not, ◌&&◌, ◌||◌, Option, none, some, List, [], ◌∷◌, ◌++◌, map,
  arith, ltb, leb, ◌==◌, if◌then◌else◌, is_some, ==_iff, Bool-cases, Option-cases, length,
  rune_count, get_elem?, set, take, drop, any, keep, All, Elem, length-append, length-drop,
  length-take, length-set, All-Elem, Elem-append_left, Elem-append_last, Str, codes, is_empty,
  str_eq, str_eq_iff, str_eq_refl, trim_space, trim, to_upper, to_lower, has_prefix, trim_prefix,
  contains, split, fields, join, one_of, one_of_sound, one_of_complete, to_upper_idem, Dict, lookup,
  insert, delete, keys, lookup-insert, lookup-delete, ℤ, pos, negsuc, ltb_ℤ, leb_ℤ, add_ℕ,
  sort_stable, IsSorted, atoi, sprint, parse_ip, to4, is_loopback,
}
use conduitvpn.State.Files.{Content, partial, whole, Files, Syscall, Job, Run, write_json}
use conduitvpn.State.Base64
use conduitvpn.State.Pbkdf2.{pbkdf2}

pub record UiAuth : Type 0 where
  pub secret_path : Str
  pub username : Str
  pub password : Str
  pub password_salt : Str
  pub password_hash : Str
  pub password_iterations : ℕ

abbrev pub zero_auth : UiAuth
zero_auth = record {
  secret_path = [];
  username = [];
  password = [];
  password_salt = [];
  password_hash = [];
  password_iterations = 0;
}

abbrev pub password_iterations : ℕ
password_iterations = 600000

-- `sha256.Size`.
abbrev pub hash_size : ℕ
hash_size = 32

pub data AuthError : Type 0 where
  unreadable not_paired too_short random_failed not_initialized not_written : AuthError

pub data Step (A : Type 0) : Type 0 where
  ok : A → Step A
  err : AuthError → Step A

infixl 5 ◌>>=◌ ◌>>◌
abbrev pub ◌>>=◌ : {A B : Type 0} → Step A → (A → Step B) → Step B
ok a >>= f = f a
err e >>= f = err e

abbrev pub ◌>>◌ : {B : Type 0} → Step (Unit {0}) → Step B → Step B
m >> k = m >>= λ _. k

abbrev pub refuse : Bool → AuthError → Step (Unit {0})
refuse true e = err e
refuse false e = ok tt

pub data Loaded : Type 0 where
  missing unparsed : Loaded
  found : UiAuth → Loaded

abbrev pub auth_path : Str
auth_path = codes "ui_auth.json"

abbrev pub loaded_of : Option (Content UiAuth) → Loaded
loaded_of none = missing
loaded_of (some partial) = unparsed
loaded_of (some (whole a)) = found a

unfoldable pub load_auth : Files UiAuth → Loaded
load_auth files = loaded_of (lookup auth_path files)

unfoldable pub hex_char : ℕ → ℕ
hex_char d = if ltb d 10 then b'0' + d else b'a' + (d - 10)

abbrev pub hex_text : Option (List ℕ) → Step Str
hex_text none = err random_failed
hex_text (some bytes) = ok (map (λ b. hex_char (b % 16)) bytes)

abbrev pub differ : Bool → Bool → Bool
differ true b = not b
differ false b = b

module _ (hmac : List ℕ → List ℕ → List ℕ) where
  abbrev pub verify_hash : Option (List ℕ) → UiAuth → Str → Bool
  verify_hash none a password = false
  verify_hash (some want) a password =
      length want == hash_size
      && str_eq (pbkdf2 hmac password a.password_salt a.password_iterations (length want)) want

  unfoldable pub verify_password : UiAuth → Str → Bool
  verify_password a password =
      if is_empty a.password_hash
        || is_empty a.password_salt
        || not (a.password_iterations == password_iterations)
      then false
      else verify_hash (Base64.decode a.password_hash) a password

  module _ (rand : ℕ → ℕ → Option (List ℕ)) where
    -- `randHex n` by the k-th read.
    unfoldable pub rand_hex : ℕ → ℕ → Step Str
    unfolding hex_char
    rand_hex k n = hex_text (rand k n)

    unfoldable pub set_password : ℕ → UiAuth → Str → Step UiAuth
    unfolding rand_hex
    set_password k a password = do
      salt ← rand_hex k 16
      ok (record a {
        password_salt = salt;
        password_hash = Base64.encode (pbkdf2 hmac password salt password_iterations hash_size);
        password_iterations = password_iterations;
        password = [];
      })

    abbrev pub initial : Loaded → Step UiAuth
    initial missing = ok zero_auth
    initial unparsed = err unreadable
    initial (found a) = ok a

    -- The parts of EnsureAuthConfigured: credentials that were given, the secret path, the password
    -- of an old file, the final check.
    pub with_credentials : Str → Str → Bool → UiAuth → Step UiAuth
    unfolding set_password rune_count
    with_credentials username password demo a = if is_empty username then ok a else do
      refuse (ltb (rune_count password) 16 && not demo) too_short
      set_password 0 (record a { username = username }) password

    pub with_secret : UiAuth → Step UiAuth
    unfolding rand_hex
    with_secret a =
        if is_empty a.secret_path
        then (do secret ← rand_hex 1 24; ok (record a { secret_path = secret }))
        else ok a

    pub migrated : UiAuth → Step UiAuth
    unfolding set_password
    migrated a = if is_empty a.password then ok a else set_password 2 a a.password

    unfoldable pub configured : Str → Str → Bool → Loaded → Step UiAuth
    unfolding with_credentials with_secret migrated
    configured username password demo loaded = do
      a ← initial loaded
      refuse (differ (is_empty username) (is_empty password)) not_paired
      b ← with_credentials username password demo a
      c ← with_secret b
      d ← migrated c
      refuse (is_empty d.username || is_empty d.password_hash || is_empty d.password_salt)
          not_initialized
      ok d

    -- SaveAuth clears the plaintext and writes the file.
    unfoldable pub save_auth : (Syscall → Bool) → Str → UiAuth → Files UiAuth → Run UiAuth
    save_auth faults tmp a files =
        write_json (record { path = auth_path; tmp = tmp; v = record a { password = [] } }) faults
          files

    abbrev pub written : Run UiAuth → Option AuthError × Files UiAuth
    written r = (if r.ok then none else some not_written, r.last)

    abbrev pub save_if_ok :
        (Syscall → Bool) → Str → Step UiAuth → Files UiAuth → Option AuthError × Files UiAuth
    save_if_ok faults tmp (ok a) files = written (save_auth faults tmp a files)
    save_if_ok faults tmp (err e) files = (some e, files)

    -- EnsureAuthConfigured on the files: the error, if any, and the files behind it.
    unfoldable pub ensure_auth_configured :
        (Syscall → Bool) → Str → Str → Str → Bool → Files UiAuth → Option AuthError × Files UiAuth
    unfolding configured save_auth load_auth
    ensure_auth_configured faults tmp username password demo files =
        save_if_ok faults tmp (configured username password demo (load_auth files)) files

    -- EnsureAuthWithDefaults: what it returns besides the files is the credentials it made.
    abbrev with_result :
        Option AuthError × Files UiAuth → Str × Str → Step (Str × Str) × Files UiAuth
    with_result (none, files) made = (ok made, files)
    with_result (some e, files) made = (err e, files)

    abbrev ensure_defaults :
        Loaded → (Syscall → Bool) → Str → Str → Str → Files UiAuth → Step (Str × Str) × Files UiAuth
    ensure_defaults unparsed faults tmp username password files = (err unreadable, files)
    ensure_defaults (found a) faults tmp username password files =
        with_result (ensure_auth_configured faults tmp [] [] true files) ([], [])
    ensure_defaults missing faults tmp username password files =
        with_result (ensure_auth_configured faults tmp username password true files)
          (username, password)

    unfoldable pub ensure_auth_with_defaults :
        (Syscall → Bool) → Str → Str → Str → Files UiAuth → Step (Str × Str) × Files UiAuth
    ensure_auth_with_defaults faults tmp username password files =
        ensure_defaults (load_auth files) faults tmp username password files
