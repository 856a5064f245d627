-- ===== src/State/Auth/Examples.antt =====
-- A first start with credentials, one without, and the theorems at a sample of the parameters.
use conduitvpn.Base.{
  ℕ, zero, suc, ◌+◌, ◌%◌, ◌<◌, ◌≡◌, refl, ap, ◌↔◌, Bool, true, false, Option, none, some, List, [],
  ◌∷◌, arith, length, take, Str, codes, str_eq, lookup, insert, delete,
}
use conduitvpn.State.Base64.{AreBytes, decode-encode}
use conduitvpn.State.Base64
use conduitvpn.State.Pbkdf2.{pbkdf2}
use conduitvpn.State.Pbkdf2.Rfc.{blocks, pbkdf2-Rfc}
use conduitvpn.State.Files.{whole, Syscall, write_json}
use conduitvpn.State.Auth.{
  UiAuth, zero_auth, not_initialized, too_short, password_iterations, load_auth, auth_path,
  verify_password, ensure_auth_configured,
}
use conduitvpn.State.Auth.Password.{Crypto, IsStored, hash_of, is_empty-hash, verify_password_iff}
use conduitvpn.State.Auth.Configured.{Good, ensure_auth_configured-Good}

abbrev fill : ℕ → ℕ → List ℕ
fill zero b = []
fill (suc n) b = b ∷ fill n b

-- A code of 32 bytes that depends on the lengths of the key and the message.
unfoldable pub toy_hmac : List ℕ → List ℕ → List ℕ
toy_hmac key message = fill 32 ((length key + length message) % 256)

unfoldable pub toy_rand : ℕ → ℕ → Option (List ℕ)
toy_rand k n = some (fill n k)

length-fill : (n b : ℕ) → length (fill n b) ≡ n
length-fill zero b = refl
length-fill (suc n) b = ap suc (length-fill n b)

AreBytes-fill : (n b : ℕ) → b < 256 → AreBytes (fill n b)
AreBytes-fill zero b h = tt
AreBytes-fill (suc n) b h = (h, AreBytes-fill n b h)

toy-fills : (k n : ℕ) (bytes : List ℕ) → toy_rand k n ≡ some bytes → length bytes ≡ n
unfolding toy_rand
toy-fills k n bytes e = ground (arith, length-fill n k)

pub toy-Crypto : Crypto toy_hmac toy_rand
unfolding toy_hmac
toy-Crypto = record {
  hmac_length = λ key message. length-fill 32 ((length key + length message) % 256);
  hmac_bytes = λ key message. AreBytes-fill 32 ((length key + length message) % 256) (omega arith);
  rand_fills = toy-fills;
}

no_faults : Syscall → Bool
no_faults c = false

abbrev tmp : Str
tmp = codes ".conduitvpn-1.tmp"

abbrev pub long_password : Str
long_password = codes "a-long-random-password"

started :
    (ensure_auth_configured toy_hmac toy_rand no_faults tmp
      (codes "admin")
      long_password
      false
      []).0
    ≡ none
unfolding ensure_auth_configured no_faults toy_rand str_eq lookup insert delete write_json
started = rw (is_empty-hash toy_hmac toy_rand toy-Crypto long_password _)

not_started :
    (ensure_auth_configured toy_hmac toy_rand no_faults tmp [] [] false []).0 ≡ some not_initialized
unfolding ensure_auth_configured no_faults toy_rand lookup
not_started = refl

short_refused :
    (ensure_auth_configured toy_hmac toy_rand no_faults tmp
      (codes "admin")
      (codes "short")
      false
      []).0
    ≡ some too_short
unfolding ensure_auth_configured no_faults toy_rand lookup
short_refused = refl

tmp-path : str_eq tmp auth_path ≡ false
unfolding str_eq
tmp-path = refl

ensure_auth_configured-Good_example :
    (d : UiAuth) × (lookup auth_path
        (ensure_auth_configured toy_hmac toy_rand no_faults tmp
          (codes "admin")
          long_password
          false
          []).1
      ≡ some (whole d))
    × Good toy_hmac toy_rand toy-Crypto (codes "admin") long_password false (load_auth []) d
ensure_auth_configured-Good_example =
    ensure_auth_configured-Good toy_hmac toy_rand toy-Crypto no_faults tmp (codes "admin")
      long_password false [] tmp-path started

abbrev pub admin : UiAuth
admin = record zero_auth {
  username = codes "admin";
  password_salt = codes "0011";
  password_hash =
      Base64.encode (pbkdf2 toy_hmac long_password (codes "0011") password_iterations 32);
  password_iterations = password_iterations;
}

pub admin-IsStored : IsStored toy_hmac toy_rand toy-Crypto long_password admin
admin-IsStored = record { salted = refl; hashed = refl; counted = refl; cleared = refl }

verify_password_iff_example : (verify_password toy_hmac admin (codes "guess") ≡ true) ↔ (
    hash_of toy_hmac toy_rand toy-Crypto (codes "guess") (codes "0011")
    ≡ hash_of toy_hmac toy_rand toy-Crypto long_password (codes "0011"))
verify_password_iff_example =
    verify_password_iff toy_hmac toy_rand toy-Crypto admin long_password (codes "guess")
      admin-IsStored

pbkdf2-Rfc_example :
    (pbkdf2 toy_hmac (codes "password") (codes "salt") 4096 40
      ≡ take 40 (blocks toy_hmac (codes "password") (codes "salt") 4096 40 1))
    × (length (pbkdf2 toy_hmac (codes "password") (codes "salt") 4096 40) ≡ 40)
pbkdf2-Rfc_example =
    pbkdf2-Rfc toy_hmac (codes "password") toy-Crypto.hmac_length (codes "salt") 4096 40
      (omega arith) (omega arith) (omega arith)
