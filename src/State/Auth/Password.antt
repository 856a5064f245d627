-- ===== src/State/Auth/Password.antt =====
-- A password is stored as a salted hash, and only texts of the same hash pass the check.
use conduitvpn.Base.{
  ℕ, ◌%◌, ◌<◌, ◌≡◌, refl, subst, ◌↔◌, true, false, Option, none, some, List, [], ◌∷◌, map, arith,
  length, Str, is_empty, str_eq, str_eq_iff,
}
use conduitvpn.State.Base64.{is_empty-encode, AreBytes, decode-encode}
use conduitvpn.State.Base64
use conduitvpn.State.Pbkdf2.{pbkdf2}
use conduitvpn.State.Pbkdf2.Rfc.{pbkdf2-Rfc, pbkdf2-AreBytes}
use conduitvpn.State.Auth.{
  UiAuth, ok, password_iterations, hash_size, hex_char, rand_hex, set_password, verify_password,
}

-- What the parameters promise: a code has 32 bytes, and a read that succeeds fills the buffer.
pub record Crypto (hmac : List ℕ → List ℕ → List ℕ) (rand : ℕ → ℕ → Option (List ℕ)) : Type 0 where
  pub hmac_length : (key message : List ℕ) → length (hmac key message) ≡ 32
  pub hmac_bytes : (key message : List ℕ) → AreBytes (hmac key message)
  pub rand_fills : (k n : ℕ) (bytes : List ℕ) → rand k n ≡ some bytes → length bytes ≡ n

module _ (hmac : List ℕ → List ℕ → List ℕ) (rand : ℕ → ℕ → Option (List ℕ))
    (crypto : Crypto hmac rand) where
  -- The hash that the code compares.
  abbrev pub hash_of : Str → Str → List ℕ
  hash_of password salt = pbkdf2 hmac password salt password_iterations hash_size

  -- The stored form of a password: its hash under a salt that is not empty, and no plaintext.
  pub record IsStored (password : Str) (a : UiAuth) : Type 0 where
    pub salted : is_empty a.password_salt ≡ false
    pub hashed : a.password_hash ≡ Base64.encode (hash_of password a.password_salt)
    pub counted : a.password_iterations ≡ password_iterations
    pub cleared : a.password ≡ []

  hash_length : (password salt : Str) → length (hash_of password salt) ≡ 32
  hash_length password salt =
      (pbkdf2-Rfc hmac password crypto.hmac_length salt password_iterations hash_size (omega arith)
        (omega arith) (omega arith)).1

  hash_bytes : (password salt : Str) → AreBytes (hash_of password salt)
  hash_bytes password salt =
      pbkdf2-AreBytes hmac password crypto.hmac_length crypto.hmac_bytes salt password_iterations
        hash_size (omega arith) (omega arith) (omega arith)

  -- A stored hash is not the empty text.
  pub is_empty-hash :
      (password salt : Str)
      → is_empty (Base64.encode (pbkdf2 hmac password salt password_iterations hash_size)) ≡ false
  is_empty-hash password salt =
      is_empty-encode (hash_of password salt) (omega (arith, hash_length password salt))

  is_empty-map : (f : ℕ → ℕ) (xs : List ℕ) → 0 < length xs → is_empty (map f xs) ≡ false
  is_empty-map f [] h = elim h [ ]
  is_empty-map f (x ∷ xs) h = refl

  ok_injective : {x y : UiAuth} → ok x ≡ ok y → x ≡ y
  ok_injective h = cc

  stored :
      (a : UiAuth) (password : Str) (o : Option (List ℕ)) (k : ℕ) {b : UiAuth}
      → rand k 16 ≡ o
      → set_password hmac rand k a password ≡ ok b
      → IsStored password b × (b.username ≡ a.username) × (b.secret_path ≡ a.secret_path)
  unfolding set_password
  stored a password none k e h = absurd (cc (rw (e, set_password, rand_hex) at h))
  stored a password (some bytes) k {b} e h =
      subst (λ x. IsStored password x × (x.username ≡ a.username) × (x.secret_path ≡ a.secret_path))
        (ok_injective (rw (e, set_password, rand_hex) at h))
        (
          record {
            salted =
                is_empty-map (λ c. hex_char (c % 16)) bytes
                  (omega (arith, crypto.rand_fills k 16 bytes e));
            hashed = refl;
            counted = refl;
            cleared = refl;
          },
          refl,
          refl,
        )

  -- Storing a password keeps the name and the path.
  pub set_password-IsStored :
      (k : ℕ) (a : UiAuth) (password : Str) {b : UiAuth}
      → set_password hmac rand k a password ≡ ok b
      → IsStored password b × (b.username ≡ a.username) × (b.secret_path ≡ a.secret_path)
  set_password-IsStored k a password h = stored a password (rand k 16) k refl h

  verify_password-IsStored :
      (a : UiAuth) (p q : Str)
      → IsStored p a
      → verify_password hmac a q ≡ str_eq (hash_of q a.password_salt) (hash_of p a.password_salt)
  unfolding verify_password
  verify_password-IsStored a p q s = rw (
    s.hashed,
    is_empty-encode (hash_of p a.password_salt) (omega (arith, hash_length p a.password_salt)),
    s.salted,
    s.counted,
    decode-encode (hash_of p a.password_salt) (hash_bytes p a.password_salt),
    hash_length p a.password_salt,
  )

  -- Against a stored password the check passes exactly the texts that have its hash under its salt.
  -- So the password itself passes, also in a program started later.
  pub verify_password_iff :
      (a : UiAuth) (p q : Str)
      → IsStored p a
      → (verify_password hmac a q ≡ true) ↔ (hash_of q a.password_salt ≡ hash_of p a.password_salt)
  verify_password_iff a p q s = rw (verify_password-IsStored a p q s) (str_eq_iff _ _)
