-- ===== src/State/Pbkdf2/Rfc.antt =====
-- That pbkdf2SHA256 is the construction of RFC 8018, section 5.2.
use mathlib.Core.List.{append-nil, append_assoc}
use conduitvpn.Base.{
  ℕ, zero, suc, ◌+◌, ◌-◌, ◌*◌, ◌%◌, ◌≤◌, ◌<◌, ◌≡◌, refl, ap, ◌∙◌, inl, inr, List, [], ◌∷◌, ◌++◌,
  arith, ltb, Bool-cases, length, take, length-append, length-take,
}
use conduitvpn.State.Base64.{AreBytes}
use conduitvpn.State.Pbkdf2.{xor_bytes, block_bytes, mix, block_value, grow, pbkdf2}

length-xor_bytes : (ts us : List ℕ) → length (xor_bytes ts us) ≡ length ts
unfolding xor_bytes
length-xor_bytes [] us = refl
length-xor_bytes (t ∷ ts) [] = refl
length-xor_bytes (t ∷ ts) (u ∷ us) = ap suc (length-xor_bytes ts us)

module _ (hmac : List ℕ → List ℕ → List ℕ) (password : List ℕ) where
  -- U_2, U_3, … behind U_1: each is the code of the one before.
  pub chain : ℕ → List ℕ → List (List ℕ)
  chain zero u = []
  chain (suc n) u = hmac password u ∷ chain n (hmac password u)

  -- The exclusive or of all of them.
  pub xor_all : List ℕ → List (List ℕ) → List ℕ
  xor_all t [] = t
  xor_all t (u ∷ us) = xor_all (xor_bytes t u) us

  -- T_i = F (P, S, c, i).
  pub block_of : List ℕ → ℕ → ℕ → List ℕ
  unfolding chain xor_all
  block_of salt iterations i =
      let u = hmac password (salt ++ block_bytes i) in xor_all u (chain (iterations - 1) u)

  -- T_i, T_(i + 1), … for `n` blocks.
  pub blocks : List ℕ → ℕ → ℕ → ℕ → List ℕ
  blocks salt iterations zero i = []
  blocks salt iterations (suc n) i = block_of salt iterations i ++ blocks salt iterations n (i + 1)

  mix-xor_all :
      (rounds : ℕ) (u t : List ℕ) → mix hmac password rounds u t ≡ xor_all t (chain rounds u)
  unfolding mix xor_all chain
  mix-xor_all zero u t = refl
  mix-xor_all (suc rounds) u t =
      mix-xor_all rounds (hmac password u) (xor_bytes t (hmac password u))

  block_value-block_of :
      (salt : List ℕ) (iterations i : ℕ)
      → block_value hmac password salt iterations i ≡ block_of salt iterations i
  unfolding block_value block_of
  block_value-block_of salt iterations i = mix-xor_all (iterations - 1) _ _

  take-append : (n : ℕ) (xs ys : List ℕ) → n ≤ length xs → take n xs ≡ take n (xs ++ ys)
  take-append zero xs ys h = refl
  take-append (suc n) [] ys h = elim h [ ]
  take-append (suc n) (x ∷ xs) ys h = ground (arith, take-append n xs ys)

  grow-blocks :
      (fuel : ℕ) (salt : List ℕ) (iterations n i : ℕ) (result : List ℕ)
      → i + fuel < 4294967296
      → take n (grow hmac password fuel salt iterations n i result)
        ≡ take n (result ++ blocks salt iterations fuel i)
  unfolding grow blocks
  grow-blocks zero salt iterations n i result h = rw append-nil
  grow-blocks (suc fuel) salt iterations n i result h = elim (Bool-cases (ltb (length result) n)) [
    | inl e ↦
        let small : (i + 1) % 4294967296 ≡ i + 1 = omega arith in
        rw (e, small)
          (grow-blocks fuel salt iterations n (i + 1)
              (result ++ block_value hmac password salt iterations i) (omega arith)
            ∙ rw (block_value-block_of salt iterations i, append_assoc))
    | inr e ↦ rw e (take-append n result _ (ground arith))
  ]

  module _ (hmac_length : (key message : List ℕ) → length (hmac key message) ≡ 32) where
    length-xor_all : (t : List ℕ) (us : List (List ℕ)) → length (xor_all t us) ≡ length t
    unfolding xor_all
    length-xor_all t [] = refl
    length-xor_all t (u ∷ us) = length-xor_all (xor_bytes t u) us ∙ length-xor_bytes t u

    length-blocks :
        (salt : List ℕ) (iterations n i : ℕ) → length (blocks salt iterations n i) ≡ n * 32
    unfolding blocks block_of
    length-blocks salt iterations zero i = refl
    length-blocks salt iterations (suc n) i = omega (
      arith,
      length-append (block_of salt iterations i) (blocks salt iterations n (i + 1)),
      length-xor_all (hmac password (salt ++ block_bytes i))
          (chain (iterations - 1) (hmac password (salt ++ block_bytes i))),
      hmac_length password (salt ++ block_bytes i),
      length-blocks salt iterations n (i + 1),
    )

    -- For a code of 32 bytes, at least one iteration and a length of at least 1 and below 2^32 - 1,
    -- the loops compute the first bytes of T_1, T_2, … of RFC 8018, as many as were asked for.
    pub pbkdf2-Rfc :
        (salt : List ℕ) (iterations n : ℕ)
        → 1 ≤ iterations
        → 1 ≤ n
        → n < 4294967295
        → (pbkdf2 hmac password salt iterations n ≡ take n (blocks salt iterations n 1))
          × (length (pbkdf2 hmac password salt iterations n) ≡ n)
    unfolding pbkdf2
    pbkdf2-Rfc salt iterations n c lo hi = (same, rw same size)
      where
        same : pbkdf2 hmac password salt iterations n ≡ take n (blocks salt iterations n 1)
        same = ground (arith, grow-blocks n salt iterations n 1 [])

        size : length (take n (blocks salt iterations n 1)) ≡ n
        size =
            omega
              (arith, length-take n (blocks salt iterations n 1), length-blocks salt iterations n 1)

    module _ (hmac_bytes : (key message : List ℕ) → AreBytes (hmac key message)) where
      AreBytes-xor_bytes : (ts us : List ℕ) → AreBytes ts → AreBytes (xor_bytes ts us)
      unfolding xor_bytes
      AreBytes-xor_bytes [] us h = tt
      AreBytes-xor_bytes (t ∷ ts) [] h = h
      AreBytes-xor_bytes (t ∷ ts) (u ∷ us) h = (omega arith, AreBytes-xor_bytes ts us h.1)

      AreBytes-xor_all : (t : List ℕ) (us : List (List ℕ)) → AreBytes t → AreBytes (xor_all t us)
      unfolding xor_all
      AreBytes-xor_all t [] h = h
      AreBytes-xor_all t (u ∷ us) h = AreBytes-xor_all (xor_bytes t u) us (AreBytes-xor_bytes t u h)

      AreBytes-append : (xs ys : List ℕ) → AreBytes xs → AreBytes ys → AreBytes (xs ++ ys)
      AreBytes-append [] ys h k = k
      AreBytes-append (x ∷ xs) ys h k = (h.0, AreBytes-append xs ys h.1 k)

      AreBytes-blocks : (salt : List ℕ) (iterations n i : ℕ) → AreBytes (blocks salt iterations n i)
      unfolding blocks block_of
      AreBytes-blocks salt iterations zero i = tt
      AreBytes-blocks salt iterations (suc n) i =
          AreBytes-append (block_of salt iterations i) _
            (AreBytes-xor_all (hmac password (salt ++ block_bytes i))
              (chain (iterations - 1) (hmac password (salt ++ block_bytes i)))
              (hmac_bytes password (salt ++ block_bytes i)))
            (AreBytes-blocks salt iterations n (i + 1))

      AreBytes-take : (n : ℕ) (xs : List ℕ) → AreBytes xs → AreBytes (take n xs)
      AreBytes-take zero xs h = tt
      AreBytes-take (suc n) [] h = tt
      AreBytes-take (suc n) (x ∷ xs) h = (h.0, AreBytes-take n xs h.1)

      pub pbkdf2-AreBytes :
          (salt : List ℕ) (iterations n : ℕ)
          → 1 ≤ iterations
          → 1 ≤ n
          → n < 4294967295
          → AreBytes (pbkdf2 hmac password salt iterations n)
      pbkdf2-AreBytes salt iterations n c lo hi =
          rw ((pbkdf2-Rfc salt iterations n c lo hi).0)
            (AreBytes-take n _ (AreBytes-blocks salt iterations n 1))
