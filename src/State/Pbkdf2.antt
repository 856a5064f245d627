-- ===== src/State/Pbkdf2.antt =====
-- pbkdf2SHA256 of internal/state/store.go. HMAC-SHA-256 is a parameter: a key and a message give
-- 32 bytes. The loop over the blocks takes fuel, one unit for each byte asked for.
pub mod Rfc
use Prim.Native.Nat.{bit_xor}
use conduitvpn.Base.{
  ℕ, zero, suc, ◌+◌, ◌-◌, ◌*◌, ◌/◌, ◌%◌, ◌^◌, ◌≤◌, ◌<◌, ◌≡◌, refl, sym, ap, ◌∙◌, subst, ◌≢◌, ◌↔◌,
  ◌⊎◌, inl, inr, Bool, true, false, not, ◌&&◌, ◌||◌, Option, none, some, List, [], ◌∷◌, ◌++◌, map,
  arith, ltb, leb, ◌==◌, if◌then◌else◌, is_some, ==_iff, Bool-cases, Option-cases, length,
  get_elem?, set, take, drop, any, keep, All, Elem, length-append, length-drop, length-take,
  length-set, All-Elem, Elem-append_left, Elem-append_last, Str, codes, is_empty, str_eq,
  str_eq_iff, str_eq_refl, trim_space, trim, to_upper, to_lower, has_prefix, trim_prefix, contains,
  split, fields, join, one_of, one_of_sound, one_of_complete, to_upper_idem, Dict, lookup, insert,
  delete, keys, lookup-insert, lookup-delete, ℤ, pos, negsuc, ltb_ℤ, leb_ℤ, add_ℕ, sort_stable,
  IsSorted, atoi, sprint, parse_ip, to4, is_loopback,
}

-- `t[j] ^= u[j]` on bytes.
unfoldable pub xor_bytes : List ℕ → List ℕ → List ℕ
xor_bytes [] us = []
xor_bytes (t ∷ ts) [] = t ∷ ts
xor_bytes (t ∷ ts) (u ∷ us) = (bit_xor t u % 256) ∷ xor_bytes ts us

-- The block number as four bytes, the highest first; it is a uint32.
abbrev pub block_bytes : ℕ → List ℕ
block_bytes n = (n / 16777216 % 256) ∷ (n / 65536 % 256) ∷ (n / 256 % 256) ∷ (n % 256) ∷ []

module _ (hmac : List ℕ → List ℕ → List ℕ) (password : List ℕ) where
  -- The loop `for i := 1; i < iterations; i++`, with the rounds that are left.
  mix : ℕ → List ℕ → List ℕ → List ℕ
  mix zero u t = t
  mix (suc rounds) u t = mix rounds (hmac password u) (xor_bytes t (hmac password u))

  -- The bytes of one block.
  pub block_value : List ℕ → ℕ → ℕ → List ℕ
  unfolding mix xor_bytes
  block_value salt iterations block =
      let u = hmac password (salt ++ block_bytes block) in mix (iterations - 1) u u

  -- The loop over the blocks; the block number wraps as a uint32.
  pub grow : ℕ → List ℕ → ℕ → ℕ → ℕ → List ℕ → List ℕ
  unfolding block_value
  grow zero salt iterations length' block result = result
  grow (suc fuel) salt iterations length' block result =
      let more =
        grow fuel salt iterations length' ((block + 1) % 4294967296)
          (result ++ block_value salt iterations block) in
      if ltb (length result) length' then more else result

  unfoldable pub pbkdf2 : List ℕ → ℕ → ℕ → List ℕ
  unfolding grow
  pbkdf2 salt iterations length' =
      if ltb iterations 1 || ltb length' 1
      then []
      else take length' (grow length' salt iterations length' 1 [])
