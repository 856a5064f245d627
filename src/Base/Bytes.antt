-- ===== src/Base/Bytes.antt =====
-- Reading a stream of bytes: `io.ReadFull`, whose failure ends the dialogue, and the writing of a
-- 16-bit number in network order.
use Prim.Native.Nat.{ℕ, zero, suc, ◌+◌, ◌*◌, ◌/◌, ◌%◌, ◌<◌}
use mathlib.Core.Path.{◌≡◌, refl, ap, sym, ◌∙◌}
use mathlib.Core.Logic.{inl, inr}
use conduitvpn.Base.Tests.{Option-cases}
use mathlib.Core.Option.{Option, none, some}
use mathlib.Core.List.{List, [], ◌∷◌, ◌++◌}
use native.Mathlib.Omega.{arith}
use conduitvpn.Base.Lists.{length}

abbrev prepend : ℕ → Option (List ℕ × List ℕ) → Option (List ℕ × List ℕ)
prepend b none = none
prepend b (some (bytes, rest)) = some (b ∷ bytes, rest)

-- The next `n` bytes and what follows them.
unfoldable pub read_full : ℕ → List ℕ → Option (List ℕ × List ℕ)
read_full zero input = some ([], input)
read_full (suc n) [] = none
read_full (suc n) (b ∷ input) = prepend b (read_full n input)

abbrev pub on_read : {R : Type 0} → Option (List ℕ × List ℕ) → R → (List ℕ → List ℕ → R) → R
on_read none failed next = failed
on_read (some (bytes, rest)) failed next = next bytes rest

-- Read `n` bytes, and go on with them, or with `failed` where the stream ends before.
abbrev pub reading : {R : Type 0} → ℕ → List ℕ → R → (List ℕ → List ℕ → R) → R
reading n input failed next = on_read (read_full n input) failed next

-- `b[i]`, in bounds wherever the source uses it.
abbrev pub byte_at : ℕ → List ℕ → ℕ
byte_at i [] = 0
byte_at zero (b ∷ bytes) = b
byte_at (suc i) (b ∷ bytes) = byte_at i bytes

pub read_full-append :
    (bytes rest : List ℕ) → read_full (length bytes) (bytes ++ rest) ≡ some (bytes, rest)
unfolding read_full
read_full-append [] rest = refl
read_full-append (b ∷ bytes) rest = rw (read_full-append bytes rest)

-- `byte(port>>8), byte(port)` and `binary.BigEndian.Uint16`.
abbrev pub put_uint16 : ℕ → List ℕ
put_uint16 n = (n / 256 % 256) ∷ (n % 256) ∷ []

abbrev pub uint16 : List ℕ → ℕ
uint16 bytes = byte_at 0 bytes * 256 + byte_at 1 bytes

-- A field whose length stands before it is read back.
pub reading-append :
    {R : Type 0} (k : ℕ) (bytes rest : List ℕ) (failed : R) (next : List ℕ → List ℕ → R)
    → k ≡ length bytes
    → reading k (bytes ++ rest) failed next ≡ next bytes rest
reading-append k bytes rest failed next e =
    ap (λ n. reading n (bytes ++ rest) failed next) e
    ∙ ap (λ o. on_read o failed next) (read_full-append bytes rest)

pub uint16-put_uint16 : (n : ℕ) → n < 65536 → uint16 (put_uint16 n) ≡ n
uint16-put_uint16 n h = omega arith

prepend_inv :
    (n b : ℕ) (input bytes rest : List ℕ) (o : Option (List ℕ × List ℕ))
    → ((c r : List ℕ) → o ≡ some (c, r) → (input ≡ c ++ r) × (length c ≡ n))
    → prepend b o ≡ some (bytes, rest)
    → (b ∷ input ≡ bytes ++ rest) × (length bytes ≡ suc n)
prepend_inv n b input bytes rest none ih q = absurd cc
prepend_inv n b input bytes rest (some (c, r)) ih q =
    let same_bytes : b ∷ c ≡ bytes = cc in
    let same_rest : r ≡ rest = cc in
    let (joined, size) = ih c r refl in
    (
      ap (λ t. b ∷ t) joined ∙ ap (λ t. t ++ r) same_bytes ∙ ap (λ t. bytes ++ t) same_rest,
      ap length (sym same_bytes) ∙ ap suc size,
    )

read_full_inv :
    (n : ℕ) (input bytes rest : List ℕ)
    → read_full n input ≡ some (bytes, rest)
    → (input ≡ bytes ++ rest) × (length bytes ≡ n)
unfolding read_full
read_full_inv zero input bytes rest e = ground arith
read_full_inv (suc n) [] bytes rest e = absurd cc
read_full_inv (suc n) (b ∷ input) bytes rest e =
    prepend_inv n b input bytes rest (read_full n input) (λ c r p. read_full_inv n input c r p) e

-- What holds where the stream ends before, and whatever is read, holds.
pub reading-all :
    {R : Type 0} (P : R → Type 0) (n : ℕ) (input : List ℕ) (failed : R) (next : List ℕ → List ℕ → R)
    → P failed
    → ((bytes rest : List ℕ) → input ≡ bytes ++ rest → length bytes ≡ n → P (next bytes rest))
    → P (reading n input failed next)
reading-all P n input failed next p q = elim (Option-cases (read_full n input)) [
  | inl e ↦ rw e p
  | inr ((bytes, rest), e) ↦
      let (same, size) = read_full_inv n input bytes rest e in rw e (q bytes rest same size)
]

pub two_bytes : (b : List ℕ) → length b ≡ 2 → b ≡ byte_at 0 b ∷ byte_at 1 b ∷ []
two_bytes [] e = absurd (omega arith)
two_bytes (x ∷ []) e = absurd (omega arith)
two_bytes (x ∷ y ∷ []) e = refl
two_bytes (x ∷ y ∷ z ∷ b) e = absurd (omega arith)

pub one_byte : (b : List ℕ) → length b ≡ 1 → b ≡ byte_at 0 b ∷ []
one_byte [] e = absurd (omega arith)
one_byte (x ∷ []) e = refl
one_byte (x ∷ y ∷ b) e = absurd (omega arith)
