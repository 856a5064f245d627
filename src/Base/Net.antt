-- ===== src/Base/Net.antt =====
-- `net.ParseIP` as the program uses it: the text forms of IPv4 and IPv6 without a zone, and the
-- four bytes that `To4` gives. `split_host_port` is `net.SplitHostPort`.
use mathlib.Core.Path.{◌≡◌, refl, ap}
use native.Mathlib.Omega.{arith}
use mathlib.Core.Logic.{inl, inr}
use Prim.Native.Nat.{◌≤◌, ℕ, zero, suc, ◌+◌, ◌-◌, ◌*◌, ◌/◌, ◌%◌}
use mathlib.Core.Bool.{Bool, true, false, not, ◌&&◌, ◌||◌}
use mathlib.Core.Option.{Option, none, some}
use mathlib.Core.List.{List, [], ◌∷◌, ◌++◌}
use conduitvpn.Base.Tests.{Bool-cases, leb, ◌==◌, if◌then◌else◌}
use conduitvpn.Base.Lists.{length, drop, length-append}
use conduitvpn.Base.Text.{Str, split, has_prefix, contains, codes, str_eq}
use conduitvpn.Base.Number.{parse_digits, digits_value}

infixl 5 ◌>>=◌
abbrev ◌>>=◌ {ℓ κ} : {A : Type ℓ} {B : Type κ} → Option A → (A → Option B) → Option B
none >>= k = none
some a >>= k = k a

abbrev require : Bool → Option (Unit {0})
require true = some tt
require false = none

infixl 5 ◌>>◌
abbrev ◌>>◌ {ℓ} : {B : Type ℓ} → Option (Unit {0}) → Option B → Option B
m >> k = m >>= λ _. k

-- A decimal field of a dotted address: at most 255 and without a leading zero.
parse_octet : Str → Option ℕ
unfolding digits_value
parse_octet s = do
  n ← parse_digits s
  require (leb n 255 && (length s == 1 || not (has_prefix s (codes "0"))))
  some n

octets : List Str → Option (List ℕ)
unfolding parse_octet
octets (a ∷ b ∷ c ∷ d ∷ []) = do
  w ← parse_octet a
  x ← parse_octet b
  y ← parse_octet c
  z ← parse_octet d
  some (w ∷ x ∷ y ∷ z ∷ [])
octets _ = none

unfoldable pub parse_ipv4 : Str → Option (List ℕ)
unfolding octets split
parse_ipv4 s = octets (split b'.' s)

hex_digit : ℕ → Option ℕ
hex_digit c =
    if leb b'0' c && leb c b'9'
    then some (c - b'0')
    else if leb b'a' c && leb c b'f'
    then some (c - b'a' + 10)
    else if leb b'A' c && leb c b'F'
    then some (c - b'A' + 10)
    else none

hex_value : ℕ → Str → Option ℕ
unfolding hex_digit
hex_value acc [] = some acc
hex_value acc (c ∷ s) = hex_digit c >>= λ d. hex_value (acc * 16 + d) s

-- One group of an IPv6 address, as two bytes.
group : Str → Option (List ℕ)
unfolding hex_value
group s = do
  require (leb 1 (length s) && leb (length s) 4)
  n ← hex_value 0 s
  some ((n / 256) ∷ (n % 256) ∷ [])

-- The groups between colons; where `v4` holds the last one may be a dotted address.
groups : Bool → List Str → Option (List ℕ)
unfolding group parse_ipv4
groups v4 [] = some []
groups v4 (s ∷ []) = if v4 && contains s (codes ".") then parse_ipv4 s else group s
groups v4 (s ∷ t ∷ rest) = do g ← group s; gs ← groups v4 (t ∷ rest); some (g ++ gs)

side : Bool → Str → Option (List ℕ)
unfolding groups split
side v4 [] = some []
side v4 (c ∷ s) = groups v4 (split b':' (c ∷ s))

-- What stands before and behind the first `::`.
abbrev keep_left : ℕ → Option (Str × Str) → Option (Str × Str)
keep_left c none = none
keep_left c (some (l, r)) = some (c ∷ l, r)

cut_ellipsis : Str → Option (Str × Str)
unfolding has_prefix
cut_ellipsis [] = none
cut_ellipsis (c ∷ s) =
    if has_prefix (c ∷ s) (codes "::") then some ([], drop 1 s) else keep_left c (cut_ellipsis s)

zeros : ℕ → List ℕ
zeros zero = []
zeros (suc n) = 0 ∷ zeros n

unfoldable pub parse_ipv6 : Str → Option (List ℕ)
unfolding side cut_ellipsis zeros
parse_ipv6 s = elim (cut_ellipsis s) [
  | none ↦ do bytes ← groups true (split b':' s); require (length bytes == 16); some bytes
  | some (l, r) ↦ do
    before ← side false l
    after ← side true r
    require (leb (length before + length after) 14)
    some (before ++ zeros (16 - length before - length after) ++ after)
]

abbrev mapped_prefix : List ℕ
mapped_prefix = 0 ∷ 0 ∷ 0 ∷ 0 ∷ 0 ∷ 0 ∷ 0 ∷ 0 ∷ 0 ∷ 0 ∷ 255 ∷ 255 ∷ []

-- The 16 bytes of an address; IPv4 is mapped, as Go holds it.
unfoldable pub parse_ip : Str → Option (List ℕ)
unfolding parse_ipv4 parse_ipv6
parse_ip s =
    if contains s (codes ":") then parse_ipv6 s else parse_ipv4 s >>= λ b. some (mapped_prefix ++ b)

unfoldable pub to4 : List ℕ → Option (List ℕ)
unfolding has_prefix
to4 bytes =
    if length bytes == 4
    then some bytes
    else if length bytes == 16 && has_prefix bytes mapped_prefix
    then some (drop 12 bytes)
    else none

-- `ip != nil && ip.IsLoopback()`.
unfoldable pub is_loopback : Str → Bool
unfolding parse_ip to4 str_eq
is_loopback s = elim (parse_ip s) [
  | none ↦ false
  | some bytes ↦ elim (to4 bytes) [
    | some v4 ↦ has_prefix v4 (127 ∷ [])
    | none ↦ str_eq bytes (zeros 15 ++ 1 ∷ [])
  ]
]

length-zeros : (n : ℕ) → length (zeros n) ≡ n
unfolding zeros
length-zeros zero = refl
length-zeros (suc n) = ap suc (length-zeros n)

octets-length : (parts : List Str) (b : List ℕ) → octets parts ≡ some b → length b ≡ 4
unfolding octets
octets-length [] b e = cc
octets-length (w ∷ []) b e = cc
octets-length (w ∷ x ∷ []) b e = cc
octets-length (w ∷ x ∷ y ∷ []) b e = cc
octets-length (w ∷ x ∷ y ∷ z ∷ []) b e = ground arith
octets-length (w ∷ x ∷ y ∷ z ∷ v ∷ r) b e = cc

padded :
    (before after : List ℕ)
    → length before + length after ≤ 14
    → length (before ++ zeros (16 - length before - length after) ++ after) ≡ 16
padded before after h = omega (
  arith,
  length-append (before ++ zeros (16 - length before - length after)) after,
  length-append before (zeros (16 - length before - length after)),
  length-zeros (16 - length before - length after),
)

whole_lem :
    (o : Option (List ℕ)) (b : List ℕ)
    → (o >>= λ bytes. require (length bytes == 16) >> some bytes) ≡ some b
    → length b ≡ 16
whole_lem none b e = cc
whole_lem (some bytes) b e = ground arith

halves_lem :
    (o p : Option (List ℕ)) (b : List ℕ)
    → (o >>= λ before. p >>= λ after.
        require (leb (length before + length after) 14)
        >> some (before ++ zeros (16 - length before - length after) ++ after))
      ≡ some b
    → length b ≡ 16
halves_lem none p b e = cc
halves_lem (some before) none b e = cc
halves_lem (some before) (some after) b e = ground (arith, padded before after)

ellipsis_lem :
    (s : Str) (o : Option (Str × Str)) (b : List ℕ)
    → (elim o as (λ x. Option (List ℕ)) [
      | none ↦ groups true (split b':' s) >>= λ bytes. require (length bytes == 16) >> some bytes
      | some (l, r) ↦ side false l >>= λ before. side true r >>= λ after.
          require (leb (length before + length after) 14)
          >> some (before ++ zeros (16 - length before - length after) ++ after)
    ])
      ≡ some b
    → length b ≡ 16
ellipsis_lem s none b e = whole_lem (groups true (split b':' s)) b e
ellipsis_lem s (some (l, r)) b e = halves_lem (side false l) (side true r) b e

-- Go holds every address in 16 bytes.
pub parse_ip-length : (s : Str) (b : List ℕ) → parse_ip s ≡ some b → length b ≡ 16
unfolding parse_ip parse_ipv6 parse_ipv4
parse_ip-length s b e = elim (Bool-cases (contains s (codes ":"))) [
  | inl y ↦ ellipsis_lem s (cut_ellipsis s) b (rw y at e)
  | inr n ↦ mapped (octets (split b'.' s)) refl (rw n at e)
]
  where
    mapped :
        (o : Option (List ℕ))
        → octets (split b'.' s) ≡ o
        → (o >>= λ v. some (mapped_prefix ++ v)) ≡ some b
        → length b ≡ 16
    mapped none p q = cc
    mapped (some v) p q = ground (arith, octets-length (split b'.' s) v p)
