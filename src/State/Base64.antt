-- ===== src/State/Base64.antt =====
-- `base64.RawStdEncoding` as internal/state/store.go uses it for the password hash: encoding, the
-- decoding that skips line ends, and the round trip.
pub mod Padded
use conduitvpn.Base.{
  ℕ, ◌+◌, ◌-◌, ◌*◌, ◌/◌, ◌%◌, ◌<◌, ◌≡◌, refl, false, ◌&&◌, ◌||◌, Option, none, some, List, [], ◌∷◌,
  map, arith, ltb, leb, ◌==◌, if◌then◌else◌, length, All, Str, is_empty,
}

unfoldable pub sextet_char : ℕ → ℕ
sextet_char n =
    if ltb n 26
    then b'A' + n
    else if ltb n 52
    then b'a' + (n - 26)
    else if ltb n 62
    then b'0' + (n - 52)
    else if n == 62
    then b'+'
    else b'/'

unfoldable pub char_sextet : ℕ → Option ℕ
char_sextet c =
    if leb b'A' c && leb c b'Z'
    then some (c - b'A')
    else if leb b'a' c && leb c b'z'
    then some (c - b'a' + 26)
    else if leb b'0' c && leb c b'9'
    then some (c - b'0' + 52)
    else if c == b'+'
    then some 62
    else if c == b'/'
    then some 63
    else none

sextets : List ℕ → List ℕ
sextets [] = []
sextets (a ∷ []) = (a / 4) ∷ (a % 4 * 16) ∷ []
sextets (a ∷ b ∷ []) = (a / 4) ∷ (a % 4 * 16 + b / 16) ∷ (b % 16 * 4) ∷ []
sextets (a ∷ b ∷ c ∷ r) =
    (a / 4) ∷ (a % 4 * 16 + b / 16) ∷ (b % 16 * 4 + c / 64) ∷ (c % 64) ∷ sextets r

unfoldable pub encode : List ℕ → Str
unfolding sextets sextet_char
encode bytes = map sextet_char (sextets bytes)

abbrev cons_some : ℕ → Option (List ℕ) → Option (List ℕ)
cons_some n none = none
cons_some n (some ns) = some (n ∷ ns)

abbrev cons_read : Option ℕ → Option (List ℕ) → Option (List ℕ)
cons_read none ns = none
cons_read (some n) ns = cons_some n ns

read_sextets : Str → Option (List ℕ)
unfolding char_sextet
read_sextets [] = some []
read_sextets (c ∷ s) =
    let rest = read_sextets s in if c == 10 || c == 13 then rest else cons_read (char_sextet c) rest

group_bytes : List ℕ → Option (List ℕ)
group_bytes [] = some []
group_bytes (w ∷ []) = none
group_bytes (w ∷ x ∷ []) = some ((w * 4 + x / 16) ∷ [])
group_bytes (w ∷ x ∷ y ∷ []) = some ((w * 4 + x / 16) ∷ (x % 16 * 16 + y / 4) ∷ [])
group_bytes (w ∷ x ∷ y ∷ z ∷ r) =
    cons_some (w * 4 + x / 16)
      (cons_some (x % 16 * 16 + y / 4) (cons_some (y % 4 * 64 + z) (group_bytes r)))

abbrev then_group : Option (List ℕ) → Option (List ℕ)
then_group none = none
then_group (some ns) = group_bytes ns

unfoldable pub decode : Str → Option (List ℕ)
unfolding read_sextets group_bytes
decode s = then_group (read_sextets s)

abbrev pub AreBytes : List ℕ → Type 0
AreBytes = All (λ b. b < 256)

char_sextet-sextet_char : (n : ℕ) → n < 64 → char_sextet (sextet_char n) ≡ some n
unfolding char_sextet sextet_char
char_sextet-sextet_char n h = ground arith

sextet_char_text : (n : ℕ) → n < 64 → (sextet_char n == 10 || sextet_char n == 13) ≡ false
unfolding sextet_char
sextet_char_text n h = ground arith

read_sextets-map :
    (ns : List ℕ) → All (λ n. n < 64) ns → read_sextets (map sextet_char ns) ≡ some ns
unfolding read_sextets
read_sextets-map [] h = refl
read_sextets-map (n ∷ ns) h =
    rw (sextet_char_text n h.0, char_sextet-sextet_char n h.0, read_sextets-map ns h.1)

sextets-small : (bytes : List ℕ) → AreBytes bytes → All (λ n. n < 64) (sextets bytes)
unfolding sextets
sextets-small [] h = tt
sextets-small (a ∷ []) h = omega arith
sextets-small (a ∷ b ∷ []) h = omega arith
sextets-small (a ∷ b ∷ c ∷ r) h =
    (omega arith, (omega arith, (omega arith, (omega arith, sextets-small r h.1.1.1))))

group_bytes-sextets : (bytes : List ℕ) → AreBytes bytes → group_bytes (sextets bytes) ≡ some bytes
unfolding sextets group_bytes
group_bytes-sextets [] h = refl
group_bytes-sextets (a ∷ []) h = ground arith
group_bytes-sextets (a ∷ b ∷ []) h = ground arith
group_bytes-sextets (a ∷ b ∷ c ∷ r) h = ground (arith, group_bytes-sextets r)

-- What is encoded is decoded again.
pub decode-encode : (bytes : List ℕ) → AreBytes bytes → decode (encode bytes) ≡ some bytes
unfolding decode encode
decode-encode bytes h =
    rw (read_sextets-map (sextets bytes) (sextets-small bytes h)) (group_bytes-sextets bytes h)

-- Something is encoded as something.
pub is_empty-encode : (bytes : List ℕ) → 0 < length bytes → is_empty (encode bytes) ≡ false
unfolding encode
is_empty-encode [] h = elim h [ ]
is_empty-encode (a ∷ []) h = refl
is_empty-encode (a ∷ b ∷ []) h = refl
is_empty-encode (a ∷ b ∷ c ∷ r) h = refl
