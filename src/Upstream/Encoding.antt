-- ===== src/Upstream/Encoding.antt =====
-- b64Decode of internal/upstream/parse.go, and `url.PathUnescape`.
use conduitvpn.Base.{
  ℕ, ◌+◌, ◌-◌, ◌*◌, ◌%◌, ◌&&◌, ◌||◌, Option, none, some, List, [], ◌∷◌, ◌++◌, map, leb, ◌==◌,
  if◌then◌else◌, length, Str, codes, trim_space,
}
use conduitvpn.State.Base64
use conduitvpn.State.Base64.Padded.{decode_std}

-- `base64.URLEncoding`: the bytes 62 and 63 are written otherwise.
unfoldable pub of_url_char : ℕ → ℕ
of_url_char c =
    if c == b'-' then b'+' else if c == b'_' then b'/' else if c == b'+' || c == b'/' then 0 else c

abbrev pub first_some : List (Option (List ℕ)) → Option (List ℕ)
first_some [] = none
first_some (some b ∷ rest) = some b
first_some (none ∷ rest) = first_some rest

abbrev pub equals_signs : ℕ → Str
equals_signs n =
    if n == 3 then codes "=" else if n == 2 then codes "==" else if n == 1 then codes "===" else []

-- The padding fills the last block of four; the four encodings are tried in order.
unfoldable pub b64_decode : Str → Option (List ℕ)
unfolding trim_space decode_std Base64.decode of_url_char
b64_decode s =
    let t = trim_space s in
    let padded = t ++ equals_signs (length t % 4) in
    first_some (
      decode_std padded
      ∷ Base64.decode padded
      ∷ decode_std (map of_url_char padded)
      ∷ Base64.decode (map of_url_char padded)
      ∷ [])

abbrev pub hex_value : ℕ → Option ℕ
hex_value c =
    if leb b'0' c && leb c b'9'
    then some (c - b'0')
    else if leb b'a' c && leb c b'f'
    then some (c - b'a' + 10)
    else if leb b'A' c && leb c b'F'
    then some (c - b'A' + 10)
    else none

abbrev pub cons_byte : Option ℕ → Option ℕ → Option Str → Option Str
cons_byte (some a) (some b) (some s) = some ((a * 16 + b) ∷ s)
cons_byte (some a) (some b) none = none
cons_byte (some a) none o = none
cons_byte none b o = none

abbrev pub cons_plain : ℕ → Option Str → Option Str
cons_plain c none = none
cons_plain c (some s) = some (c ∷ s)

-- `url.PathUnescape`: none where a percent sign is not followed by two hexadecimal digits.
unfoldable pub path_unescape : Str → Option Str
path_unescape [] = some []
path_unescape (c ∷ []) = if c == b'%' then none else some (c ∷ [])
path_unescape (c ∷ d ∷ []) =
    let rest = path_unescape (d ∷ []) in if c == b'%' then none else cons_plain c rest
path_unescape (c ∷ d ∷ e ∷ s) =
    let rest = path_unescape (d ∷ e ∷ s) in
    let behind = path_unescape s in
    if c == b'%' then cons_byte (hex_value d) (hex_value e) behind else cons_plain c rest
