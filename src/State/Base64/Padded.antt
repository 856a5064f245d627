-- ===== src/State/Base64/Padded.antt =====
-- `base64.StdEncoding`, which pads to blocks of four characters: the form of the credentials of an
-- HTTP proxy and of the node list. Its decoding skips line ends.
use conduitvpn.Base.{
  ℕ, ◌/◌, ◌%◌, ◌<◌, ◌≡◌, refl, ap, Bool, false, not, ◌||◌, Option, none, some, List, [], ◌∷◌, map,
  arith, ◌==◌, if◌then◌else◌, length, keep, All, Str, trim_space,
}
use conduitvpn.Base.Text.{is_space, trim_left, trim_right}
use conduitvpn.State.Base64
use conduitvpn.State.Base64.{AreBytes, sextets, sextet_char, sextets-small, decode-encode}

abbrev line_end : ℕ → Bool
line_end c = c == 10 || c == 13

abbrev map_some : (Str → Str) → Option Str → Option Str
map_some f none = none
map_some f (some s) = some (f s)

-- The last block without its padding.
abbrev unpad_block : ℕ → ℕ → ℕ → ℕ → Str
unpad_block a b c d =
    if not (d == b'=')
    then a ∷ b ∷ c ∷ d ∷ []
    else if not (c == b'=')
    then a ∷ b ∷ c ∷ []
    else a ∷ b ∷ []

unpad : Str → Option Str
unpad [] = some []
unpad (a ∷ []) = none
unpad (a ∷ b ∷ []) = none
unpad (a ∷ b ∷ c ∷ []) = none
unpad (a ∷ b ∷ c ∷ d ∷ []) = some (unpad_block a b c d)
unpad (a ∷ b ∷ c ∷ d ∷ e ∷ s) = map_some (λ t. a ∷ b ∷ c ∷ d ∷ t) (unpad (e ∷ s))

abbrev then_decode : Option Str → Option (List ℕ)
then_decode none = none
then_decode (some s) = Base64.decode s

unfoldable pub decode_std : Str → Option (List ℕ)
unfolding unpad Base64.decode
decode_std s = then_decode (unpad (keep (λ c. not (line_end c)) s))

pad : Str → Str
pad [] = []
pad (a ∷ []) = a ∷ b'=' ∷ b'=' ∷ b'=' ∷ []
pad (a ∷ b ∷ []) = a ∷ b ∷ b'=' ∷ b'=' ∷ []
pad (a ∷ b ∷ c ∷ []) = a ∷ b ∷ c ∷ b'=' ∷ []
pad (a ∷ b ∷ c ∷ d ∷ s) = a ∷ b ∷ c ∷ d ∷ pad s

unfoldable pub encode_std : List ℕ → Str
unfolding pad Base64.encode
encode_std bytes = pad (Base64.encode bytes)

-- Characters of the alphabet: neither padding nor line ends.
abbrev Plain : Str → Type 0
Plain = All (λ c. (line_end c ≡ false) × ((c == b'=') ≡ false))

-- A length that whole blocks leave: never one character over.
abbrev Fits : Str → Type 0
Fits [] = Unit
Fits (a ∷ []) = ⊥
Fits (a ∷ b ∷ []) = Unit
Fits (a ∷ b ∷ c ∷ []) = Unit
Fits (a ∷ b ∷ c ∷ d ∷ s) = Fits s

unpad-block : (a b c d : ℕ) → (d == b'=') ≡ false → unpad_block a b c d ≡ a ∷ b ∷ c ∷ d ∷ []
unpad-block a b c d h = rw h refl

unpad-part : (a b c : ℕ) → (c == b'=') ≡ false → unpad_block a b c b'=' ≡ a ∷ b ∷ c ∷ []
unpad-part a b c h = rw h refl

unpad-pad : (s : Str) → Plain s → Fits s → unpad (pad s) ≡ some s
unfolding unpad pad
unpad-pad [] p f = refl
unpad-pad (a ∷ []) p f = absurd f
unpad-pad (a ∷ b ∷ []) p f = refl
unpad-pad (a ∷ b ∷ c ∷ []) p f = ap some (unpad-part a b c p.1.1.0.1)
unpad-pad (a ∷ b ∷ c ∷ d ∷ []) p f = ap some (unpad-block a b c d p.1.1.1.0.1)
unpad-pad (a ∷ b ∷ c ∷ d ∷ e ∷ []) p f = absurd f
unpad-pad (a ∷ b ∷ c ∷ d ∷ e ∷ g ∷ []) p f = refl
unpad-pad (a ∷ b ∷ c ∷ d ∷ e ∷ g ∷ h ∷ []) p f =
    ap (λ t. map_some (λ t. a ∷ b ∷ c ∷ d ∷ t) (some t)) (unpad-part e g h p.1.1.1.1.1.1.0.1)
unpad-pad (a ∷ b ∷ c ∷ d ∷ e ∷ g ∷ h ∷ i ∷ s) p f =
    ap (map_some (λ t. a ∷ b ∷ c ∷ d ∷ t)) (unpad-pad (e ∷ g ∷ h ∷ i ∷ s) p.1.1.1.1 f)

keep-pad : (s : Str) → Plain s → keep (λ c. not (line_end c)) (pad s) ≡ pad s
unfolding pad
keep-pad [] p = refl
keep-pad (a ∷ []) p = rw p.0.0 refl
keep-pad (a ∷ b ∷ []) p = rw (p.0.0, p.1.0.0) refl
keep-pad (a ∷ b ∷ c ∷ []) p = rw (p.0.0, p.1.0.0, p.1.1.0.0) refl
keep-pad (a ∷ b ∷ c ∷ d ∷ s) p =
    rw (p.0.0, p.1.0.0, p.1.1.0.0, p.1.1.1.0.0, keep-pad s p.1.1.1.1) refl

sextet_char_plain :
    (n : ℕ) → n < 64 → (line_end (sextet_char n) ≡ false) × ((sextet_char n == b'=') ≡ false)
unfolding sextet_char
sextet_char_plain n h = (ground arith, ground arith)

map-Plain : (ns : List ℕ) → All (λ n. n < 64) ns → Plain (map sextet_char ns)
map-Plain [] h = tt
map-Plain (n ∷ ns) h = (sextet_char_plain n h.0, map-Plain ns h.1)

encode-Plain : (bytes : List ℕ) → AreBytes bytes → Plain (Base64.encode bytes)
unfolding Base64.encode
encode-Plain bytes h = map-Plain (sextets bytes) (sextets-small bytes h)

map-sextets-Fits : (bytes : List ℕ) → Fits (map sextet_char (sextets bytes))
unfolding sextets
map-sextets-Fits [] = tt
map-sextets-Fits (a ∷ []) = tt
map-sextets-Fits (a ∷ b ∷ []) = tt
map-sextets-Fits (a ∷ b ∷ c ∷ r) = map-sextets-Fits r

encode-Fits : (bytes : List ℕ) → Fits (Base64.encode bytes)
unfolding Base64.encode
encode-Fits bytes = map-sextets-Fits bytes

-- What is encoded with padding is decoded again.
pub decode_std-encode_std :
    (bytes : List ℕ) → AreBytes bytes → decode_std (encode_std bytes) ≡ some bytes
unfolding decode_std encode_std
decode_std-encode_std bytes h =
    rw
      (
        keep-pad (Base64.encode bytes) (encode-Plain bytes h),
        unpad-pad (Base64.encode bytes) (encode-Plain bytes h) (encode-Fits bytes),
      )
      (decode-encode bytes h)

abbrev Dense : Str → Type 0
Dense = All (λ c. is_space c ≡ false)

map-Dense : (ns : List ℕ) → All (λ n. n < 64) ns → Dense (map sextet_char ns)
unfolding sextet_char
map-Dense [] h = tt
map-Dense (n ∷ ns) h = (ground (arith, h.0), map-Dense ns h.1)

pad-Dense : (s : Str) → Dense s → Dense (pad s)
unfolding pad
pad-Dense [] h = tt
pad-Dense (a ∷ []) h = (h.0, (refl, (refl, (refl, tt))))
pad-Dense (a ∷ b ∷ []) h = (h.0, (h.1.0, (refl, (refl, tt))))
pad-Dense (a ∷ b ∷ c ∷ []) h = (h.0, (h.1.0, (h.1.1.0, (refl, tt))))
pad-Dense (a ∷ b ∷ c ∷ d ∷ s) h = (h.0, (h.1.0, (h.1.1.0, (h.1.1.1.0, pad-Dense s h.1.1.1.1))))

encode_std-Dense : (bytes : List ℕ) → AreBytes bytes → Dense (encode_std bytes)
unfolding encode_std Base64.encode
encode_std-Dense bytes h =
    pad-Dense (map sextet_char (sextets bytes)) (map-Dense (sextets bytes) (sextets-small bytes h))

trim_left-Dense : (s : Str) → Dense s → trim_left is_space s ≡ s
unfolding trim_left
trim_left-Dense [] h = refl
trim_left-Dense (c ∷ s) h = rw h.0 refl

trim_right-Dense : (s : Str) → Dense s → trim_right is_space s ≡ s
unfolding trim_right
trim_right-Dense [] h = refl
trim_right-Dense (c ∷ s) h = rw (trim_right-Dense s h.1, h.0) (ground arith)

-- The encoded text has nothing to trim.
pub trim_space-encode_std :
    (bytes : List ℕ) → AreBytes bytes → trim_space (encode_std bytes) ≡ encode_std bytes
unfolding trim_space
trim_space-encode_std bytes h =
    rw (trim_left-Dense (encode_std bytes) (encode_std-Dense bytes h))
      (trim_right-Dense (encode_std bytes) (encode_std-Dense bytes h))

length-pad : (s : Str) → Fits s → length (pad s) % 4 ≡ 0
unfolding pad
length-pad [] f = omega arith
length-pad (a ∷ []) f = absurd f
length-pad (a ∷ b ∷ []) f = omega arith
length-pad (a ∷ b ∷ c ∷ []) f = omega arith
length-pad (a ∷ b ∷ c ∷ d ∷ s) f = omega (arith, length-pad s f)

-- The encoded text is whole blocks of four.
pub length-encode_std : (bytes : List ℕ) → length (encode_std bytes) % 4 ≡ 0
unfolding encode_std
length-encode_std bytes = length-pad (Base64.encode bytes) (encode-Fits bytes)

sextet_char_open :
    (n : ℕ) → n < 64 → ((sextet_char n == b'[') ≡ false) × ((sextet_char n == b'{') ≡ false)
unfolding sextet_char
sextet_char_open n h = (ground arith, ground arith)

encode_std-cons :
    (a : ℕ) (bytes : List ℕ) → (s : Str) × (encode_std (a ∷ bytes) ≡ sextet_char (a / 4) ∷ s)
unfolding encode_std Base64.encode sextets pad
encode_std-cons a [] = (_, refl)
encode_std-cons a (b ∷ []) = (_, refl)
encode_std-cons a (b ∷ c ∷ r) = (_, refl)

-- The encoded text starts with a character that opens no JSON value.
pub encode_std-head :
    (a : ℕ) (bytes : List ℕ)
    → a < 256
    → (c : ℕ) × (s : Str) × (encode_std (a ∷ bytes) ≡ c ∷ s)
      × ((c == b'[') ≡ false)
      × ((c == b'{') ≡ false)
encode_std-head a bytes h =
    let (p, q) = sextet_char_open (a / 4) (omega (arith, h)) in
    let (s, e) = encode_std-cons a bytes in (sextet_char (a / 4), s, e, p, q)
