-- ===== src/Base/Address.antt =====
-- Network addresses as texts: `net.SplitHostPort`, `net.JoinHostPort` and the `String` of a `net.IP`.
use mathlib.Core.Path.{◌≡◌, refl}
use native.Mathlib.Omega.{arith}
use Prim.Native.Nat.{ℕ, suc, ◌+◌, ◌-◌, ◌*◌, ◌/◌, ◌%◌}
use mathlib.Core.Bool.{Bool, true, false, not, ◌&&◌, ◌||◌}
use mathlib.Core.Option.{Option, none, some}
use mathlib.Core.List.{List, [], ◌∷◌, ◌++◌, map}
use conduitvpn.Base.Tests.{==_iff, ltb, ◌==◌, if◌then◌else◌}
use conduitvpn.Base.Lists.{length, drop, take, any}
use conduitvpn.Base.Text.{Str, codes, join}
use conduitvpn.Base.Number.{sprint}
use conduitvpn.Base.Net.{to4}

abbrev pub has_byte : ℕ → Str → Bool
has_byte c s = any (λ d. d == c) s

abbrev keep_head : ℕ → Option (Str × Str) → Option (Str × Str)
keep_head c none = none
keep_head c (some (l, r)) = some (c ∷ l, r)

-- What stands before and behind the first and the last `sep`.
unfoldable pub cut_first : ℕ → Str → Option (Str × Str)
cut_first sep [] = none
cut_first sep (c ∷ s) =
    let rest = keep_head c (cut_first sep s) in if c == sep then some ([], s) else rest

unfoldable pub cut_last : ℕ → Str → Option (Str × Str)
cut_last sep [] = none
cut_last sep (c ∷ s) =
    let rest = keep_head c (cut_last sep s) in
    if c == sep && not (has_byte sep s) then some ([], s) else rest

abbrev plain_parts : Option (Str × Str) → Option (Str × Str)
plain_parts none = none
plain_parts (some (host, port)) =
    if has_byte b':' host
      || has_byte b'[' host
      || has_byte b'[' port
      || has_byte b']' host
      || has_byte b']' port
    then none
    else some (host, port)

-- Behind the bracket: a colon and a port without a colon or a bracket.
abbrev after_bracket : Str → Str → Option (Str × Str)
after_bracket host [] = none
after_bracket host (c ∷ port) =
    if not (c == b':')
      || has_byte b':' port
      || has_byte b'[' host
      || has_byte b'[' port
      || has_byte b']' port
    then none
    else some (host, port)

abbrev bracket_parts : Option (Str × Str) → Option (Str × Str)
bracket_parts none = none
bracket_parts (some (host, rest)) = after_bracket host rest

unfoldable pub split_host_port : Str → Option (Str × Str)
unfolding cut_first cut_last
split_host_port [] = none
split_host_port (c ∷ s) =
    if c == b'[' then bracket_parts (cut_first b']' s) else plain_parts (cut_last b':' (c ∷ s))

abbrev pub join_host_port : Str → Str → Str
join_host_port host port =
    if has_byte b':' host
    then codes "[" ++ (host ++ (codes "]:" ++ port))
    else host ++ (codes ":" ++ port)

abbrev hex_of : ℕ → ℕ
hex_of d = if ltb d 10 then b'0' + d else b'a' + (d - 10)

-- A group of an IPv6 address without leading zeros.
abbrev hex_group : ℕ → Str
hex_group g =
    if ltb g 16
    then hex_of g ∷ []
    else if ltb g 256
    then hex_of (g / 16) ∷ hex_of (g % 16) ∷ []
    else if ltb g 4096
    then hex_of (g / 256) ∷ hex_of (g / 16 % 16) ∷ hex_of (g % 16) ∷ []
    else hex_of (g / 4096) ∷ hex_of (g / 256 % 16) ∷ hex_of (g / 16 % 16) ∷ hex_of (g % 16) ∷ []

groups_of : List ℕ → List ℕ
groups_of [] = []
groups_of (a ∷ []) = []
groups_of (a ∷ b ∷ bytes) = (a * 256 + b) ∷ groups_of bytes

zero_run : List ℕ → ℕ
zero_run [] = 0
zero_run (g ∷ gs) = let rest = zero_run gs in if g == 0 then suc rest else 0

-- The first of the longest runs of zero groups: where it starts, and its length.
longest_run : ℕ → List ℕ → ℕ × ℕ
longest_run i [] = (i, 0)
longest_run i (g ∷ gs) =
    let here = zero_run (g ∷ gs) in
    let (j, n) = longest_run (suc i) gs in if ltb here n || here == 0 then (j, n) else (i, here)

ipv6_text : List ℕ → Str
unfolding longest_run zero_run
ipv6_text gs =
    let (i, n) = longest_run 0 gs in
    if ltb n 2
    then join (codes ":") (map hex_group gs)
    else join (codes ":") (map hex_group (take i gs))
      ++ (codes "::" ++ join (codes ":") (map hex_group (drop (i + n) gs)))

abbrev dotted : List ℕ → Str
dotted bytes = join (codes ".") (map sprint bytes)

abbrev text_or : List ℕ → Option (List ℕ) → Str
text_or bytes (some v4) = dotted v4
text_or bytes none = ipv6_text (groups_of bytes)

-- `net.IP(bytes).String()` of 4 or 16 bytes; a mapped IPv4 address is printed dotted.
unfoldable pub ip_string : List ℕ → Str
unfolding ipv6_text groups_of
ip_string bytes = if length bytes == 4 then dotted bytes else text_or bytes (to4 bytes)

head_other :
    (sep c : ℕ) (user : Str)
    → has_byte sep (c ∷ user) ≡ false
    → ((c == sep) ≡ false) × (has_byte sep user ≡ false)
head_other sep c user h = ground (arith, h)

-- What was joined around a separator is cut there.
pub cut_first-append :
    (sep : ℕ) (user pass : Str)
    → has_byte sep user ≡ false
    → cut_first sep (user ++ (sep ∷ pass)) ≡ some (user, pass)
unfolding cut_first
cut_first-append sep [] pass h = rw ((==_iff sep sep).1 refl) refl
cut_first-append sep (c ∷ user) pass h =
    rw (cut_first-append sep user pass (head_other sep c user h).1, (head_other sep c user h).0)
      refl

has_byte-append : (sep : ℕ) (s t : Str) → has_byte sep (s ++ (sep ∷ t)) ≡ true
has_byte-append sep [] t = ground arith
has_byte-append sep (c ∷ s) t = ground (arith, has_byte-append sep s t)

pub cut_last-append :
    (sep : ℕ) (s t : Str) → has_byte sep t ≡ false → cut_last sep (s ++ (sep ∷ t)) ≡ some (s, t)
unfolding cut_last
cut_last-append sep [] t h = rw ((==_iff sep sep).1 refl, h) refl
cut_last-append sep (c ∷ s) t h =
    rw (cut_last-append sep s t h, has_byte-append sep s t) (never (c == sep) _ _)
  where
    never : {A : Type 0} (b : Bool) (x y : A) → (if b && false then x else y) ≡ y
    never true x y = refl
    never false x y = refl
