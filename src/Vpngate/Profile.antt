-- ===== src/Vpngate/Profile.antt =====
-- ValidateOpenVPNProfile of internal/vpngate/parse.go and what it calls. The flag `remoteSeen`,
-- which Go passes by pointer, is passed and returned.
pub mod Grammar
pub mod Decides
pub mod Lines
pub mod Examples
use conduitvpn.Base.{
  ℕ, Bool, true, false, not, ◌&&◌, ◌||◌, Option, none, some, List, [], ◌∷◌, ◌++◌, ltb, leb, ◌==◌,
  if◌then◌else◌, length, any, Str, codes, is_empty, str_eq, trim_space, has_prefix, trim_prefix,
  split, fields, join, trim_suffix_byte, replace_crlf, one_of, atoi, ℤ, pos, leb_ℤ, parse_ip, to4,
}

pub data ProfileError : Type 0 where
  bad_size bad_ip unterminated no_remote : ProfileError
  bad_block unsupported_block : Str → ProfileError
  takes_no_arguments : Str → ProfileError
  bad_arguments : Str → ProfileError
  remote_mismatch bad_port bad_remote_proto : ProfileError
  unsupported_directive : Str → ProfileError

pub data Checked (A : Type 0) : Type 0 where
  ok : A → Checked A
  err : ProfileError → Checked A

-- The first four bytes of an address that is public, IPv4 and not carrier-grade NAT.
abbrev pub is_public_bytes : List ℕ → Bool
is_public_bytes (a ∷ b ∷ c ∷ d ∷ []) = not (
    a == 127
    || a == 10
    || (a == 172 && leb 16 b && leb b 31)
    || (a == 192 && b == 168)
    || (a == 169 && b == 254)
    || (leb 224 a && leb a 239)
    || (a == 0 && b == 0 && c == 0 && d == 0)
    || (a == 255 && b == 255 && c == 255 && d == 255)
    || (a == 100 && leb 64 b && leb b 127))
is_public_bytes _ = false

abbrev is_public_parsed : Option (List ℕ) → Bool
is_public_parsed none = false
is_public_parsed (some bytes) = is_public_bytes bytes

abbrev to4_of : Option (List ℕ) → Option (List ℕ)
to4_of none = none
to4_of (some bytes) = to4 bytes

unfoldable pub is_public_ipv4 : Str → Bool
unfolding parse_ip to4
is_public_ipv4 s = is_public_parsed (to4_of (parse_ip s))

abbrev bounded : ℕ → ℕ → Option ℤ → Bool
bounded lo hi none = false
bounded lo hi (some n) = leb_ℤ (pos lo) n && leb_ℤ n (pos hi)

unfoldable pub is_bounded_int : Str → ℕ → ℕ → Bool
unfolding atoi
is_bounded_int s lo hi = bounded lo hi (atoi s)

unfoldable pub is_positive_int : Str → Bool
unfolding is_bounded_int
is_positive_int s = is_bounded_int s 1 2147483647

abbrev is_token_byte : ℕ → Bool
is_token_byte c =
    (leb b'A' c && leb c b'Z')
    || (leb b'a' c && leb c b'z')
    || (leb b'0' c && leb c b'9')
    || any (λ d. d == c) (codes "_.:+,=/@-")

-- `safeTokenRe`: one or more of the bytes above.
all_token_bytes : Str → Bool
all_token_bytes [] = true
all_token_bytes (c ∷ s) = is_token_byte c && all_token_bytes s

unfoldable pub is_safe_token : Str → Bool
unfolding all_token_bytes
is_safe_token s = not (is_empty s) && all_token_bytes s

abbrev pub no_arg_names : List Str
no_arg_names =
    codes "client"
    ∷ codes "nobind"
    ∷ codes "persist-key"
    ∷ codes "persist-tun"
    ∷ codes "auth-nocache"
    ∷ codes "pull"
    ∷ codes "fast-io"
    ∷ []

abbrev pub proto_names : List Str
proto_names = codes "udp" ∷ codes "udp4" ∷ codes "tcp" ∷ codes "tcp4" ∷ codes "tcp-client" ∷ []

abbrev pub token_names : List Str
token_names =
    codes "cipher"
    ∷ codes "data-ciphers"
    ∷ codes "data-ciphers-fallback"
    ∷ codes "auth"
    ∷ codes "tls-cipher"
    ∷ codes "tls-ciphersuites"
    ∷ []

abbrev pub count_names : List Str
count_names =
    codes "reneg-sec"
    ∷ codes "connect-timeout"
    ∷ codes "connect-retry"
    ∷ codes "sndbuf"
    ∷ codes "rcvbuf"
    ∷ codes "explicit-exit-notify"
    ∷ []

abbrev pub lzo_names : List Str
lzo_names = codes "yes" ∷ codes "no" ∷ codes "adaptive" ∷ []

abbrev pub compress_names : List Str
compress_names = codes "lz4" ∷ codes "lz4-v2" ∷ codes "stub" ∷ codes "stub-v2" ∷ codes "no" ∷ []

abbrev pub block_names : List Str
block_names = codes "ca" ∷ codes "cert" ∷ codes "key" ∷ codes "tls-auth" ∷ codes "tls-crypt" ∷ []

-- Exactly one argument, which passes the test.
abbrev pub single : (Str → Bool) → List Str → Bool
single p (a ∷ []) = p a
single p _ = false

-- No argument, or one that passes the test.
abbrev pub at_most_single : (Str → Bool) → List Str → Bool
at_most_single p [] = true
at_most_single p args = single p args

abbrev pub when : Bool → Bool → ProfileError → Checked Bool
when test seen e = if test then ok seen else err e

-- The `case "remote"`: address, port and, if there, a protocol.
remote_case : List Str → Str → Checked Bool
unfolding is_public_ipv4 is_bounded_int
remote_case (host ∷ port ∷ []) ip =
    if not (str_eq host ip && is_public_ipv4 host)
    then err remote_mismatch
    else when (is_bounded_int port 1 65535) true bad_port
remote_case (host ∷ port ∷ proto ∷ []) ip =
    if not (str_eq host ip && is_public_ipv4 host)
    then err remote_mismatch
    else if not (is_bounded_int port 1 65535)
    then err bad_port
    else when (one_of proto_names proto) true bad_remote_proto
remote_case _ ip = err remote_mismatch

-- The cases of the `switch` on the directive's name, the map of names without arguments first.
pub data Case : Type 0 where
  flag_case tun_case proto_case remote_case_of retry_case cert_case token_case lzo_case : Case
  compress_case direction_case version_case verb_case count_case : Case

abbrev pub tun_names : List Str
tun_names = codes "dev" ∷ codes "dev-type" ∷ []

abbrev pub key_directions : List Str
key_directions = codes "0" ∷ codes "1" ∷ []

abbrev pub tls_versions : List Str
tls_versions = codes "1.2" ∷ codes "1.3" ∷ []

pub case_of : Str → Option Case
case_of name =
    if one_of no_arg_names name
    then some flag_case
    else if one_of tun_names name
    then some tun_case
    else if str_eq (codes "proto") name
    then some proto_case
    else if str_eq (codes "remote") name
    then some remote_case_of
    else if str_eq (codes "resolv-retry") name
    then some retry_case
    else if str_eq (codes "remote-cert-tls") name
    then some cert_case
    else if one_of token_names name
    then some token_case
    else if str_eq (codes "comp-lzo") name
    then some lzo_case
    else if str_eq (codes "compress") name
    then some compress_case
    else if str_eq (codes "key-direction") name
    then some direction_case
    else if str_eq (codes "tls-version-min") name
    then some version_case
    else if str_eq (codes "verb") name
    then some verb_case
    else if one_of count_names name
    then some count_case
    else none

-- The test of each case on the arguments.
check_case : Case → Str → List Str → Str → Bool → Checked Bool
unfolding remote_case
check_case flag_case name [] ip seen = ok seen
check_case flag_case name (a ∷ args) ip seen = err (takes_no_arguments name)
check_case tun_case name args ip seen =
    when (single (str_eq (codes "tun")) args) seen (bad_arguments name)
check_case proto_case name args ip seen =
    when (single (one_of proto_names) args) seen (bad_arguments name)
check_case remote_case_of name args ip seen = remote_case args ip
check_case retry_case name args ip seen =
    when (single (λ a. str_eq (codes "infinite") a || is_positive_int a) args) seen
      (bad_arguments name)
check_case cert_case name args ip seen =
    when (single (str_eq (codes "server")) args) seen (bad_arguments name)
check_case token_case name args ip seen = when (single is_safe_token args) seen (bad_arguments name)
check_case lzo_case name args ip seen =
    when (at_most_single (one_of lzo_names) args) seen (bad_arguments name)
check_case compress_case name args ip seen =
    when (single (one_of compress_names) args) seen (bad_arguments name)
check_case direction_case name args ip seen =
    when (single (one_of key_directions) args) seen (bad_arguments name)
check_case version_case name args ip seen =
    when (single (one_of tls_versions) args) seen (bad_arguments name)
check_case verb_case name args ip seen =
    when (single (λ a. is_bounded_int a 0 6) args) seen (bad_arguments name)
check_case count_case name args ip seen =
    when (single is_positive_int args) seen (bad_arguments name)

abbrev run_case : Option Case → Str → List Str → Str → Bool → Checked Bool
run_case none name args ip seen = err (unsupported_directive name)
run_case (some c) name args ip seen = check_case c name args ip seen

unfoldable pub validate_directive : Str → List Str → Str → Bool → Checked Bool
unfolding case_of check_case
validate_directive name args ip seen = run_case (case_of name) name args ip seen

-- The variables of the loop over the lines: the lines put out, the open block (empty for none) and
-- whether a `remote` was seen.
pub record Scan : Type 0 where
  pub out : List Str
  pub block : Str
  pub remote_seen : Bool

abbrev pub emit : Scan → Str → Scan
emit s line = record s { out = s.out ++ line ∷ [] }

abbrev pub with_seen : Scan → Str → Checked Bool → Checked Scan
with_seen s line (ok seen) = ok (record (emit s line) { remote_seen = seen })
with_seen s line (err e) = err e

directive_line : Str → List Str → Scan → Checked Scan
directive_line ip [] s = ok s
directive_line ip (name ∷ args) s =
    with_seen s (join (codes " ") (name ∷ args)) (validate_directive name args ip s.remote_seen)

abbrev pub block_name : Str → Str
block_name line = trim_suffix_byte b'>' (trim_prefix line (codes "<"))

block_line : Str → Scan → Checked Scan
block_line line s =
    if one_of block_names (block_name line)
    then (if str_eq line (codes "<" ++ (block_name line ++ codes ">"))
        then ok (record (emit s line) { block = block_name line })
        else err (bad_block line))
    else err (unsupported_block line)

-- A line inside the block `s.block`; `line` is `raw` trimmed.
inside_block : Str → Str → Scan → Checked Scan
inside_block raw line s =
    if str_eq line (codes "</" ++ (s.block ++ codes ">"))
    then ok (record (emit s line) { block = [] })
    else if is_empty line
    then ok s
    else ok (emit s raw)

outside_block : Str → Str → Scan → Checked Scan
unfolding directive_line block_line
outside_block ip line s =
    if is_empty line || has_prefix line (codes "#") || has_prefix line (codes ";")
    then ok s
    else if has_prefix line (codes "<")
    then block_line line s
    else directive_line ip (fields line) s

-- One round of the loop.
unfoldable pub scan_line : Str → Str → Scan → Checked Scan
unfolding inside_block outside_block
scan_line ip raw s =
    let line = trim_space raw in
    if not (is_empty s.block) then inside_block raw line s else outside_block ip line s

unfoldable pub scan_lines : Str → List Str → Scan → Checked Scan
scan_lines ip [] s = ok s
scan_lines ip (raw ∷ rest) s = elim (scan_line ip raw s) [
  | ok s' ↦ scan_lines ip rest s'
  | err e ↦ err e
]

-- What follows the loop.
abbrev pub finish : Checked Scan → Checked (List Str)
finish (err e) = err e
finish (ok s) =
    if not (is_empty s.block)
    then err unterminated
    else if s.remote_seen
    then ok s.out
    else err no_remote

abbrev pub start : Scan
start = record { out = []; block = []; remote_seen = false }

-- The checks on the lines, and their printing.
unfoldable pub check_lines : Str → List Str → Checked (List Str)
unfolding scan_lines
check_lines ip lines = finish (scan_lines ip lines start)

abbrev print_lines : Checked (List Str) → Checked Str
print_lines (ok out) = ok (join (10 ∷ []) out ++ 10 ∷ [])
print_lines (err e) = err e

unfoldable pub validate_profile : Str → Str → Checked Str
unfolding check_lines is_public_ipv4
validate_profile profile ip =
    if length profile == 0 || ltb 1048576 (length profile)
    then err bad_size
    else if not (is_public_ipv4 ip)
    then err bad_ip
    else print_lines (check_lines ip (split 10 (replace_crlf profile)))
