-- ===== src/Vpngate/Profile/Examples.antt =====
-- A small profile, and the theorems about it.
use conduitvpn.Base.{
  contains, ◌≡◌, refl, ◌↔◌, Bool, false, [], ◌∷◌, ◌++◌, Str, codes, join, str_eq, trim_space,
  has_prefix, split, fields, replace_crlf, one_of, trim_prefix, trim_suffix_byte,
}
use conduitvpn.Vpngate.Profile.{
  ok, err, unsupported_directive, is_public_ipv4, validate_directive, validate_profile, scan_line,
}
use conduitvpn.Vpngate.Profile.Grammar.{IsAllowed}
use conduitvpn.Vpngate.Profile.Decides.{validate_directive_iff}

abbrev pub address : Str
address = codes "8.8.4.4"

abbrev pub small_profile : Str
small_profile =
    codes "# a comment"
    ++ (13 ∷ 10 ∷ codes "client"
        ++ (10 ∷ codes "remote  8.8.4.4 1194 udp"
            ++ (10 ∷ codes "<ca>" ++ (10 ∷ codes "AAAA" ++ (10 ∷ codes "</ca>")))))

abbrev pub small_text : Str
small_text =
    codes "client"
    ++ (10 ∷ codes "remote 8.8.4.4 1194 udp"
        ++ (10 ∷ codes "<ca>" ++ (10 ∷ codes "AAAA" ++ (10 ∷ codes "</ca>" ++ 10 ∷ []))))

pub small_profile_accepted : validate_profile small_profile address ≡ ok small_text
unfolding validate_profile validate_directive scan_line str_eq trim_space has_prefix one_of fields
    trim_prefix trim_suffix_byte join split replace_crlf contains
small_profile_accepted = refl

script_refused :
    validate_profile (codes "client" ++ (10 ∷ codes "up /bin/sh")) address
    ≡ err (unsupported_directive (codes "up"))
unfolding validate_profile validate_directive scan_line str_eq trim_space has_prefix one_of fields
    trim_prefix trim_suffix_byte join split replace_crlf contains
script_refused = refl

private_refused : is_public_ipv4 (codes "::ffff:10.0.0.1") ≡ false
unfolding is_public_ipv4 contains
private_refused = refl

validate_directive_example :
    ((s : Bool) × (validate_directive (codes "dev") (codes "tun" ∷ []) address false ≡ ok s))
    ↔ IsAllowed address (codes "dev") (codes "tun" ∷ [])
validate_directive_example = validate_directive_iff address (codes "dev") (codes "tun" ∷ []) false
