-- ===== src/Vpngate/Examples.antt =====
-- A node list of one row, its remote, and the theorem at it.
use conduitvpn.Base.{
  ◌≡◌, refl, Option, some, List, [], ◌∷◌, All, Str, codes, has_prefix, contains, fields, one_of,
  pos, atoi_or_zero,
}
use conduitvpn.Base.{replace_crlf, trim_suffix_byte}
use conduitvpn.Vpngate.Profile.{scan_line, validate_directive}
use conduitvpn.State.Base64.Padded.{encode_std}
use conduitvpn.Vpngate.Profile.Examples.{address, small_profile, small_text}
use conduitvpn.Vpngate.Remote.{parse_remote}
use conduitvpn.Vpngate.Rows.{
  parse, parsed, need, node_of, cell, first_missing, nodes_of, node_of_row,
}
use conduitvpn.Vpngate.Rows.Vetted.{IsVetted, parse-IsVetted}

-- The columns that are needed, and a row with the address and the profile.
abbrev row : List Str
unfolding encode_std
row =
    codes "kyoto"
    ∷ address
    ∷ codes "7"
    ∷ codes "12"
    ∷ codes "9"
    ∷ codes "Japan"
    ∷ codes "JP"
    ∷ codes "3"
    ∷ codes "60"
    ∷ codes "2weeks"
    ∷ codes "op"
    ∷ codes ""
    ∷ encode_std small_profile
    ∷ []

abbrev one_row : Str → Option (List (List Str))
unfolding row
one_row text = some (need ∷ row ∷ (codes "*" ∷ []) ∷ [])

small_remote : parse_remote small_text (codes "1.2.3.4") ≡ (address, pos 1194, codes "udp")
unfolding parse_remote has_prefix atoi_or_zero
small_remote = refl

one_row_parsed : parse one_row [] ≡ parsed (node_of (cell need row) small_text ∷ [])
unfolding parse one_row row node_of_row nodes_of first_missing cell contains replace_crlf scan_line
    fields validate_directive one_of trim_suffix_byte
one_row_parsed = refl

parse-IsVetted_example : All IsVetted (node_of (cell need row) small_text ∷ [])
parse-IsVetted_example =
    parse-IsVetted one_row [] (node_of (cell need row) small_text ∷ []) one_row_parsed
