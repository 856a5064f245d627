-- ===== src/Vpngate/Rows/Vetted.antt =====
-- What the nodes of a fetched list have passed.
use conduitvpn.Base.{
  ◌≡◌, refl, subst, false, Option, none, some, List, [], ◌∷◌, All, Str, codes, choice,
}
use conduitvpn.Node.{Node}
use conduitvpn.Vpngate.Profile.{Checked, ok, err, validate_profile}
use conduitvpn.Vpngate.Remote.{IsProto, parse_remote-IsProto}
use conduitvpn.Vpngate.Rows.{
  decode_config, cell, need, is_skipped, csv_text, node_of_row, node_of, first_missing, of_decoded,
  of_checked, of_records, parse, cons_node, with_columns, nodes_of, Parsed, bad_csv, empty_payload,
  missing_column, parsed,
}

-- A node whose profile passed the check for its own address, with a protocol that openvpn knows, and
-- not measured yet.
abbrev pub IsVetted : Node → Type 0
IsVetted n =
    ((profile : Str) × (validate_profile profile n.ip ≡ ok n.config_text))
    × IsProto n.remote_proto
    × (n.tested ≡ false)

abbrev IsVettedIf : Option Node → Type 0
IsVettedIf none = Unit
IsVettedIf (some n) = IsVetted n

of_checked-IsVettedIf :
    (get : Str → Str) (profile : Str) (c : Checked Str)
    → validate_profile profile (get (codes "IP")) ≡ c
    → IsVettedIf (of_checked get c)
unfolding of_checked node_of
of_checked-IsVettedIf get profile (err e) h = tt
of_checked-IsVettedIf get profile (ok cfg) h =
    ((profile, h), parse_remote-IsProto cfg (get (codes "IP")), refl)

of_decoded-IsVettedIf : (get : Str → Str) (o : Option Str) → IsVettedIf (of_decoded get o)
unfolding of_decoded
of_decoded-IsVettedIf get none = tt
of_decoded-IsVettedIf get (some cfg) =
    of_checked-IsVettedIf get cfg (validate_profile cfg (get (codes "IP"))) refl

cons_node-IsVetted :
    (o : Option Node) (nodes : List Node)
    → IsVettedIf o
    → All IsVetted nodes
    → All IsVetted (cons_node o nodes)
cons_node-IsVetted none nodes g h = h
cons_node-IsVetted (some n) nodes g h = (g, h)

nodes_of-IsVetted :
    (header : List Str) (rows : List (List Str)) → All IsVetted (nodes_of header rows)
unfolding nodes_of node_of_row
nodes_of-IsVetted header [] = tt
nodes_of-IsVetted header (row ∷ rows) =
    cons_node-IsVetted (node_of_row header row) (nodes_of header rows)
      (choice IsVettedIf (is_skipped row) tt (
        of_decoded-IsVettedIf (cell header row)
          (decode_config (cell header row (codes "OpenVPN_ConfigData_Base64")))))
      (nodes_of-IsVetted header rows)

abbrev AreVetted : Parsed → Type 0
AreVetted bad_csv = Unit
AreVetted empty_payload = Unit
AreVetted (missing_column k) = Unit
AreVetted (parsed nodes) = All IsVetted nodes

with_columns-AreVetted :
    (header : List Str) (rows : List (List Str)) (o : Option Str)
    → AreVetted (with_columns header rows o)
unfolding with_columns
with_columns-AreVetted header rows (some k) = tt
with_columns-AreVetted header rows none = nodes_of-IsVetted header rows

of_records-AreVetted : (o : Option (List (List Str))) → AreVetted (of_records o)
unfolding of_records
of_records-AreVetted none = tt
of_records-AreVetted (some []) = tt
of_records-AreVetted (some (header ∷ rows)) =
    with_columns-AreVetted header rows (first_missing header need)

-- Whatever text is fetched and whatever the reader of CSV makes of it: each node of the list has, as
-- its profile, what the check of a profile let pass for the address of this node, has "udp" or "tcp" as
-- its protocol, and is not yet measured.
pub parse-IsVetted :
    (csv : Str → Option (List (List Str))) (raw : Str) (nodes : List Node)
    → parse csv raw ≡ parsed nodes
    → All IsVetted nodes
unfolding parse
parse-IsVetted csv raw nodes e = subst AreVetted e (of_records-AreVetted (csv (csv_text raw)))
