-- ===== src/Vpngate/Rows.antt =====
-- Parse of internal/vpngate/parse.go: the node list. `csv` stands for the ReadAll of encoding/csv, with
-- lazy quotes and rows of any length: the rows of a text, or none.
pub mod Vetted
use conduitvpn.Base.{
  ℕ, zero, suc, ◌+◌, ◌-◌, ◌*◌, ◌/◌, ◌%◌, ◌^◌, ◌≤◌, ◌<◌, ◌≡◌, refl, sym, ap, ◌∙◌, subst, ◌≢◌, ◌↔◌,
  ◌⊎◌, inl, inr, Bool, true, false, not, ◌&&◌, ◌||◌, Option, none, some, List, [], ◌∷◌, ◌++◌, map,
  arith, ltb, leb, ◌==◌, if◌then◌else◌, is_some, ==_iff, Bool-cases, Option-cases, length,
  get_elem?, set, take, drop, any, keep, All, Elem, length-append, length-drop, length-take,
  length-set, All-Elem, Elem-append_left, Elem-append_last, Str, codes, is_empty, str_eq,
  str_eq_iff, str_eq_refl, trim_space, trim, to_upper, to_lower, has_prefix, trim_prefix, contains,
  split, fields, join, one_of, one_of_sound, one_of_complete, to_upper_idem, Dict, lookup, insert,
  delete, keys, lookup-insert, lookup-delete, ℤ, pos, negsuc, ltb_ℤ, leb_ℤ, add_ℕ, sort_stable,
  IsSorted, atoi, sprint, parse_ip, to4, is_loopback, read_full, reading, on_read, byte_at,
  put_uint16, uint16, read_full-append, has_byte, split_host_port, join_host_port, ip_string,
  cut_first, cut_last, atoi_or_zero, choice, choice_of, cut_first-append, cut_last-append,
}
use conduitvpn.Node.{Node}
use conduitvpn.State.Base64.Padded.{decode_std}
use conduitvpn.Vpngate.Profile.{Checked, ok, err, validate_profile}
use conduitvpn.Vpngate.Remote.{IsProto, parse_remote, parse_remote-IsProto}

pub data Parsed : Type 0 where
  bad_csv empty_payload : Parsed
  missing_column : Str → Parsed
  parsed : List Node → Parsed

-- The lines behind the leading comments: what stands behind the last line that starts with an
-- asterisk before a line of another kind, empty lines not counting.
abbrev pub starts_comment : Str → Bool
starts_comment [] = false
starts_comment (c ∷ s) = c == b'*'

unfoldable pub after_comments : List Str → List Str → List Str
unfolding trim_space
after_comments kept [] = kept
after_comments kept (line ∷ lines) =
    let skipped = after_comments lines lines in
    let passed = after_comments kept lines in
    if is_empty (trim_space line)
    then passed
    else if starts_comment (trim_space line)
    then skipped
    else kept

unfoldable pub csv_text : Str → Str
unfolding split after_comments join
csv_text raw = let lines = split 10 raw in join (10 ∷ []) (after_comments lines lines)

abbrev pub column_name : Str → Str
unfolding trim_prefix trim_space
column_name h = trim_prefix (trim_space h) (codes "#")

abbrev pub last_of : Bool → Option ℕ → Option ℕ
last_of here (some i) = some (suc i)
last_of here none = if here then some 0 else none

-- The column of a name: the last one of that name, as the map keeps it.
unfoldable pub column : List Str → Str → Option ℕ
unfolding column_name str_eq
column [] key = none
column (h ∷ header) key = last_of (str_eq (column_name h) key) (column header key)

abbrev pub need : List Str
need =
    codes "HostName"
    ∷ codes "IP"
    ∷ codes "Score"
    ∷ codes "Ping"
    ∷ codes "Speed"
    ∷ codes "CountryLong"
    ∷ codes "CountryShort"
    ∷ codes "NumVpnSessions"
    ∷ codes "Uptime"
    ∷ codes "LogType"
    ∷ codes "Operator"
    ∷ codes "Message"
    ∷ codes "OpenVPN_ConfigData_Base64"
    ∷ []

unfoldable pub first_missing : List Str → List Str → Option Str
unfolding column
first_missing header [] = none
first_missing header (k ∷ keys) =
    let rest = first_missing header keys in if is_some (column header k) then rest else some k

abbrev pub trimmed_or : Option Str → Str
unfolding trim_space
trimmed_or none = []
trimmed_or (some s) = trim_space s

abbrev pub at_column : List Str → Option ℕ → Str
unfolding trimmed_or
at_column row none = []
at_column row (some i) = trimmed_or (get_elem? row i)

unfoldable pub cell : List Str → List Str → Str → Str
unfolding column at_column
cell header row key = at_column row (column header key)

unfoldable pub decode_config : Str → Option Str
unfolding decode_std
decode_config b64 = if is_empty b64 then none else decode_std b64

abbrev pub node_of : (Str → Str) → Str → Node
unfolding parse_remote atoi_or_zero
node_of get cfg =
    let (host, port, proto) = parse_remote cfg (get (codes "IP")) in
    record {
      host_name = get (codes "HostName");
      ip = get (codes "IP");
      score = atoi_or_zero (get (codes "Score"));
      ping = atoi_or_zero (get (codes "Ping"));
      speed = atoi_or_zero (get (codes "Speed"));
      country_long = get (codes "CountryLong");
      country_short = get (codes "CountryShort");
      sessions = atoi_or_zero (get (codes "NumVpnSessions"));
      uptime = atoi_or_zero (get (codes "Uptime"));
      log_type = get (codes "LogType");
      operator = get (codes "Operator");
      message = get (codes "Message");
      config_text = cfg;
      remote_host = host;
      remote_port = port;
      remote_proto = proto;
      latency_ms = pos 0;
      tested = false;
    }

abbrev pub of_checked : (Str → Str) → Checked Str → Option Node
unfolding node_of
of_checked get (err e) = none
of_checked get (ok cfg) = some (node_of get cfg)

abbrev pub of_decoded : (Str → Str) → Option Str → Option Node
unfolding of_checked validate_profile
of_decoded get none = none
of_decoded get (some cfg) = of_checked get (validate_profile cfg (get (codes "IP")))

abbrev pub is_skipped : List Str → Bool
unfolding has_prefix
is_skipped [] = true
is_skipped (first ∷ row) = has_prefix first (codes "*")

-- One row: a node, or none where the loop goes on.
unfoldable pub node_of_row : List Str → List Str → Option Node
unfolding is_skipped of_decoded decode_config cell
node_of_row header row =
    if is_skipped row
    then none
    else of_decoded (cell header row)
        (decode_config (cell header row (codes "OpenVPN_ConfigData_Base64")))

abbrev pub cons_node : Option Node → List Node → List Node
cons_node none nodes = nodes
cons_node (some n) nodes = n ∷ nodes

unfoldable pub nodes_of : List Str → List (List Str) → List Node
unfolding node_of_row
nodes_of header [] = []
nodes_of header (row ∷ rows) = cons_node (node_of_row header row) (nodes_of header rows)

abbrev pub with_columns : List Str → List (List Str) → Option Str → Parsed
unfolding nodes_of
with_columns header rows (some k) = missing_column k
with_columns header rows none = parsed (nodes_of header rows)

abbrev pub of_records : Option (List (List Str)) → Parsed
unfolding with_columns first_missing
of_records none = bad_csv
of_records (some []) = empty_payload
of_records (some (header ∷ rows)) = with_columns header rows (first_missing header need)

unfoldable pub parse : (Str → Option (List (List Str))) → Str → Parsed
unfolding csv_text of_records
parse csv raw = of_records (csv (csv_text raw))
