-- ===== src/Upstream.antt =====
-- internal/upstream: what parse.go and subscription.go share. A JSON value of the program is a
-- `Json`; the fields of an object stand in the order in which they were set. A number is what
-- `int` makes of it.
pub mod Encoding
pub mod Links
pub mod Subscription
pub mod Start
pub mod Runner
pub mod Wrapped
pub mod Examples
use conduitvpn.Base.{
  ℕ, zero, suc, ◌+◌, ◌-◌, ◌*◌, ◌/◌, ◌%◌, ◌^◌, ◌≤◌, ◌<◌, ◌≡◌, refl, sym, ap, ◌∙◌, subst, ◌≢◌, ◌↔◌,
  ◌⊎◌, inl, inr, Bool, true, false, not, ◌&&◌, ◌||◌, Option, none, some, List, [], ◌∷◌, ◌++◌, map,
  arith, ltb, leb, ◌==◌, if◌then◌else◌, is_some, ==_iff, Bool-cases, Option-cases, length,
  get_elem?, set, take, drop, any, keep, All, Elem, length-append, length-drop, length-take,
  length-set, All-Elem, Elem-append_left, Elem-append_last, Str, codes, is_empty, str_eq,
  str_eq_iff, str_eq_refl, trim_space, trim, to_upper, to_lower, has_prefix, trim_prefix, contains,
  split, fields, join, one_of, one_of_sound, one_of_complete, to_upper_idem, Dict, lookup, insert,
  delete, keys, lookup-insert, lookup-delete, ℤ, pos, negsuc, ltb_ℤ, leb_ℤ, add_ℕ, sort_stable,
  IsSorted, atoi, sprint, parse_ip, to4, is_loopback, read_full, reading, on_read, byte_at,
  put_uint16, uint16, read_full-append, has_byte, split_host_port, join_host_port, ip_string,
  cut_first, cut_last, atoi_or_zero,
}

mutual
  pub data Json : Type 0 where
    null : Json
    text : Str → Json
    number : ℤ → Json
    truth : Bool → Json
    array : Items → Json
    object : Fields → Json

  pub data Items : Type 0 where
    no_items : Items
    item : Json → Items → Items

  pub data Fields : Type 0 where
    no_fields : Fields
    field : Str → Json → Fields → Fields

unfoldable pub get : Str → Fields → Option Json
unfolding str_eq
get key no_fields = none
get key (field k v fs) = let rest = get key fs in if str_eq k key then some v else rest

-- `fs[key] = v`.
unfoldable pub put : Str → Json → Fields → Fields
unfolding str_eq
put key v no_fields = field key v no_fields
put key v (field k w fs) =
    let rest = put key v fs in if str_eq k key then field k v fs else field k w rest

-- `fs[key] = v` where v is not nil.
abbrev pub put_some : Str → Option Fields → Fields → Fields
unfolding put
put_some key none fs = fs
put_some key (some v) fs = put key (object v) fs

abbrev pub text_or_empty : Option Json → Str
text_or_empty (some (text s)) = s
text_or_empty (some null) = []
text_or_empty (some (number n)) = []
text_or_empty (some (truth b)) = []
text_or_empty (some (array xs)) = []
text_or_empty (some (object fs)) = []
text_or_empty none = []

-- `t, _ := fs[key].(string)`.
unfoldable pub text_at : Str → Fields → Str
unfolding get
text_at key fs = text_or_empty (get key fs)

abbrev pub or_default : Str → Str → Str
or_default v other = if is_empty v then other else v

unfoldable pub truncate : Str → ℕ → Str
truncate s n = if leb (length s) n then s else take n s ++ (226 ∷ 128 ∷ 166 ∷ [])

unfoldable pub split_comma : Str → List Str
unfolding split trim_space
split_comma s = keep (λ p. not (is_empty p)) (map trim_space (split b',' s))

texts : List Str → Items
texts [] = no_items
texts (s ∷ ss) = item (text s) (texts ss)

abbrev pub comma_texts : Str → Json
unfolding texts split_comma
comma_texts s = array (texts (split_comma s))

abbrev pub enabled : Str → Fields → Fields
enabled sni more =
    field (codes "enabled") (truth true) (field (codes "server_name") (text sni) more)

abbrev pub utls : Str → Fields → Fields
utls fp more =
    if is_empty fp
    then more
    else field (codes "utls")
        (object
          (field (codes "enabled") (truth true) (field (codes "fingerprint") (text fp) no_fields)))
        more

abbrev pub alpn_field : Str → Fields
unfolding texts split_comma
alpn_field alpn =
    if is_empty alpn then no_fields else field (codes "alpn") (comma_texts alpn) no_fields

abbrev pub reality_field : Str → Str → Fields
reality_field pbk sid =
    if is_empty pbk
    then no_fields
    else field (codes "reality")
        (object (
          field (codes "enabled") (truth true) (
            field (codes "public_key") (text pbk) (field (codes "short_id") (text sid) no_fields))))
        no_fields

unfoldable pub build_tls : Str → Str → Str → Str → Str → Str → Option Fields
unfolding str_eq alpn_field
build_tls sec sni fp alpn pbk sid =
    if str_eq sec (codes "tls") || str_eq sec (codes "xtls")
    then some (enabled sni (utls fp (alpn_field alpn)))
    else if str_eq sec (codes "reality")
    then some (enabled sni (reality_field pbk sid))
    else if str_eq sec (codes "none") || is_empty sec
    then none
    else some (enabled sni no_fields)

-- A map of texts, read with the empty text for a missing key.
abbrev pub Params : Type 0
Params = Str → Str

abbrev pub host_header : Str → Fields
host_header host =
    if is_empty host
    then no_fields
    else field (codes "headers") (object (field (codes "Host") (text host) no_fields)) no_fields

abbrev pub host_list : Str → Fields
unfolding texts split_comma
host_list host =
    if is_empty host then no_fields else field (codes "host") (comma_texts host) no_fields

abbrev typed : Str → Fields → Option Fields
typed kind more = some (field (codes "type") (text kind) more)

unfoldable pub build_transport : Params → Option Fields
unfolding str_eq host_list
build_transport p =
    let kind = p (codes "type") in
    let path = text (or_default (p (codes "path")) (codes "/")) in
    if str_eq kind (codes "ws") || str_eq kind (codes "websocket")
    then typed (codes "ws") (field (codes "path") path (host_header (p (codes "host"))))
    else if str_eq kind (codes "grpc")
    then typed (codes "grpc") (
        field (codes "service_name")
          (text (or_default (p (codes "serviceName")) (p (codes "path")))) no_fields)
    else if str_eq kind (codes "h2") || str_eq kind (codes "http")
    then typed (codes "http") (field (codes "path") path (host_list (p (codes "host"))))
    else none
