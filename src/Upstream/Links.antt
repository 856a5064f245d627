-- ===== src/Upstream/Links.antt =====
-- internal/upstream/parse.go: the links of the nodes. `url_parse` stands for `url.Parse` and
-- `vmess_json` for `json.Unmarshal` into the fields of a vmess link, by their keys in JSON.
use conduitvpn.Base.{
  ℕ, true, not, ◌&&◌, ◌||◌, Option, none, some, List, [], ◌∷◌, ◌++◌, if◌then◌else◌, Str, codes,
  is_empty, str_eq, has_prefix, trim_prefix, ℤ, atoi, split_host_port, cut_first, cut_last,
  atoi_or_zero,
}
use conduitvpn.Upstream.Encoding.{b64_decode, path_unescape}
use conduitvpn.Upstream.{
  enabled, put_some, or_default, truncate, put, build_transport, build_tls, Params, Fields,
  no_fields, field, text, number, truth, object,
}

pub data LinkError : Type 0 where
  unsupported_scheme invalid_address invalid_port : Str → LinkError
  missing_at bad_userinfo bad_url bad_json missing_add_or_id : LinkError

pub data Result (A : Type 0) : Type 0 where
  ok : A → Result A
  failed : LinkError → Result A

abbrev pub then_ok : {A B : Type 0} → Result A → (A → Result B) → Result B
then_ok (ok a) f = f a
then_ok (failed e) f = failed e

-- What the program reads of an address: Hostname, Port, the name of the user information, and the
-- first values of the query.
pub record Url : Type 0 where
  pub hostname : Str
  pub url_port : Str
  pub username : Str
  pub query : Params

abbrev pub with_port : Str → Str → Option ℤ → Str → Result (Str × ℤ × Str)
with_port host port none tag = failed (invalid_port port)
with_port host port (some n) tag = ok (host, n, tag)

abbrev pub host_and_port : Str → Str → Option (Str × Str) → Result (Str × ℤ × Str)
unfolding atoi
host_and_port addr tag none = failed (invalid_address addr)
host_and_port addr tag (some (host, port)) = with_port host port (atoi port) tag

-- What stands before and behind the last hash sign.
abbrev pub with_tag : Str → Option (Str × Str) → Str × Str
with_tag addr none = (addr, [])
with_tag addr (some (a, tag)) = (a, tag)

unfoldable pub split_addr_port_tag : Str → Result (Str × ℤ × Str)
unfolding cut_last split_host_port atoi
split_addr_port_tag addr =
    let (a, tag) = with_tag addr (cut_last b'#' addr) in host_and_port a tag (split_host_port a)

abbrev pub cut_userinfo : Option (Str × Str) → Result (Str × Str)
cut_userinfo none = failed bad_userinfo
cut_userinfo (some (m, p)) = ok (m, p)

-- The decoded user information, or the user information itself where it does not decode.
unfoldable pub credentials : Str → Option (List ℕ) → Result (Str × Str)
unfolding cut_first
credentials userinfo (some raw) = cut_userinfo (cut_first b':' raw)
credentials userinfo none = cut_userinfo (cut_first b':' userinfo)

abbrev pub or_same : Str → Option Str → Str
or_same s none = s
or_same s (some t) = t

abbrev pub shadowsocks : Str → ℤ → Str → Str → Str → Fields
shadowsocks host port tag method password = field (codes "type") (text (codes "shadowsocks")) (
    field (codes "tag") (text (or_default tag (codes "ss"))) (
      field (codes "server") (text host) (
        field (codes "server_port") (number port) (
          field (codes "method") (text method)
            (field (codes "password") (text password) no_fields)))))

unfoldable pub ss_parts : Option (Str × Str) → Result Fields
unfolding split_addr_port_tag b64_decode path_unescape credentials
ss_parts none = failed missing_at
ss_parts (some (userinfo, addr)) = then_ok (split_addr_port_tag addr) (λ (a : Str × ℤ × Str).
    then_ok (credentials userinfo (b64_decode userinfo))
      (λ (c : Str × Str). ok (shadowsocks a.0 a.1 a.2 c.0 (or_same c.1 (path_unescape c.1)))))

unfoldable pub parse_ss : Str → Result Fields
unfolding trim_prefix cut_last ss_parts
parse_ss uri = ss_parts (cut_last b'@' (trim_prefix uri (codes "ss://")))

-- The fields that every other kind of node has, with the rest of its fields.
abbrev pub node : Str → Str → Str → ℤ → Fields → Fields
node kind tag host port more = field (codes "type") (text kind) (
    field (codes "tag") (text tag)
      (field (codes "server") (text host) (field (codes "server_port") (number port) more)))

param_of : List (Str × Str) → Params
unfolding str_eq
param_of [] key = []
param_of ((k, v) ∷ ps) key = let rest = param_of ps key in if str_eq k key then v else rest

abbrev pub vmess_of : Params → Fields
unfolding atoi_or_zero build_tls build_transport put param_of
vmess_of c =
    let sni = or_default (c (codes "sni")) (c (codes "host")) in
    let params = param_of (
      (codes "type", c (codes "net"))
      ∷ (codes "path", c (codes "path"))
      ∷ (codes "host", c (codes "host"))
      ∷ []) in
    put_some (codes "transport") (build_transport params) (
      put_some (codes "tls")
        (build_tls (c (codes "tls")) sni (c (codes "fp")) (c (codes "alpn")) [] [])
        (node (codes "vmess") (or_default (c (codes "ps")) (codes "vmess")) (c (codes "add"))
          (atoi_or_zero (c (codes "port")))
          (field (codes "uuid") (text (c (codes "id"))) (
            field (codes "alter_id") (number (atoi_or_zero (c (codes "aid")))) (
              field (codes "security") (text (or_default (c (codes "scy")) (codes "auto")))
                no_fields)))))

abbrev pub checked_vmess : Option Params → Result Fields
unfolding vmess_of
checked_vmess none = failed bad_json
checked_vmess (some c) =
    if is_empty (c (codes "add")) || is_empty (c (codes "id"))
    then failed missing_add_or_id
    else ok (vmess_of c)

abbrev pub on_url : Option Url → (Url → Fields) → Result Fields
on_url none f = failed bad_url
on_url (some u) f = ok (f u)

unfoldable pub vmess_plain : Url → Fields
unfolding atoi_or_zero build_tls build_transport put param_of
vmess_plain u =
    let q = u.query in
    let params = param_of (
      (codes "type", q (codes "type"))
      ∷ (codes "path", q (codes "path"))
      ∷ (codes "host", q (codes "host"))
      ∷ []) in
    put_some (codes "transport") (build_transport params) (
      put_some (codes "tls")
        (build_tls (q (codes "security")) (or_default (q (codes "sni")) (q (codes "host")))
          (q (codes "fp")) (q (codes "alpn")) [] [])
        (node (codes "vmess")
          (or_default (q (codes "name")) (or_default (q (codes "ps")) (codes "vmess"))) u.hostname
          (atoi_or_zero u.url_port)
          (field (codes "uuid") (text u.username)
            (field (codes "security") (text (codes "auto")) no_fields))))

unfoldable pub vless_of : Url → Fields
unfolding atoi_or_zero build_tls build_transport put param_of
vless_of u =
    let q = u.query in
    let params = param_of (
      (codes "type", q (codes "type"))
      ∷ (codes "path", q (codes "path"))
      ∷ (codes "host", q (codes "host"))
      ∷ (codes "serviceName", q (codes "serviceName"))
      ∷ []) in
    let flow =
      if is_empty (q (codes "flow"))
      then no_fields
      else field (codes "flow") (text (q (codes "flow"))) no_fields in
    put_some (codes "transport") (build_transport params) (
      put_some (codes "tls")
        (build_tls (q (codes "security")) (or_default (q (codes "sni")) u.hostname) (q (codes "fp"))
          (q (codes "alpn")) (q (codes "pbk")) (q (codes "sid")))
        (node (codes "vless") (or_default (q (codes "name")) (codes "vless")) u.hostname
          (atoi_or_zero u.url_port) (field (codes "uuid") (text u.username) flow)))

abbrev pub trojan_security : Params → Str
trojan_security q =
    if is_empty (q (codes "security")) && not (is_empty (q (codes "sni")))
    then codes "tls"
    else q (codes "security")

abbrev pub unescaped : Str → Str
unfolding path_unescape
unescaped s = or_same [] (path_unescape s)

unfoldable pub trojan_of : Url → Fields
unfolding atoi_or_zero build_tls put unescaped
trojan_of u =
    let q = u.query in
    put_some (codes "tls")
      (build_tls (trojan_security q) (or_default (q (codes "sni")) u.hostname) (q (codes "fp"))
        (q (codes "alpn")) (q (codes "pbk")) (q (codes "sid")))
      (node (codes "trojan") (or_default (q (codes "name")) (codes "trojan")) u.hostname
        (atoi_or_zero u.url_port)
        (field (codes "password") (text (unescaped u.username)) no_fields))

unfoldable pub hysteria2_of : Url → Fields
unfolding atoi_or_zero str_eq unescaped
hysteria2_of u =
    let q = u.query in
    let insecure =
      if str_eq (q (codes "insecure")) (codes "1") || str_eq (q (codes "insecure")) (codes "true")
      then field (codes "insecure") (truth true) no_fields
      else no_fields in
    node (codes "hysteria2") (or_default (q (codes "name")) (codes "hy2")) u.hostname
      (atoi_or_zero u.url_port)
      (field (codes "password") (text (unescaped u.username)) (
        field (codes "tls") (object (enabled (or_default (q (codes "sni")) u.hostname) insecure))
          no_fields))

module _ (url_parse : Str → Option Url) (vmess_json : List ℕ → Option Params) where
  abbrev pub vmess_by : Str → Option (List ℕ) → Result Fields
  unfolding checked_vmess vmess_plain
  vmess_by rest (some raw) = checked_vmess (vmess_json raw)
  vmess_by rest none = on_url (url_parse (codes "vmess://" ++ rest)) vmess_plain

  unfoldable pub parse_vmess : Str → Result Fields
  unfolding trim_prefix b64_decode vmess_by
  parse_vmess uri = let rest = trim_prefix uri (codes "vmess://") in vmess_by rest (b64_decode rest)

  unfoldable pub parse_vless : Str → Result Fields
  unfolding vless_of
  parse_vless uri = on_url (url_parse uri) vless_of

  unfoldable pub parse_trojan : Str → Result Fields
  unfolding trojan_of
  parse_trojan uri = on_url (url_parse uri) trojan_of

  unfoldable pub parse_hysteria2 : Str → Result Fields
  unfolding hysteria2_of trim_prefix
  parse_hysteria2 uri =
      let rest = trim_prefix (trim_prefix uri (codes "hysteria2://")) (codes "hy2://") in
      on_url (url_parse (codes "hysteria2://" ++ rest)) hysteria2_of

  unfoldable pub parse_node_uri : Str → Result Fields
  unfolding has_prefix parse_ss parse_vmess parse_vless parse_trojan parse_hysteria2 truncate
  parse_node_uri uri =
      if has_prefix uri (codes "ss://")
      then parse_ss uri
      else if has_prefix uri (codes "vmess://")
      then parse_vmess uri
      else if has_prefix uri (codes "vless://")
      then parse_vless uri
      else if has_prefix uri (codes "trojan://")
      then parse_trojan uri
      else if has_prefix uri (codes "hysteria2://") || has_prefix uri (codes "hy2://")
      then parse_hysteria2 uri
      else failed (unsupported_scheme (truncate uri 48))
