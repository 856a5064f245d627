-- ===== src/Config/Upstream.antt =====
-- internal/config/config.go: the upstream proxy of the environment. `url_parse` stands for
-- `url.Parse`: the parts of an address that the program reads, or none.
pub mod Kinds
use conduitvpn.Config.{Env, UpstreamProxy}
use conduitvpn.Base.{
  ℕ, zero, suc, ◌+◌, ◌-◌, ◌*◌, ◌/◌, ◌%◌, ◌^◌, ◌≤◌, ◌<◌, ◌≡◌, refl, sym, ap, ◌∙◌, subst, ◌≢◌, ◌↔◌,
  ◌⊎◌, inl, inr, Bool, true, false, not, ◌&&◌, ◌||◌, Option, none, some, List, [], ◌∷◌, ◌++◌, map,
  arith, ltb, leb, ◌==◌, if◌then◌else◌, is_some, ==_iff, Bool-cases, Option-cases, length,
  get_elem?, set, take, drop, any, keep, All, Elem, length-append, length-drop, length-take,
  length-set, All-Elem, Elem-append_left, Elem-append_last, Str, codes, is_empty, str_eq,
  str_eq_iff, str_eq_refl, trim_space, trim, to_upper, to_lower, has_prefix, trim_prefix, contains,
  split, fields, join, one_of, one_of_sound, one_of_complete, to_upper_idem, Dict, lookup, insert,
  delete, keys, lookup-insert, lookup-delete, ℤ, pos, negsuc, ltb_ℤ, leb_ℤ, add_ℕ, sort_stable,
  IsSorted, atoi, sprint, parse_ip, to4, is_loopback, read_full, reading, on_read, byte_at,
  put_uint16, uint16, read_full-append, has_byte, split_host_port, join_host_port, ip_string,
  cut_first, cut_last, atoi_or_zero,
}
use conduitvpn.Config

-- Scheme, Hostname and Port, and the name and the password, empty without user information.
pub record Url : Type 0 where
  pub scheme : Str
  pub hostname : Str
  pub url_port : Str
  pub username : Str
  pub password : Str

abbrev pub type_of_scheme : Str → Str
unfolding one_of
type_of_scheme scheme =
    if one_of (codes "socks" ∷ codes "socks5" ∷ codes "socks5h" ∷ []) scheme
    then codes "socks5"
    else codes "http"

abbrev or_else : Str → Str → Str
or_else typ other = if is_empty typ then other else typ

-- What follows the parsing: a host is needed, and the port is 10808 without one.
abbrev pub checked : Str → Str → Str → Str → Str → Option UpstreamProxy
checked typ host port user pass =
    if is_empty host
    then none
    else some (record {
      kind = typ;
      addr = join_host_port host (if is_empty port then codes "10808" else port);
      user = user;
      pass = pass;
    })

abbrev pub of_url : Str → Option Url → Option UpstreamProxy
unfolding one_of
of_url forced none = none
of_url forced (some u) =
    if is_empty u.hostname
    then none
    else checked (or_else forced (type_of_scheme u.scheme)) u.hostname u.url_port u.username
        u.password

abbrev pub of_host_port : Str → Str → Option (Str × Str) → Option UpstreamProxy
of_host_port forced val (some (h, p)) = checked (or_else forced (codes "http")) h p [] []
of_host_port forced val none =
    if not (contains val (codes ":"))
    then checked (or_else forced (codes "http")) val [] [] []
    else none

abbrev first_env : Env → List Str → Str
first_env getenv [] = []
first_env getenv (n ∷ names) =
    let rest = first_env getenv names in if not (is_empty (getenv n)) then getenv n else rest

module _ (url_parse : Str → Option Url) where
  unfoldable pub parse_proxy_value : Str → Str → Option UpstreamProxy
  unfolding contains one_of split_host_port
  parse_proxy_value val forced =
      if contains val (codes "://")
      then of_url forced (url_parse val)
      else of_host_port forced val (split_host_port val)

  abbrev pub with_login : Env → UpstreamProxy → UpstreamProxy
  with_login getenv p =
      if is_empty p.user
      then record {
        kind = p.kind;
        addr = p.addr;
        user =
            first_env getenv
              (codes "OPENVPN_UPSTREAM_USER" ∷ codes "OPENVPN_UPSTREAM_USERNAME" ∷ []);
        pass =
            first_env getenv
              (codes "OPENVPN_UPSTREAM_PASS" ∷ codes "OPENVPN_UPSTREAM_PASSWORD" ∷ []);
      }
      else p

  abbrev or_next : Env → Option UpstreamProxy → Option UpstreamProxy → Option UpstreamProxy
  or_next getenv (some p) rest = some (with_login getenv p)
  or_next getenv none rest = rest

  -- The loop over the candidates, each with the type it forces.
  unfoldable pub first_proxy : Env → List (Str × Str) → Option UpstreamProxy
  unfolding parse_proxy_value trim_space
  first_proxy getenv [] = none
  first_proxy getenv ((env, forced) ∷ cands) =
      let rest = first_proxy getenv cands in
      let val = trim_space (getenv env) in
      if is_empty val then rest else or_next getenv (parse_proxy_value val forced) rest

  abbrev pub candidates : List (Str × Str)
  candidates =
      (codes "OPENVPN_UPSTREAM_SOCKS", codes "socks5")
      ∷ (codes "OPENVPN_UPSTREAM_HTTP", codes "http")
      ∷ (codes "http_proxy", [])
      ∷ (codes "HTTP_PROXY", [])
      ∷ (codes "https_proxy", [])
      ∷ (codes "HTTPS_PROXY", [])
      ∷ []

  unfoldable pub parse_upstream_proxy : Env → Option UpstreamProxy
  unfolding first_proxy
  parse_upstream_proxy getenv = first_proxy getenv candidates
