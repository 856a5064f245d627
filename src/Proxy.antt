-- ===== src/Proxy.antt =====
-- internal/proxy/proxy.go: the server of the local proxy, its limit of connections and the choice
-- of the protocol by the first byte. What is read from a client is a list of bytes, which ends where
-- the connection does; `Session` is what the server does with it.
pub mod Socks5
pub mod Http
pub mod Dial
pub mod Limit
pub mod Handle
pub mod Examples
use conduitvpn.Base.{
  ℕ, zero, suc, ◌+◌, ◌-◌, ◌*◌, ◌/◌, ◌%◌, ◌^◌, ◌≤◌, ◌<◌, ◌≡◌, refl, sym, ap, ◌∙◌, subst, ◌≢◌, ◌↔◌,
  ◌⊎◌, inl, inr, Bool, true, false, not, ◌&&◌, ◌||◌, Option, none, some, List, [], ◌∷◌, ◌++◌, map,
  arith, ltb, leb, ◌==◌, if◌then◌else◌, is_some, ==_iff, Bool-cases, Option-cases, length,
  get_elem?, set, take, drop, any, keep, All, Elem, length-append, length-drop, length-take,
  length-set, All-Elem, Elem-append_left, Elem-append_last, Str, codes, is_empty, str_eq,
  str_eq_iff, str_eq_refl, trim_space, trim, to_upper, to_lower, has_prefix, trim_prefix, contains,
  split, fields, join, one_of, one_of_sound, one_of_complete, to_upper_idem, Dict, lookup, insert,
  delete, keys, lookup-insert, lookup-delete, ℤ, pos, negsuc, ltb_ℤ, leb_ℤ, add_ℕ, sort_stable,
  IsSorted, atoi, sprint, parse_ip, to4, is_loopback, read_full, reading, on_read, byte_at,
  put_uint16, uint16, read_full-append, has_byte, split_host_port, join_host_port, ip_string,
  cut_first, cut_last, atoi_or_zero,
}

pub record Server : Type 0 where
  pub host : Str
  pub port : ℤ
  pub user : Str
  pub pass : Str
  pub auth_on : Bool
  pub dns : Str
  pub max_conns : ℤ

unfoldable pub new : Str → ℤ → Str → Str → Str → ℤ → Server
new host port user pass dns max_conns = record {
  host = host;
  port = port;
  user = user;
  pass = pass;
  auth_on = not (is_empty user) || not (is_empty pass);
  dns = dns;
  max_conns = if ltb_ℤ max_conns (pos 1) then pos 512 else max_conns;
}

-- What was written to the client, the target that was dialled, and whether bytes are relayed.
pub record Session : Type 0 where
  pub sent : List ℕ
  pub dialled : Option Str
  pub relayed : Bool

abbrev pub ended : List ℕ → Session
ended sent = record { sent = sent; dialled = none; relayed = false }
