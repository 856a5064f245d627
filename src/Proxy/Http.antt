-- ===== src/Proxy/Http.antt =====
-- internal/proxy/http.go: the HTTP side of the local proxy. The request is what `http.ReadRequest`
-- returns; `dial` tells for a target whether the connection through the tunnel succeeds, and
-- `writable` whether the request is written to it.
pub mod Auth
use conduitvpn.Base.{
  ℕ, zero, suc, ◌+◌, ◌-◌, ◌*◌, ◌/◌, ◌%◌, ◌^◌, ◌≤◌, ◌<◌, ◌≡◌, refl, sym, ap, ◌∙◌, subst, ◌≢◌, ◌↔◌,
  ◌⊎◌, inl, inr, Bool, true, false, not, ◌&&◌, ◌||◌, Option, none, some, List, [], ◌∷◌, ◌++◌, map,
  arith, ltb, leb, ◌==◌, if◌then◌else◌, is_some, ==_iff, Bool-cases, Option-cases, length,
  get_elem?, set, take, drop, any, keep, All, Elem, length-append, length-drop, length-take,
  length-set, All-Elem, Elem-append_left, Elem-append_last, Str, codes, is_empty, str_eq,
  str_eq_iff, str_eq_refl, trim_space, trim, to_upper, to_lower, has_prefix, trim_prefix, contains,
  split, fields, join, one_of, one_of_sound, one_of_complete, to_upper_idem, Dict, lookup, insert,
  delete, keys, lookup-insert, lookup-delete, ℤ, pos, negsuc, ltb_ℤ, leb_ℤ, add_ℕ, sort_stable,
  IsSorted, atoi, sprint, parse_ip, to4, is_loopback, read_full, reading, on_read, byte_at,
  put_uint16, uint16, read_full-append, has_byte, split_host_port, join_host_port, ip_string,
  cut_first, cut_last, atoi_or_zero,
}
use conduitvpn.Proxy.{Server}
use conduitvpn.State.Base64.Padded.{decode_std}

-- `url_host` is req.URL.Host; `proxy_authorization` is the header's value, empty when absent.
pub record Request : Type 0 where
  pub method : Str
  pub request_uri : Str
  pub url_host : Str
  pub host : Str
  pub close : Bool
  pub proxy_authorization : Str

-- The connection is closed after an answer, bytes are relayed after one, or a request was sent to
-- the target and the response is copied back.
pub data Handled : Type 0 where
  dropped : Handled
  answered : Str → Handled
  tunnelled : Str → Str → Handled
  forwarded : Str → Request → Handled

abbrev crlf : Str
crlf = 13 ∷ 10 ∷ []

abbrev empty_body : Str
empty_body = codes "Content-Length: 0" ++ (crlf ++ crlf)

abbrev pub auth_required : Str
auth_required =
    codes "HTTP/1.1 407 Proxy Authentication Required"
    ++ (crlf ++ (codes "Proxy-Authenticate: Basic realm=\"conduitvpn\"" ++ (crlf ++ empty_body)))

abbrev pub bad_request : Str
bad_request = codes "HTTP/1.1 400 Bad Request" ++ (crlf ++ empty_body)

abbrev pub bad_gateway : Str
bad_gateway = codes "HTTP/1.1 502 Bad Gateway" ++ (crlf ++ empty_body)

abbrev pub established : Str
established = codes "HTTP/1.1 200 Connection Established" ++ (crlf ++ crlf)

abbrev pub same_login : Server → Option (Str × Str) → Bool
unfolding str_eq
same_login s none = false
same_login s (some (user, pass)) = str_eq user s.user && str_eq pass s.pass

abbrev pub check_credentials : Server → Option (List ℕ) → Bool
unfolding cut_first str_eq
check_credentials s none = false
check_credentials s (some raw) = same_login s (cut_first b':' raw)

unfoldable pub check_http_auth : Server → Str → Bool
unfolding has_prefix trim_prefix trim_space decode_std cut_first str_eq
check_http_auth s value =
    if not (has_prefix value (codes "Basic "))
    then false
    else check_credentials s (decode_std (trim_space (trim_prefix value (codes "Basic "))))

-- The rewriting to origin form.
abbrev pub rewritten : Request → Request
rewritten r = record {
  method = r.method;
  request_uri = [];
  url_host = r.url_host;
  host = if is_empty r.host then r.url_host else r.host;
  close = true;
  proxy_authorization = r.proxy_authorization;
}

module _ (dial : Str → Bool) (writable : Bool) where
  abbrev pub serve : Request → Handled
  unfolding str_eq
  serve r =
      if is_empty r.url_host
      then answered bad_request
      else if str_eq r.method (codes "CONNECT")
      then (if not (dial r.url_host)
          then answered bad_gateway
          else tunnelled r.url_host established)
      else if not (dial r.url_host)
      then answered bad_gateway
      else if not writable
      then dropped
      else forwarded r.url_host (rewritten r)

  unfoldable pub handle_http : Server → Option Request → Handled
  unfolding check_http_auth str_eq
  handle_http s none = dropped
  handle_http s (some r) =
      if s.auth_on && not (check_http_auth s r.proxy_authorization)
      then answered auth_required
      else serve r
