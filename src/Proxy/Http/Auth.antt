-- ===== src/Proxy/Http/Auth.antt =====
-- internal/proxy/http.go against internal/vpngate/upstream.go: the credentials that the client of
-- the node list sends to an HTTP proxy, as the local proxy reads them.
use conduitvpn.Proxy.Http.{
  established, tunnelled, bad_gateway, auth_required, answered, Request, handle_http,
  check_http_auth,
}
use conduitvpn.Base.{
  cut_first-append, ◌≡◌, refl, ap, ◌∙◌, Bool, true, false, not, ◌&&◌, none, some, ◌++◌,
  if◌then◌else◌, Str, codes, is_empty, str_eq, str_eq_iff, has_prefix, trim_prefix, has_byte,
}
use conduitvpn.Config.{UpstreamProxy}
use conduitvpn.Proxy.{Server}
use conduitvpn.State.Base64.{AreBytes}
use conduitvpn.State.Base64.Padded.{decode_std-encode_std, trim_space-encode_std}
use conduitvpn.Vpngate.Client.{through_http, through_socks5, direct, new_client, proxy_auth}

check_http_auth-proxy_auth :
    (s : Server) (user pass : Str)
    → has_byte b':' user ≡ false
    → AreBytes (user ++ (codes ":" ++ pass))
    → check_http_auth s (proxy_auth user pass) ≡ (str_eq user s.user && str_eq pass s.pass)
unfolding check_http_auth has_prefix trim_prefix proxy_auth
check_http_auth-proxy_auth s user pass h b =
    rw
      (
        trim_space-encode_std (user ++ (codes ":" ++ pass)) b,
        decode_std-encode_std (user ++ (codes ":" ++ pass)) b,
        cut_first-append b':' user pass h,
      )
      refl

-- The CONNECT request for a target with a header of credentials.
abbrev pub connect_request : Str → Str → Request
connect_request target header = record {
  method = codes "CONNECT";
  request_uri = target;
  url_host = target;
  host = target;
  close = false;
  proxy_authorization = header;
}

handle_http-value :
    (dial : Str → Bool) (writable ok : Bool) (s : Server) (target header : Str)
    → s.auth_on ≡ true
    → is_empty target ≡ false
    → check_http_auth s header ≡ ok
    → handle_http dial writable s (some (connect_request target header)) ≡ (
        if not ok
        then answered auth_required
        else if not (dial target)
        then answered bad_gateway
        else tunnelled target established)
unfolding handle_http str_eq
handle_http-value dial writable ok s target header on some_target e = rw (on, e, some_target) refl

sent :
    (u : UpstreamProxy)
    → u.kind ≡ codes "http"
    → is_empty u.user ≡ false
    → new_client (some u) ≡ through_http u.addr (some (proxy_auth u.user u.pass))
unfolding new_client
sent u kind some_user =
    ap
      (λ b.
        if b
        then through_http u.addr (if is_empty u.user then none else some (proxy_auth u.user u.pass))
        else if str_eq u.kind (codes "socks5")
        then through_socks5 u.addr u.user u.pass
        else direct)
      ((str_eq_iff u.kind (codes "http")).1 kind)
    ∙ ap (λ b. through_http u.addr (if b then none else some (proxy_auth u.user u.pass))) some_user

-- A proxy of the kind "http" with a name without a colon, and a local proxy with logins: a CONNECT
-- with the header that the client of the node list sends is answered with status 407 when the name or
-- the password is not the server's; else with 502 when the target cannot be dialled, and with 200 and
-- a tunnel when it can.
pub handle_http-new_client :
    (dial : Str → Bool) (writable : Bool) (s : Server) (u : UpstreamProxy) (target : Str)
    → u.kind ≡ codes "http"
    → is_empty u.user ≡ false
    → has_byte b':' u.user ≡ false
    → AreBytes (u.user ++ (codes ":" ++ u.pass))
    → s.auth_on ≡ true
    → is_empty target ≡ false
    → (header : Str) × (new_client (some u) ≡ through_http u.addr (some header))
      × (handle_http dial writable s (some (connect_request target header)) ≡ (
          if not (str_eq u.user s.user && str_eq u.pass s.pass)
          then answered auth_required
          else if not (dial target)
          then answered bad_gateway
          else tunnelled target established))
handle_http-new_client dial writable s u target kind some_user plain bytes on some_target = (
  proxy_auth u.user u.pass,
  sent u kind some_user,
  handle_http-value dial writable (str_eq u.user s.user && str_eq u.pass s.pass) s target
      (proxy_auth u.user u.pass) on some_target
      (check_http_auth-proxy_auth s u.user u.pass plain bytes),
)
