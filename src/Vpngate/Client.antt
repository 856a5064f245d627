-- ===== src/Vpngate/Client.antt =====
-- internal/vpngate/upstream.go: how the client of the node list is set up for an upstream proxy, and
-- what it returns of an answer.
use conduitvpn.Base.{
  ℕ, not, Option, none, some, List, ◌++◌, ◌==◌, if◌then◌else◌, take, Str, codes, is_empty, str_eq,
}
use conduitvpn.Config.{UpstreamProxy}
use conduitvpn.State.Base64.Padded.{encode_std}

-- Direct, through an HTTP proxy at an address with the header of its CONNECT, or through SOCKS5 with
-- the proxy's address, name and password. An unknown kind is direct.
pub data Route : Type 0 where
  direct : Route
  through_http : Str → Option Str → Route
  through_socks5 : Str → Str → Str → Route

unfoldable pub proxy_auth : Str → Str → Str
unfolding encode_std
proxy_auth user pass = codes "Basic " ++ encode_std (user ++ (codes ":" ++ pass))

abbrev pub route_of : UpstreamProxy → Route
unfolding proxy_auth str_eq
route_of u =
    if str_eq u.kind (codes "http")
    then through_http u.addr (if is_empty u.user then none else some (proxy_auth u.user u.pass))
    else if str_eq u.kind (codes "socks5")
    then through_socks5 u.addr u.user u.pass
    else direct

unfoldable pub new_client : Option UpstreamProxy → Route
unfolding str_eq proxy_auth
new_client none = direct
new_client (some u) = route_of u

-- Fetch: the body, at most 8 MiB of it, of an answer with status 200; or the status that came.
pub data Fetched : Type 0 where
  failed : Fetched
  unexpected_status : ℕ → Fetched
  fetched : List ℕ → Fetched

-- `answer` is the status and the body, or none when the request could not be sent or failed.
unfoldable pub fetch : Option (ℕ × List ℕ) → Fetched
fetch none = failed
fetch (some (status, body)) =
    if not (status == 200) then unexpected_status status else fetched (take 8388608 body)
