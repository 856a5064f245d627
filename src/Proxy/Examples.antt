-- ===== src/Proxy/Examples.antt =====
-- A local proxy with a login, the clients' bytes it reads, and the theorems at it.
use conduitvpn.Base.{
  ℕ, ◌≤◌, ◌≡◌, refl, inr, Bool, true, false, not, ◌&&◌, none, some, List, [], ◌∷◌, arith,
  if◌then◌else◌, Str, codes, str_eq, join, pos, atoi, sprint, split_host_port, join_host_port,
  parse_ip, contains, ip_string, All, Elem,
}
use conduitvpn.Config.{UpstreamProxy}
use conduitvpn.Egress.{
  Controller, Binding, marked, connected, linux, host_lookup, attempt, udp, Outside, is_numeric,
  dial_context, dns_server, lookup_ip,
}
use conduitvpn.Proxy.{Server, new}
use conduitvpn.Proxy.Socks5.{handle_socks5}
use conduitvpn.Proxy.Socks5.Auth.{HasGreeting, handle_socks5-HasGreeting}
use conduitvpn.Proxy.Http.{handle_http, answered, auth_required, tunnelled, established}
use conduitvpn.Proxy.Http.Auth.{handle_http-new_client, connect_request}
use conduitvpn.Proxy.Dial.{dial, dial_resolved, dialled, normalize_target}
use conduitvpn.Proxy.Dial.Bound.{IsAllowed, HasNumber, dial-IsTunnelled}
use conduitvpn.Proxy.Dial.Leaking.{dial-host_lookup}
use conduitvpn.Proxy.Limit.{open_gate, admit, here, next, accept, IsSound, Reach-IsSound}
use conduitvpn.Vpngate.Client.{through_http, new_client}
use conduitvpn.Vpngate.Socks5.{socks5_connect}
use conduitvpn.Vpngate.Socks5.RoundTrip.{shown, socks5_connect-handle_socks5}

abbrev login_server : Server
login_server = record {
  host = codes "127.0.0.1";
  port = pos 1080;
  user = codes "u";
  pass = codes "p";
  auth_on = true;
  dns = codes "8.8.8.8";
  max_conns = pos 1;
}

abbrev every_dial : Str → Bool
every_dial t = true

-- A greeting with the method 2, the login, and the request of the port 80 of 10.0.0.1.
abbrev client_bytes : List ℕ
client_bytes = 5 ∷ 1 ∷ 2 ∷ 1 ∷ 1 ∷ b'u' ∷ 1 ∷ b'p' ∷ 5 ∷ 1 ∷ 0 ∷ 1 ∷ 10 ∷ 0 ∷ 0 ∷ 1 ∷ 0 ∷ 80 ∷ []

client_bytes_dial :
    (handle_socks5 every_dial true login_server client_bytes).dialled ≡ some (codes "10.0.0.1:80")
unfolding handle_socks5 str_eq join sprint
client_bytes_dial = refl

handle_socks5-HasGreeting_example : HasGreeting login_server client_bytes
handle_socks5-HasGreeting_example =
    handle_socks5-HasGreeting every_dial true login_server client_bytes (codes "10.0.0.1:80") refl
      client_bytes_dial

target_parts : split_host_port (codes "10.0.0.1:80") ≡ some (codes "10.0.0.1", codes "80")
unfolding split_host_port
target_parts = refl

target_port : atoi (codes "80") ≡ some (pos 80)
unfolding atoi
target_port = refl

socks5_connect-handle_socks5_example :
    (written : List ℕ) × (reply : List ℕ) × (handle_socks5 every_dial true login_server written
      ≡ record {
        sent = reply;
        dialled = some (join_host_port (shown (codes "10.0.0.1")) (sprint 80));
        relayed = true;
      })
    × (socks5_connect (λ k. true) (codes "10.0.0.1:80") (codes "u") (codes "p") reply
        ≡ (written, none))
socks5_connect-handle_socks5_example =
    socks5_connect-handle_socks5 (λ k. true) every_dial true login_server (codes "10.0.0.1:80")
      (codes "u") (codes "p") (codes "10.0.0.1") (codes "80") 80
      (inr (refl, refl, refl, refl, omega arith, omega arith)) (λ k. refl) target_parts target_port
      (omega arith) (omega arith) refl

abbrev http_upstream : UpstreamProxy
http_upstream = record {
  kind = codes "http";
  addr = codes "127.0.0.1:1080";
  user = codes "u";
  pass = codes "p";
}

handle_http-new_client_example :
    (header : Str) × (new_client (some http_upstream)
      ≡ through_http (codes "127.0.0.1:1080") (some header))
    × (handle_http every_dial true login_server (some (connect_request (codes "a:443") header)) ≡ (
        if not (str_eq (codes "u") (codes "u") && str_eq (codes "p") (codes "p"))
        then answered auth_required
        else tunnelled (codes "a:443") established))
handle_http-new_client_example =
    handle_http-new_client every_dial true login_server http_upstream (codes "a:443") refl refl refl
      (omega arith, (omega arith, (omega arith, tt))) refl refl

-- A network on which every socket connects and every name has the address 10.0.0.1.
abbrev open_world : Outside
open_world = record {
  platform = linux;
  connects = λ b a. true;
  resolves = λ name a. codes "8.8.4.4:53" ∷ [];
  hosts = λ name. none;
  asks = λ name. udp ∷ [];
  answers = λ name. some ((10 ∷ 0 ∷ 0 ∷ 1 ∷ []) ∷ []);
}

abbrev up_controller : Controller
up_controller = record { mode = codes "host"; device = codes "tun0"; ready = true }

-- The DNS server is asked, and its answer dialled, each by a marked socket.
dial_runs : dial open_world (some up_controller) (codes "8.8.8.8") (codes "a:443") ≡ (
  attempt (marked 0xC0DE) (codes "udp4") (codes "8.8.8.8:53")
      ∷ attempt (marked 0xC0DE) (codes "tcp4") (codes "10.0.0.1:443")
      ∷ [],
  dialled (connected (marked 0xC0DE) (codes "tcp4") (codes "10.0.0.1:443")),
)
unfolding dial_resolved normalize_target dial_context lookup_ip str_eq join sprint contains
dial_runs = refl

dial-IsTunnelled_example :
    All
      (IsAllowed open_world up_controller (codes "8.8.8.8"))
      (dial open_world (some up_controller) (codes "8.8.8.8") (codes "a:443")).0
    × ((b : Binding) (name address : Str)
        → (dial open_world (some up_controller) (codes "8.8.8.8") (codes "a:443")).1
          ≡ dialled (connected b name address)
        → Elem
            (attempt b name address)
            (dial open_world (some up_controller) (codes "8.8.8.8") (codes "a:443")).0
          × (ip : List ℕ) × (port : Str) × (address ≡ join_host_port (ip_string ip) port))
    × (HasNumber (split_host_port (dns_server (codes "8.8.8.8")))
        → true ≡ false
        → (dial open_world (some up_controller) (codes "8.8.8.8") (codes "a:443")).0 ≡ [])
unfolding str_eq
dial-IsTunnelled_example =
    dial-IsTunnelled open_world up_controller (codes "8.8.8.8") refl (codes "a:443")

abbrev down_controller : Controller
down_controller = record { mode = codes "host"; device = []; ready = false }

named_server : split_host_port (dns_server (codes "dns.test")) ≡ some (codes "dns.test", codes "53")
unfolding dns_server split_host_port
named_server = refl

named_host : is_numeric (codes "dns.test") ≡ false
unfolding is_numeric parse_ip contains
named_host = refl

named_target : split_host_port (normalize_target (codes "a:443")) ≡ some (codes "a", codes "443")
unfolding normalize_target split_host_port
named_target = refl

name_parsed : parse_ip (codes "a") ≡ none
unfolding parse_ip contains
name_parsed = refl

-- The host's resolver is asked while the controller is not ready.
dial-host_lookup_example :
    Elem
      (host_lookup (codes "dns.test"))
      (dial open_world (some down_controller) (codes "dns.test") (codes "a:443")).0
dial-host_lookup_example =
    dial-host_lookup open_world down_controller (codes "dns.test") (codes "dns.test") (codes "53")
      named_server named_host (codes "a:443") (codes "a") (codes "443") named_target name_parsed
      refl (λ e. cc)

abbrev small_server : Server
unfolding new
small_server = new (codes "127.0.0.1") (pos 1080) [] [] (codes "8.8.8.8") (pos 1)

Reach-IsSound_example :
    (1 ≤ (admit (open_gate (new [] (pos 1080) [] [] [] (pos 1)))).capacity)
    × IsSound
        (new [] (pos 1080) [] [] [] (pos 1))
        (admit (open_gate (new [] (pos 1080) [] [] [] (pos 1))))
Reach-IsSound_example = Reach-IsSound [] (pos 1080) [] [] [] (pos 1) (next here (accept refl))
