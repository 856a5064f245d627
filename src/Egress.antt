-- ===== src/Egress.antt =====
-- internal/egress: the controller that lets applications dial through the tunnel only, what ties a
-- socket to the tunnel on each platform, and the resolver. What the operating system answers is an
-- argument: an error text, or `none` for success.
use conduitvpn.Base.{
  ℕ, Bool, true, false, not, ◌||◌, Option, none, some, List, [], ◌∷◌, ◌++◌, if◌then◌else◌, is_some,
  Str, codes, is_empty, str_eq, parse_ip, has_byte, cut_first, split_host_port, join_host_port,
  ip_string,
}

pub record Controller : Type 0 where
  pub mode : Str
  pub device : Str
  pub ready : Bool

pub data EgressError : Type 0 where
  no_device tunnel_not_ready not_supported : EgressError
  no_interface route_failed bind_failed : Str → EgressError

unfoldable pub new_controller : Str → Controller
unfolding str_eq
new_controller mode = record { mode = mode; device = []; ready = str_eq mode (codes "container") }

abbrev pub host_mode : Controller → Bool
host_mode c = str_eq c.mode (codes "host")

abbrev pub routed_by : Option Str → Str → Controller → Option EgressError × Controller
routed_by (some e) device c = (some (route_failed e), c)
routed_by none device c = (none, record c { device = device; ready = true })

abbrev pub interface_by :
    Option Str → Option Str → Str → Controller → Option EgressError × Controller
interface_by (some e) route device c = (some (no_interface e), c)
interface_by none route device c = routed_by route device c

unfoldable pub configure :
    Str → Option Str → Option Str → Controller → Option EgressError × Controller
configure device interface route c =
    if not (host_mode c)
    then (none, c)
    else if is_empty device
    then (some no_device, c)
    else interface_by interface route device c

unfoldable pub clear : Controller → Controller
clear c = if not (host_mode c) then c else record c { ready = false; device = [] }

-- The three builds of the package.
pub data Platform : Type 0 where
  linux darwin unsupported : Platform

-- What ties a socket to the tunnel: a mark, which the rule of setupHostRoute sends to the table with
-- the tunnel's route, or the interface; nothing in container mode.
pub data Binding : Type 0 where
  unbound : Binding
  marked : ℕ → Binding
  bound : Str → Binding
  refused : EgressError → Binding

unfoldable pub bind_socket : Platform → Str → Binding
bind_socket linux device = marked 0xC0DE
bind_socket darwin device = bound device
bind_socket unsupported device = refused not_supported

unfoldable pub control : Platform → Controller → Binding
unfolding bind_socket
control platform c =
    if not (host_mode c)
    then unbound
    else if not c.ready
    then refused tunnel_not_ready
    else bind_socket platform c.device

-- The network that a dial names: IPv4 only in host mode.
unfoldable pub network : Controller → Str → Str
unfolding str_eq
network c name =
    if not (host_mode c)
    then name
    else if str_eq name (codes "tcp")
    then codes "tcp4"
    else if str_eq name (codes "udp")
    then codes "udp4"
    else name

-- What comes of a dial: a connection, with its binding, its network and its address, or an error.
pub data Dialled : Type 0 where
  connected : Binding → Str → Str → Dialled
  dial_refused : EgressError → Dialled
  unreachable : Dialled

-- What a dial sends out: a question of net's own resolver for the host of an address, on which no
-- policy is put, or an attempt to connect a socket, which has a binding, a network and an address.
pub data Effect : Type 0 where
  host_lookup : Str → Effect
  attempt : Binding → Str → Str → Effect

pub data Transport : Type 0 where
  udp tcp : Transport

-- The outside of a dial: whether a socket can be tied so and reaches an address, and the addresses
-- that net's own resolver gives for a network and an address by name. Of the resolver that the
-- controller makes: what the hosts file says of a name, the connections by which it asks the DNS
-- server, and what that answers.
pub record Outside : Type 0 where
  pub platform : Platform
  pub connects : Binding → Str → Bool
  pub resolves : Str → Str → List Str
  pub hosts : Str → Option (List (List ℕ))
  pub asks : Str → List Transport
  pub answers : Str → Option (List (List ℕ))

abbrev zoneless : Option (Str × Str) → Str → Str
zoneless none host = host
zoneless (some (ip, zone)) host = ip

-- A host that net.Dialer does not look up: an address, with a zone if it is IPv6, or none at all.
unfoldable pub is_numeric : Str → Bool
unfolding parse_ip cut_first
is_numeric host =
    is_empty host
    || is_some (parse_ip (if has_byte b':' host then zoneless (cut_first b'%' host) host else host))

abbrev pub and_then : Effect → List Effect × Dialled → List Effect × Dialled
and_then e (es, d) = (e ∷ es, d)

-- The addresses one after the other. In container mode Go may try IPv6 and IPv4 side by side.
abbrev pub try_each : Outside → Str → Binding → List Str → List Effect × Dialled
try_each w name b [] = ([], unreachable)
try_each w name b (a ∷ addresses) =
    let rest = and_then (attempt b name a) (try_each w name b addresses) in
    if w.connects b a then (attempt b name a ∷ [], connected b name a) else rest

-- A socket that is refused sends nothing.
abbrev pub tie_each : Outside → Str → Binding → List Str → List Effect × Dialled
tie_each w name (refused e) addresses = ([], dial_refused e)
tie_each w name unbound addresses = try_each w name unbound addresses
tie_each w name (marked mark) addresses = try_each w name (marked mark) addresses
tie_each w name (bound device) addresses = try_each w name (bound device) addresses

-- What is dialled: an IP with a port, whose text the dialer reads back as that, or another text.
pub data Target : Type 0 where
  by_ip : List ℕ → Str → Target
  named : Str → Target

unfoldable pub dial_by : Outside → Str → Str → Binding → Option (Str × Str) → List Effect × Dialled
unfolding is_numeric
dial_by w name address b none = ([], unreachable)
dial_by w name address b (some (host, port)) =
    let looked_up = and_then (host_lookup host) (tie_each w name b (w.resolves name address)) in
    if is_numeric host then tie_each w name b (address ∷ []) else looked_up

unfoldable pub dial_context : Outside → Controller → Str → Target → List Effect × Dialled
unfolding control network dial_by split_host_port ip_string
dial_context w c name (by_ip ip port) =
    tie_each w (network c name) (control w.platform c) (join_host_port (ip_string ip) port ∷ [])
dial_context w c name (named address) =
    dial_by w (network c name) address (control w.platform c) (split_host_port address)

abbrev pub transport_name : Transport → Str
transport_name udp = codes "udp"
transport_name tcp = codes "tcp"

-- The server of Resolver, with the port of DNS where none is given.
unfoldable pub dns_server : Str → Str
unfolding split_host_port
dns_server server =
    if is_some (split_host_port server) then server else join_host_port server (codes "53")

abbrev pub is_connected : Dialled → Bool
is_connected (connected b name address) = true
is_connected (dial_refused e) = false
is_connected unreachable = false

-- The connections to the DNS server: all that they send out, and whether one was made.
abbrev pub ask_each : Outside → Controller → Str → List Transport → List Effect × Bool
unfolding dial_context
ask_each w c server [] = ([], false)
ask_each w c server (t ∷ ts) =
    let (es, d) = dial_context w c (transport_name t) (named server) in
    let (fs, b) = ask_each w c server ts in (es ++ fs, is_connected d || b)

abbrev pub answered_by :
    Option (List (List ℕ)) → List Effect × Bool → List Effect × Option (List (List ℕ))
answered_by answer (es, b) = (es, if b then answer else none)

abbrev pub asked_for :
    Outside → Controller → Str → Str → Option (List (List ℕ)) → List Effect × Option (List (List ℕ))
unfolding dial_context dns_server
asked_for w c server host (some ips) = ([], some ips)
asked_for w c server host none =
    answered_by (w.answers host) (ask_each w c (dns_server server) (w.asks host))

-- LookupIPAddr of the resolver that Resolver makes.
unfoldable pub lookup_ip : Outside → Controller → Str → Str → List Effect × Option (List (List ℕ))
unfolding dial_context dns_server
lookup_ip w c server host = asked_for w c server host (w.hosts host)
