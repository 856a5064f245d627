-- ===== src/Lib.antt =====
-- ConduitVPN: a supervisor that keeps one OpenVPN tunnel to a VPN Gate node alive, with a local
-- proxy in front of it and a web interface to it. The parts and how they meet:
--
--   * Node (internal/node/node.go): the candidate nodes and their ranking.
--   * Vpngate (internal/vpngate/parse.go): the node list, and the check of a node's OpenVPN profile,
--     which comes from a stranger, before it is written to disk. Vpngate.Profile is
--     ValidateOpenVPNProfile and what it calls; its children Grammar, Decides and Lines say what passes.
--     Vpngate.Rows and Vpngate.Remote are Parse, from the rows of the list to nodes.
--     Vpngate.Client and Vpngate.Socks5 (internal/vpngate/upstream.go) are how the node list is
--     fetched: directly, or through a proxy.
--   * Config (internal/config/config.go): the configuration, read from the environment and validated
--     before anything starts; Config.Upstream is the upstream proxy of the environment.
--   * Upstream (internal/upstream): Upstream.Links parses share links (parse.go), Upstream.Subscription
--     reads a subscription and picks a node (subscription.go), Upstream.Runner supervises sing-box
--     (singbox.go), Upstream.Start is Start with the configuration of sing-box (upstream.go,
--     config.go). Its proxy is what Vpngate.Client uses.
--   * Tunnel (internal/tunnel/tunnel.go): one openvpn process. Tunnel.Waiting has the wait for the
--     handshake and the steps of the goroutines, which may come in any order.
--   * Proxy (internal/proxy): the local proxy. Proxy.Limit is acceptLoop, Proxy.Handle the choice of the
--     protocol, Proxy.Socks5 and Proxy.Http are the two sides of it, Proxy.Dial is how both reach a
--     target through Egress. A connection is the list of bytes that a client sends.
--   * State (internal/state/store.go): the documents on disk. State.Files is writeJSON as a sequence
--     of system calls, each of which may fail; State.Pbkdf2 and State.Auth are the stored login of
--     the web interface, and State.Credentials is randomCred, on fuel for the rounds of its loop.
--   * Webui (internal/webui/webui.go): the routing behind the secret path, sessions and failed
--     logins, by the login that State.Auth stores; Webui.Api is what the handlers behind it answer.
--   * Manager (internal/manager/manager.go): the supervisor. Manager holds its state, the
--     blacklist and the route mode; Manager.Connect is connectLoop with connectAndVerify and
--     monitor, for which the outside world is a record `Attempt` for each candidate, with the calls
--     that the web interface makes meanwhile; Manager.Verification is the job that tries
--     blacklisted nodes again, and the restore of those that passed, Manager.Trial the trial of one
--     such node; Manager.Run is the loop around them, over any list of rounds, and Manager.Start is
--     New. It starts openvpn on the texts that Vpngate.Profile accepts and opens the egress.
--   * Egress (internal/egress): the controller that lets applications dial through the tunnel only,
--     with bindSocket of egress_linux.go, egress_darwin.go and egress_unsupported.go. A dial returns
--     what it sends out, net's own resolver is a parameter.
--   * Logx (internal/logx/logx.go): the ring of the latest log entries and its subscribers.
--   * Base: Go's standard library as far as the source uses it (strconv.Atoi, strings, sort.SliceStable,
--     net.ParseIP, net.SplitHostPort, io.ReadFull, maps), and the lemmas that the parts share.
--
-- A text is the list of its bytes; trimming and folding of case are those of ASCII, and characters are
-- counted as runes of UTF-8 (Base.Runes). A function that returns an error returns a result type of its own.
-- url.Parse, encoding/json, encoding/csv and http.ReadRequest are parameters, as are HMAC, random
-- bytes and the clock; what is assumed of them is a record or a named hypothesis
-- (State.Auth.Password.Crypto: a code has 32 bytes, a read of n random bytes gives n). Go's time is a
-- number of seconds since the zero time. Loops are recursion on the list they read, or on the number
-- of rounds the source counts; fuel is used where a file says so: in
-- State.Credentials a theorem says how much is enough, and sprint and pbkdf2 are given the number of
-- rounds that they need.
--
-- Not modelled: what the network and the operating system do (HTTP clients, probes, relays, the
-- processes of openvpn and sing-box), which comes in as arguments; hysteria2, the commands that set
-- routes, the demo nodes, the start of the program, and the pages and the JSON of the web interface.
pub mod Base
pub mod Config
pub mod Egress
pub mod Logx
pub mod Manager
pub mod Node
pub mod Proxy
pub mod State
pub mod Tunnel
pub mod Upstream
pub mod Vpngate
pub mod Webui
