-- ===== src/Config.antt =====
-- internal/config/config.go: the settings, how they are read from the environment, and the check
-- that refuses unsafe ones. A duration is in seconds. `getenv` is the environment; a variable that
-- is not set reads as the empty text, as in Go.
pub mod Safety
pub mod Upstream
pub mod Examples
use Prim.Native.String.{String}
use conduitvpn.Base.{
  ℕ, ◌≡◌, Bool, true, false, not, ◌&&◌, ◌||◌, Option, none, some, List, [], ◌∷◌, ltb, leb, ◌==◌,
  if◌then◌else◌, rune_count, any, Str, codes, is_empty, str_eq, trim_space, trim, to_lower,
  is_loopback, ℤ, pos, negsuc, ltb_ℤ, leb_ℤ, atoi,
}

pub record UpstreamProxy : Type 0 where
  pub kind : Str
  pub addr : Str
  pub user : Str
  pub pass : Str

pub record Config : Type 0 where
  pub demo : Bool
  pub network_mode : Str
  pub data_dir : Str
  pub api_url : Str
  pub fetch_timeout : ℤ
  pub fetch_interval : ℤ
  pub target_valid_nodes : ℤ
  pub max_scan_rows : ℤ
  pub bench_concurrency : ℤ
  pub bench_timeout : ℤ
  pub log_level : Str
  pub upstream_proxy : Option UpstreamProxy
  pub upstream_singbox_uri : Str
  pub upstream_subscription : Str
  pub upstream_singbox_config : Str
  pub upstream_singbox_index : ℤ
  pub upstream_singbox_port : ℤ
  pub hy2_port : ℤ
  pub hy2_bind : Str
  pub hy2_password : Str
  pub hy2_obfs_password : Str
  pub connect_timeout : ℤ
  pub probe_settle : ℤ
  pub probe_interval : ℤ
  pub probe_timeout : ℤ
  pub health_max_fails : ℤ
  pub initial_probe_tries : ℤ
  pub health_addr : Str
  pub openvpn_auth_user : Str
  pub openvpn_auth_pass : Str
  pub local_proxy_host : Str
  pub local_proxy_port : ℤ
  pub proxy_user : Str
  pub proxy_pass : Str
  pub proxy_max_conns : ℤ
  pub dns_server : Str
  pub ui_host : Str
  pub ui_port : ℤ
  pub ui_user : Str
  pub ui_password : Str
  pub ui_tls_cert : Str
  pub ui_tls_key : Str
  pub route_mode : Str
  pub route_country : Str
  pub route_node : Str
  pub latency_interval : ℤ

abbrev pub Env : Type 0
Env = Str → Str

unfoldable pub env_str : Env → Str → Str → Str
env_str getenv key def = if is_empty (getenv key) then def else getenv key

abbrev pub get_or : Option ℤ → ℤ → ℤ
get_or none def = def
get_or (some n) def = n

unfoldable pub env_int : Env → Str → ℤ → ℤ
unfolding atoi
env_int getenv key def = if is_empty (getenv key) then def else get_or (atoi (getenv key)) def

unfoldable pub default_data_dir : Str → Str
unfolding str_eq
default_data_dir mode =
    if str_eq mode (codes "host") then codes "./data" else codes "/data/conduitvpn"

unfoldable pub demo_data_dir : Env → Str
unfolding trim_space
demo_data_dir getenv =
    let dir = trim_space (getenv (codes "CONDUIT_DATA_DIR")) in
    if is_empty dir then codes ".conduitvpn-demo" else dir

-- `Load`; `upstream` is what parseUpstreamProxy returns.
unfoldable pub load : Env → Option UpstreamProxy → Config
unfolding env_str env_int default_data_dir
load getenv upstream = record {
  demo = false;
  network_mode = str "NETWORK_MODE" "";
  data_dir = env_str getenv (codes "CONDUIT_DATA_DIR") (default_data_dir (str "NETWORK_MODE" ""));
  api_url = str "VPNGATE_API_URL" "https://www.vpngate.net/api/iphone/";
  fetch_timeout = int "FETCH_TIMEOUT_SECONDS" 30;
  fetch_interval = int "FETCH_INTERVAL_SECONDS" 1260;
  target_valid_nodes = int "TARGET_VALID_NODES" 3;
  max_scan_rows = int "MAX_SCAN_ROWS" 300;
  bench_concurrency = int "BENCH_CONCURRENCY" 50;
  bench_timeout = int "BENCH_TIMEOUT_SECONDS" 10;
  log_level = str "LOG_LEVEL" "info";
  upstream_proxy = upstream;
  upstream_singbox_uri = str "UPSTREAM_SINGBOX_URI" "";
  upstream_subscription = str "UPSTREAM_SUBSCRIPTION" "";
  upstream_singbox_config = str "UPSTREAM_SINGBOX_CONFIG" "";
  upstream_singbox_index = int "UPSTREAM_SINGBOX_INDEX" 0;
  upstream_singbox_port = int "UPSTREAM_SINGBOX_PORT" 10800;
  hy2_port = int "HY2_PORT" 0;
  hy2_bind = str "HY2_BIND" "0.0.0.0";
  hy2_password = str "HY2_PASSWORD" "";
  hy2_obfs_password = str "HY2_OBFS_PASSWORD" "";
  connect_timeout = int "CONNECT_TIMEOUT_SECONDS" 40;
  probe_settle = int "PROBE_SETTLE_SECONDS" 2;
  probe_interval = int "PROBE_INTERVAL_SECONDS" 5;
  probe_timeout = int "PROBE_TIMEOUT_SECONDS" 5;
  health_max_fails = int "HEALTH_MAX_FAILS" 3;
  initial_probe_tries = int "INITIAL_PROBE_TRIES" 3;
  health_addr = str "HEALTH_ADDR" "8.8.8.8:443";
  openvpn_auth_user = str "OPENVPN_AUTH_USER" "vpn";
  openvpn_auth_pass = str "OPENVPN_AUTH_PASS" "vpn";
  local_proxy_host = str "LOCAL_PROXY_HOST" "127.0.0.1";
  local_proxy_port = int "LOCAL_PROXY_PORT" 7928;
  proxy_user = str "LOCAL_PROXY_USER" "";
  proxy_pass = str "LOCAL_PROXY_PASS" "";
  proxy_max_conns = int "LOCAL_PROXY_MAX_CONNECTIONS" 512;
  dns_server = str "DNS_SERVER" "8.8.8.8";
  ui_host = str "UI_HOST" "127.0.0.1";
  ui_port = int "UI_PORT" 8787;
  ui_user = str "UI_USER" "";
  ui_password = str "UI_PASSWORD" "";
  ui_tls_cert = str "UI_TLS_CERT" "";
  ui_tls_key = str "UI_TLS_KEY" "";
  route_mode = str "ROUTE_MODE" "auto";
  route_country = str "ROUTE_COUNTRY" "";
  route_node = str "ROUTE_NODE" "";
  latency_interval = int "LATENCY_INTERVAL_SECONDS" 10;
}
  where
    str : String → String → Str
    str key def = env_str getenv (codes key) (codes def)

    int : String → ℕ → ℤ
    int key def = env_int getenv (codes key) (pos def)

pub data ConfigError : Type 0 where
  mode_not_set hy2_in_host_mode bad_ui_port bad_proxy_port bad_hy2_port : ConfigError
  tls_incomplete proxy_without_auth proxy_pass_short hy2_password_short bad_max_conns : ConfigError

abbrev pub is_zero : ℤ → Bool
is_zero (pos n) = n == 0
is_zero (negsuc n) = false

unfoldable pub valid_port : ℤ → Bool → Bool
valid_port port zero_allowed =
    (zero_allowed && is_zero port) || (leb_ℤ (pos 1) port && leb_ℤ port (pos 65535))

unfoldable pub is_loopback_bind : Str → Bool
unfolding trim_space trim to_lower str_eq is_loopback
is_loopback_bind host =
    let host' = trim_space (trim (codes "[]") host) in
    if str_eq (to_lower host') (codes "localhost") then true else is_loopback host'

abbrev pub is_container : Config → Bool
is_container c = str_eq c.network_mode (codes "container")

abbrev pub is_host : Config → Bool
is_host c = str_eq c.network_mode (codes "host")

abbrev pub differ : Bool → Bool → Bool
differ true b = not b
differ false b = b

-- Early returns: the error of the first guard that holds.
pub first_error : List (Bool × ConfigError) → Option ConfigError
first_error [] = none
first_error ((guard, e) ∷ rest) = if guard then some e else first_error rest

-- The guards of `Validate`, in its order.
pub guards : Config → List (Bool × ConfigError)
unfolding valid_port is_loopback_bind rune_count
guards c =
    (not c.demo && (not (is_container c) && not (is_host c)), mode_not_set)
    ∷ (is_host c && not (is_zero c.hy2_port), hy2_in_host_mode)
    ∷ (not (valid_port c.ui_port false), bad_ui_port)
    ∷ (not (valid_port c.local_proxy_port false), bad_proxy_port)
    ∷ (not (valid_port c.hy2_port true), bad_hy2_port)
    ∷ (differ (is_empty c.ui_tls_cert) (is_empty c.ui_tls_key), tls_incomplete)
    ∷ (
      not (is_loopback_bind c.local_proxy_host) && (is_empty c.proxy_user || is_empty c.proxy_pass),
      proxy_without_auth,
    )
    ∷ (
      not (is_loopback_bind c.local_proxy_host) && ltb (rune_count c.proxy_pass) 16,
      proxy_pass_short,
    )
    ∷ (not (is_zero c.hy2_port) && ltb (rune_count c.hy2_password) 16, hy2_password_short)
    ∷ (ltb_ℤ c.proxy_max_conns (pos 1) || ltb_ℤ (pos 4096) c.proxy_max_conns, bad_max_conns)
    ∷ []

unfoldable pub validate : Config → Option ConfigError
unfolding first_error guards
validate c = first_error (guards c)
