-- ===== src/Upstream/Start.antt =====
-- Start of internal/upstream/upstream.go and internal/upstream/config.go: the proxy that the node list
-- is fetched through. What is read and run outside of the program is an argument, as a `World`.
pub mod Guarded
use conduitvpn.Upstream.Subscription.{Subscription, parse_subscription, pick_node, Map, Picked}
use conduitvpn.Base.{
  ℕ, zero, suc, ◌+◌, ◌-◌, ◌*◌, ◌/◌, ◌%◌, ◌^◌, ◌≤◌, ◌<◌, ◌≡◌, refl, sym, ap, ◌∙◌, subst, ◌≢◌, ◌↔◌,
  ◌⊎◌, inl, inr, Bool, true, false, not, ◌&&◌, ◌||◌, Option, none, some, List, [], ◌∷◌, ◌++◌, map,
  arith, ltb, leb, ◌==◌, if◌then◌else◌, is_some, ==_iff, Bool-cases, Option-cases, length,
  get_elem?, set, take, drop, any, keep, All, Elem, length-append, length-drop, length-take,
  length-set, All-Elem, Elem-append_left, Elem-append_last, Str, codes, is_empty, str_eq,
  str_eq_iff, str_eq_refl, trim_space, trim, to_upper, to_lower, has_prefix, trim_prefix, contains,
  split, fields, join, one_of, one_of_sound, one_of_complete, to_upper_idem, Dict, lookup, insert,
  delete, keys, lookup-insert, lookup-delete, ℤ, pos, negsuc, ltb_ℤ, leb_ℤ, add_ℕ, sort_stable,
  IsSorted, atoi, sprint, parse_ip, to4, is_loopback, read_full, reading, on_read, byte_at,
  put_uint16, uint16, read_full-append, has_byte, split_host_port, join_host_port, ip_string,
  cut_first, cut_last, atoi_or_zero,
}
use conduitvpn.Config.{Config, UpstreamProxy}
use conduitvpn.Upstream
use conduitvpn.Upstream.{
  get, put, Json, Fields, Items, text_at, Params, null, text, number, truth, array, object,
  no_items, item, no_fields, field,
}
use conduitvpn.Upstream.Links.{LinkError, Result, ok, failed, Url, parse_node_uri}
use conduitvpn.Upstream.Subscription
use conduitvpn.Upstream.Subscription.{
  picked, bad_link, out_of_range, subscription_is_empty, panicked, links, outbounds,
  empty_subscription, no_nodes_found,
}

-- `fetched` is the payload of the subscription; `maps`, `outbounds_of` and `map_of` are what
-- json.Unmarshal makes of a text, and `valid` is json.Valid; `written` and `runs` tell whether the
-- configuration is written and whether sing-box accepts it and is ready at the port.
pub record World : Type 0 where
  pub fetched : Str → Option Str
  pub maps : Str → Option (List Map)
  pub outbounds_of : Str → Option (List Map)
  pub map_of : Str → Option Map
  pub valid : Str → Bool
  pub read_file : Str → Option Str
  pub written : Fields → Bool
  pub runs : Fields → ℤ → Bool

pub data StartError : Type 0 where
  uri_failed : LinkError → StartError
  fetch_failed empty_payload no_nodes pick_failed read_failed bad_config_json : StartError
  write_failed runner_failed : StartError

-- The proxy and the configuration that sing-box runs, an error, or a panic.
pub data Started : Type 0 where
  started : Option UpstreamProxy → Option Fields → Started
  not_started : StartError → Started
  start_panicked : Started

unfoldable pub build_sing_box_config : Fields → ℤ → Fields
build_sing_box_config outbound port =
    field (codes "log") (object (field (codes "level") (text (codes "warn")) no_fields)) (
      field (codes "inbounds")
        (array (
          item
            (object (
              field (codes "type") (text (codes "socks")) (
                field (codes "listen") (text (codes "127.0.0.1"))
                  (field (codes "listen_port") (number port) no_fields))))
            no_items))
        (field (codes "outbounds")
          (array (
            item (object outbound) (
              item
                (object (
                  field (codes "type") (text (codes "direct"))
                    (field (codes "tag") (text (codes "direct")) no_fields)))
                no_items)))
          no_fields))

-- The listen_port of a socks inbound: a number or a text that is one ends the search, else it goes on.
abbrev pub port_by : Option Json → Option ℤ → Option ℤ
unfolding atoi
port_by (some (number p)) rest = some p
port_by (some (text s)) rest = atoi s
port_by (some null) rest = rest
port_by (some (truth b)) rest = rest
port_by (some (array xs)) rest = rest
port_by (some (object fs)) rest = rest
port_by none rest = rest

abbrev pub inbound_port : Json → Option ℤ → Option ℤ
unfolding str_eq text_at get port_by
inbound_port (object ib) rest =
    if str_eq (text_at (codes "type") ib) (codes "socks")
    then port_by (get (codes "listen_port") ib) rest
    else rest
inbound_port null rest = rest
inbound_port (text s) rest = rest
inbound_port (number n) rest = rest
inbound_port (truth b) rest = rest
inbound_port (array xs) rest = rest

unfoldable pub first_port : Items → Option ℤ
unfolding inbound_port
first_port no_items = none
first_port (item v xs) = let rest = first_port xs in inbound_port v rest

abbrev pub ports_in : Option Json → Option ℤ
unfolding first_port
ports_in (some (array xs)) = first_port xs
ports_in (some null) = none
ports_in (some (text s)) = none
ports_in (some (number n)) = none
ports_in (some (truth b)) = none
ports_in (some (object fs)) = none
ports_in none = none

unfoldable pub socks_inbound_port : Map → Option ℤ
unfolding ports_in get
socks_inbound_port none = none
socks_inbound_port (some cfg) = ports_in (get (codes "inbounds") cfg)

abbrev sprint_port : ℤ → Str
unfolding sprint
sprint_port (pos n) = sprint n
sprint_port (negsuc n) = codes "-" ++ sprint (suc n)

abbrev pub local_proxy : ℤ → UpstreamProxy
unfolding sprint_port
local_proxy port = record {
  kind = codes "socks5";
  addr = join_host_port (codes "127.0.0.1") (sprint_port port);
  user = [];
  pass = [];
}

-- writeConfig and StartRunner.
abbrev pub run : World → Fields → ℤ → Started
unfolding local_proxy
run w cfg port =
    if not (w.written cfg)
    then not_started write_failed
    else if not (w.runs cfg port)
    then not_started runner_failed
    else started (some (local_proxy port)) (some cfg)

abbrev pub run_outbound : World → ℤ → Fields → Started
unfolding build_sing_box_config run
run_outbound w port outbound = run w (build_sing_box_config outbound port) port

abbrev pub run_picked : World → ℤ → Picked → Started
unfolding run_outbound
run_picked w port (picked o label) = run_outbound w port o
run_picked w port (bad_link e) = not_started pick_failed
run_picked w port (out_of_range i n) = not_started pick_failed
run_picked w port subscription_is_empty = not_started pick_failed
run_picked w port panicked = start_panicked

abbrev pub run_link : World → ℤ → Result Fields → Started
unfolding run_outbound
run_link w port (ok o) = run_outbound w port o
run_link w port (failed e) = not_started (uri_failed e)

-- Writing the tag of a nil map panics.
abbrev pub run_single : World → ℤ → Map → Started
unfolding run_outbound put text_at
run_single w port none = start_panicked
run_single w port (some o) =
    run_outbound w port
      (if is_empty (text_at (codes "tag") o) then put (codes "tag") (text (codes "node")) o else o)

abbrev pub run_full : World → ℤ → Fields → Option ℤ → Started
unfolding run run_single
run_full w port cfg none = run_single w port (some cfg)
run_full w port cfg (some p) = run w cfg p

abbrev pub run_config : World → ℤ → Option Map → Started
unfolding run_full run_single socks_inbound_port
run_config w port none = not_started bad_config_json
run_config w port (some none) = run_single w port none
run_config w port (some (some cfg)) = run_full w port cfg (socks_inbound_port (some cfg))

abbrev pub run_raw : World → ℤ → Option Str → Started
unfolding run_config
run_raw w port none = not_started read_failed
run_raw w port (some raw) = run_config w port (w.map_of raw)

module _ (url_parse : Str → Option Url) (vmess_json : List ℕ → Option Params) where
  abbrev pub run_subscription : World → ℤ → ℤ → Subscription → Started
  unfolding run_picked pick_node
  run_subscription w port index empty_subscription = not_started empty_payload
  run_subscription w port index no_nodes_found = not_started no_nodes
  run_subscription w port index (links uris) =
      run_picked w port (pick_node url_parse vmess_json uris [] index)
  run_subscription w port index (outbounds obs) =
      run_picked w port (pick_node url_parse vmess_json [] obs index)

  abbrev pub run_payload : World → ℤ → ℤ → Option Str → Started
  unfolding run_subscription parse_subscription
  run_payload w port index none = not_started fetch_failed
  run_payload w port index (some raw) =
      run_subscription w port index (parse_subscription w.maps w.outbounds_of raw)

  unfoldable pub start : World → Config → Started
  unfolding run_link parse_node_uri run_payload run_raw
  start w cfg =
      let port =
        if leb_ℤ cfg.upstream_singbox_port (pos 0) then pos 10800 else cfg.upstream_singbox_port in
      if not (is_empty cfg.upstream_singbox_uri)
      then run_link w port (parse_node_uri url_parse vmess_json cfg.upstream_singbox_uri)
      else if not (is_empty cfg.upstream_subscription)
      then run_payload w port cfg.upstream_singbox_index (w.fetched cfg.upstream_subscription)
      else if not (is_empty cfg.upstream_singbox_config)
      then run_raw w port (
          if not (w.valid cfg.upstream_singbox_config)
          then w.read_file cfg.upstream_singbox_config
          else some cfg.upstream_singbox_config)
      else started cfg.upstream_proxy none
