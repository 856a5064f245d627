-- ===== src/Upstream/Start/Guarded.antt =====
-- internal/upstream/upstream.go: with a sing-box source there is no way back to another path.
use conduitvpn.Upstream.{Json, put, text_at, Fields, Params}
use conduitvpn.Base.{
  choice_of, ℕ, ◌≡◌, refl, Bool, true, false, not, ◌&&◌, Option, none, some, List, [],
  if◌then◌else◌, Str, codes, is_empty, ℤ, pos, leb_ℤ,
}
use conduitvpn.Config.{Config}
use conduitvpn.Upstream.Links.{Result, ok, failed, Url, parse_node_uri}
use conduitvpn.Upstream.Subscription.{
  picked, bad_link, out_of_range, subscription_is_empty, panicked, links, outbounds,
  empty_subscription, no_nodes_found,
}
use conduitvpn.Upstream.Start.{
  pick_node, socks_inbound_port, Map, Subscription, Picked, parse_subscription,
  build_sing_box_config, run_outbound, run, local_proxy, start, run_subscription, run_payload,
  run_picked, run_link, Started, run_raw, run_single, run_full, run_config, World, started,
  not_started, start_panicked,
}

-- A start that gives a proxy has run sing-box, accepted and ready at a port, and gives the proxy of
-- that port.
abbrev pub IsLocal : World → Started → Type 0
IsLocal w (started p none) = ⊥
IsLocal w (started p (some cfg)) =
    (port : ℤ) × (p ≡ some (local_proxy port)) × (w.written cfg ≡ true) × (w.runs cfg port ≡ true)
IsLocal w (not_started e) = Unit
IsLocal w start_panicked = Unit

abbrev pub HasSource : Config → Type 0
HasSource cfg =
    (is_empty cfg.upstream_singbox_uri
      && is_empty cfg.upstream_subscription
      && is_empty cfg.upstream_singbox_config)
    ≡ false

none_left :
    (a b c : Bool) → (a && b && c) ≡ false → not a ≡ false → not b ≡ false → not c ≡ false → ⊥
none_left true true true h a b c = absurd cc
none_left true true false h a b c = absurd cc
none_left true false c h a b d = absurd cc
none_left false b c h a d e = absurd cc

not-false : (b : Bool) → not b ≡ false → b ≡ true
not-false true e = refl
not-false false e = absurd cc

module _ (w : World) where
  run-IsLocal : (cfg : Fields) (port : ℤ) → IsLocal w (run w cfg port)
  unfolding run
  run-IsLocal cfg port =
      choice_of (IsLocal w) (not (w.written cfg)) (λ y. tt)
        (λ a.
          choice_of (IsLocal w) (not (w.runs cfg port)) (λ y. tt)
            (λ b. (port, refl, not-false (w.written cfg) a, not-false (w.runs cfg port) b)))

  run_picked-IsLocal : (port : ℤ) (p : Picked) → IsLocal w (run_picked w port p)
  unfolding run_picked run_outbound build_sing_box_config
  run_picked-IsLocal port (picked o label) = run-IsLocal (build_sing_box_config o port) port
  run_picked-IsLocal port (bad_link e) = tt
  run_picked-IsLocal port (out_of_range i n) = tt
  run_picked-IsLocal port subscription_is_empty = tt
  run_picked-IsLocal port panicked = tt

  run_link-IsLocal : (port : ℤ) (r : Result Fields) → IsLocal w (run_link w port r)
  unfolding run_link run_outbound
  run_link-IsLocal port (ok o) = run-IsLocal (build_sing_box_config o port) port
  run_link-IsLocal port (failed e) = tt

  run_single-IsLocal : (port : ℤ) (o : Fields) → IsLocal w (run_single w port (some o))
  unfolding run_single run_outbound
  run_single-IsLocal port o =
      run-IsLocal
        (build_sing_box_config
          (if is_empty (text_at (codes "tag") o)
            then put (codes "tag") (Json.text (codes "node")) o
            else o)
          port)
        port

  run_full-IsLocal : (port : ℤ) (cfg : Fields) (p : Option ℤ) → IsLocal w (run_full w port cfg p)
  unfolding run_full
  run_full-IsLocal port cfg none = run_single-IsLocal port cfg
  run_full-IsLocal port cfg (some p) = run-IsLocal cfg p

  run_config-IsLocal : (port : ℤ) (m : Option Map) → IsLocal w (run_config w port m)
  unfolding run_config run_single
  run_config-IsLocal port none = tt
  run_config-IsLocal port (some none) = tt
  run_config-IsLocal port (some (some cfg)) =
      run_full-IsLocal port cfg (socks_inbound_port (some cfg))

  run_raw-IsLocal : (port : ℤ) (raw : Option Str) → IsLocal w (run_raw w port raw)
  unfolding run_raw
  run_raw-IsLocal port none = tt
  run_raw-IsLocal port (some raw) = run_config-IsLocal port (w.map_of raw)

  module _ (url_parse : Str → Option Url) (vmess_json : List ℕ → Option Params) where
    run_subscription-IsLocal :
        (port index : ℤ) (s : Subscription)
        → IsLocal w (run_subscription url_parse vmess_json w port index s)
    unfolding run_subscription
    run_subscription-IsLocal port index empty_subscription = tt
    run_subscription-IsLocal port index no_nodes_found = tt
    run_subscription-IsLocal port index (links uris) =
        run_picked-IsLocal port (pick_node url_parse vmess_json uris [] index)
    run_subscription-IsLocal port index (outbounds obs) =
        run_picked-IsLocal port (pick_node url_parse vmess_json [] obs index)

    run_payload-IsLocal :
        (port index : ℤ) (raw : Option Str)
        → IsLocal w (run_payload url_parse vmess_json w port index raw)
    unfolding run_payload
    run_payload-IsLocal port index none = tt
    run_payload-IsLocal port index (some raw) =
        run_subscription-IsLocal port index (parse_subscription w.maps w.outbounds_of raw)

    -- With a link, a subscription or a configuration for sing-box, a start gives a proxy only when
    -- sing-box was started with a configuration that it accepted, and then the proxy on this host at
    -- the port where it is ready: it never falls back to the proxy of the environment, nor to none.
    pub start-IsLocal :
        (cfg : Config) → HasSource cfg → IsLocal w (start url_parse vmess_json w cfg)
    unfolding start
    start-IsLocal cfg h =
        let port =
          if leb_ℤ cfg.upstream_singbox_port (pos 0)
          then pos 10800
          else cfg.upstream_singbox_port in
        choice_of (IsLocal w) (not (is_empty cfg.upstream_singbox_uri))
          (λ y.
            run_link-IsLocal port (parse_node_uri url_parse vmess_json cfg.upstream_singbox_uri))
          (λ a.
            choice_of (IsLocal w) (not (is_empty cfg.upstream_subscription))
              (λ y.
                run_payload-IsLocal port cfg.upstream_singbox_index
                  (w.fetched cfg.upstream_subscription))
              (λ b.
                choice_of (IsLocal w) (not (is_empty cfg.upstream_singbox_config))
                  (λ y. run_raw-IsLocal port _)
                  (λ c. absurd (
                    none_left (is_empty cfg.upstream_singbox_uri)
                      (is_empty cfg.upstream_subscription) (is_empty cfg.upstream_singbox_config) h
                      a b c))))
