-- ===== src/Upstream/Examples.antt =====
-- A share link, subscriptions and a start, and the theorems at them.
use conduitvpn.Upstream.{Params}
use conduitvpn.Upstream.Start.{start, World}
use conduitvpn.Upstream.Subscription.{
  panicked, from_end, with_node_tag, pick_node, uris_of, linked, some_uris, Map, parse_subscription,
}
use conduitvpn.Base.{
  ℕ, ◌≡◌, refl, true, Option, none, some, List, [], ◌∷◌, ◌++◌, arith, if◌then◌else◌, length, Str,
  codes, str_eq, trim_space, contains, pos, negsuc, atoi, split_host_port,
}
use conduitvpn.Config.{load}
use conduitvpn.Config.{Env}
use conduitvpn.State.Base64.Padded.{encode_std}
use conduitvpn.Upstream.Links.{parse_node_uri, shadowsocks, parse_ss, Url, ok}
use conduitvpn.State.Base64
use conduitvpn.State.Base64.Padded.{decode_std}
use conduitvpn.Upstream.Encoding.{path_unescape, b64_decode, of_url_char}
use conduitvpn.Upstream.Start.Guarded.{IsLocal, HasSource, start-IsLocal}
use conduitvpn.Upstream.Subscription.Picking.{IsPick, pick_node-IsPick}
use conduitvpn.Upstream.Wrapped.{ss_link, parse_ss-ss_link, parse_subscription-encode_std}

abbrev password : Str
password = codes "p%40"

escaped_at : path_unescape password ≡ some (codes "p@")
unfolding path_unescape
escaped_at = refl

address_parts : split_host_port (codes "h:8388") ≡ some (codes "h", codes "8388")
unfolding split_host_port
address_parts = refl

address_port : atoi (codes "8388") ≡ some (pos 8388)
unfolding atoi
address_port = refl

parse_ss-ss_link_example :
    parse_ss (ss_link (codes "aes") password (codes "h:8388") (codes "t"))
    ≡ ok (shadowsocks (codes "h") (pos 8388) (codes "t") (codes "aes") (codes "p@"))
parse_ss-ss_link_example =
    parse_ss-ss_link (codes "aes") password (codes "p@") (codes "h:8388") (codes "t") (codes "h")
      (codes "8388") (pos 8388)
      (
        omega arith,
        (
          omega arith,
          (
            omega arith,
            (omega arith, (omega arith, (omega arith, (omega arith, (omega arith, tt))))),
          ),
        ),
      )
      refl escaped_at refl refl refl address_parts address_port

abbrev no_maps : Str → Option (List Map)
no_maps s = none

payload_link : contains (codes "a://") (codes "://") ≡ true
unfolding contains
payload_link = refl

parse_subscription-encode_std_example :
    parse_subscription no_maps no_maps (encode_std (codes "a://"))
    ≡ some_uris (uris_of (codes "a://"))
parse_subscription-encode_std_example =
    parse_subscription-encode_std no_maps no_maps (codes "a://")
      (omega arith, (omega arith, (omega arith, (omega arith, tt)))) payload_link

abbrev no_url : Str → Option Url
no_url s = none

abbrev no_json : List ℕ → Option Params
no_json s = none

pick_node-IsPick_example :
    ((uri : Str) (uris : List Str) (objs : List Map)
      → IsPick
          (uri ∷ uris)
          (negsuc 0)
          (λ x. linked x (parse_node_uri no_url no_json x))
          (pick_node no_url no_json (uri ∷ uris) objs (negsuc 0)))
    × ((o : Map) (objs : List Map)
        → IsPick
            (o ∷ objs)
            (negsuc 0)
            (λ x. with_node_tag (from_end (negsuc 0) (length (o ∷ objs))) x)
            (pick_node no_url no_json [] (o ∷ objs) (negsuc 0)))
pick_node-IsPick_example = pick_node-IsPick no_url no_json (negsuc 0)

abbrev world : World
world = record {
  fetched = λ s. none;
  maps = no_maps;
  outbounds_of = no_maps;
  map_of = λ s. none;
  valid = λ s. true;
  read_file = λ s. none;
  written = λ c. true;
  runs = λ c p. true;
}

abbrev link_env : Env
link_env key = if str_eq key (codes "UPSTREAM_SINGBOX_URI") then codes "ss://YTpi@h:1" else []

link_source : HasSource (load link_env none)
unfolding load str_eq
link_source = refl

start-IsLocal_example : IsLocal world (start no_url no_json world (load link_env none))
start-IsLocal_example = start-IsLocal world no_url no_json (load link_env none) link_source

-- A line break in the text counts for the padding.
broken_lines_refused : b64_decode (codes "YWJj" ++ (10 ∷ codes "ZA==")) ≡ none
unfolding b64_decode trim_space decode_std Base64.decode of_url_char
broken_lines_refused = refl

null_node_panics : pick_node no_url no_json [] (none ∷ []) (pos 0) ≡ panicked
unfolding pick_node
null_node_panics = refl
