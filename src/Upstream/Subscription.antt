-- ===== src/Upstream/Subscription.antt =====
-- internal/upstream/subscription.go: a subscription and the node that is picked of it. What
-- `json.Unmarshal` makes of a text is an argument: a list of objects, or the outbounds of an object;
-- a null in a list is a nil map, which the program can read but not write.
pub mod Picking
use conduitvpn.Base.{
  ℕ, zero, suc, ◌+◌, ◌-◌, ◌*◌, ◌/◌, ◌%◌, ◌^◌, ◌≤◌, ◌<◌, ◌≡◌, refl, sym, ap, ◌∙◌, subst, ◌≢◌, ◌↔◌,
  ◌⊎◌, inl, inr, Bool, true, false, not, ◌&&◌, ◌||◌, Option, none, some, List, [], ◌∷◌, ◌++◌, map,
  arith, ltb, leb, ◌==◌, if◌then◌else◌, is_some, ==_iff, Bool-cases, Option-cases, length,
  get_elem?, set, take, drop, any, keep, All, Elem, length-append, length-drop, length-take,
  length-set, All-Elem, Elem-append_left, Elem-append_last, Str, codes, is_empty, str_eq,
  str_eq_iff, str_eq_refl, trim_space, trim, to_upper, to_lower, has_prefix, trim_prefix, contains,
  split, fields, join, one_of, one_of_sound, one_of_complete, to_upper_idem, Dict, lookup, insert,
  delete, keys, lookup-insert, lookup-delete, ℤ, pos, negsuc, ltb_ℤ, leb_ℤ, add_ℕ, sort_stable,
  IsSorted, atoi, sprint, parse_ip, to4, is_loopback, read_full, reading, on_read, byte_at,
  put_uint16, uint16, read_full-append, has_byte, split_host_port, join_host_port, ip_string,
  cut_first, cut_last, atoi_or_zero,
}
use conduitvpn.Upstream
use conduitvpn.Upstream.{put, Params, text_at, Fields, text}
use conduitvpn.Upstream.Encoding.{b64_decode}
use conduitvpn.Upstream.Links.{LinkError, Result, ok, failed, Url, parse_node_uri}

-- A nil map, or an object.
abbrev pub Map : Type 0
Map = Option Fields

pub data Subscription : Type 0 where
  empty_subscription no_nodes_found : Subscription
  links : List Str → Subscription
  outbounds : List Map → Subscription

abbrev pub type_of : Map → Str
unfolding text_at
type_of none = []
type_of (some o) = text_at (codes "type") o

abbrev pub meta_types : List Str
meta_types =
    codes "direct"
    ∷ codes "block"
    ∷ codes "dns"
    ∷ codes "selector"
    ∷ codes "urltest"
    ∷ codes "socks"
    ∷ codes "http"
    ∷ codes "ssh"
    ∷ []

unfoldable pub filter_node_outbounds : List Map → List Map
unfolding one_of text_at
filter_node_outbounds obs = keep (λ o. not (one_of meta_types (type_of o))) obs

unfoldable pub looks_like_uris : Str → Bool
unfolding contains
looks_like_uris s = contains s (codes "://")

abbrev pub is_link : Str → Bool
unfolding has_prefix
is_link line = not (is_empty line || has_prefix line (codes "#") || has_prefix line (codes "//"))

-- The loop over the lines.
unfoldable pub uris_of : Str → List Str
unfolding split trim_space has_prefix
uris_of s = keep is_link (map trim_space (split 10 s))

abbrev pub some_uris : List Str → Subscription
some_uris [] = no_nodes_found
some_uris (uri ∷ uris) = links (uri ∷ uris)

abbrev pub unwrapped : Str → Option (List ℕ) → Str
unfolding looks_like_uris
unwrapped s none = s
unwrapped s (some decoded) = if looks_like_uris decoded then decoded else s

unfoldable pub parse_text : Str → Subscription
unfolding b64_decode uris_of looks_like_uris
parse_text s = some_uris (uris_of (unwrapped s (b64_decode s)))

abbrev pub parse_json : Option (List Map) → Option (List Map) → Subscription → Subscription
unfolding filter_node_outbounds
parse_json (some arr) full rest = outbounds (filter_node_outbounds arr)
parse_json none (some obs) rest = outbounds (filter_node_outbounds obs)
parse_json none none rest = rest

-- The node, as an object and a label.
pub data Picked : Type 0 where
  picked : Fields → Str → Picked
  bad_link : LinkError → Picked
  out_of_range : ℤ → ℕ → Picked
  subscription_is_empty panicked : Picked

abbrev pub from_end : ℤ → ℕ → ℤ
from_end index n = if ltb_ℤ index (pos 0) then add_ℕ index n else index

-- The element at an index that may be out of range.
abbrev pub elem_at {ℓ} : {A : Type ℓ} → List A → ℤ → Option A
elem_at xs (pos i) = get_elem? xs i
elem_at xs (negsuc i) = none

abbrev pub linked : Str → Result Fields → Picked
linked uri (ok o) = picked o uri
linked uri (failed e) = bad_link e

abbrev pub tag_label : Fields → Str
unfolding text_at
tag_label o = codes "tag=" ++ text_at (codes "tag") o

abbrev sprint_index : ℤ → Str
unfolding sprint
sprint_index (pos n) = sprint n
sprint_index (negsuc n) = codes "-" ++ sprint (suc n)

-- Writing the tag of a nil map panics.
abbrev pub with_node_tag : ℤ → Map → Picked
unfolding text_at put tag_label sprint_index
with_node_tag index none = panicked
with_node_tag index (some o) =
    let named = put (codes "tag") (text (codes "node" ++ sprint_index index)) o in
    if is_empty (text_at (codes "tag") o)
    then picked named (tag_label named)
    else picked o (tag_label o)

abbrev pub picked_map : ℤ → ℕ → Option Map → Picked
unfolding with_node_tag
picked_map index n none = out_of_range index n
picked_map index n (some o) = with_node_tag index o

module _ (url_parse : Str → Option Url) (vmess_json : List ℕ → Option Params) where
  abbrev pub picked_uri : ℤ → ℕ → Option Str → Picked
  unfolding parse_node_uri
  picked_uri index n none = out_of_range index n
  picked_uri index n (some uri) = linked uri (parse_node_uri url_parse vmess_json uri)

  unfoldable pub pick_node : List Str → List Map → ℤ → Picked
  unfolding picked_uri picked_map
  pick_node [] [] index = subscription_is_empty
  pick_node [] (o ∷ objs) index =
      let i = from_end index (length (o ∷ objs)) in
      picked_map i (length (o ∷ objs)) (elem_at (o ∷ objs) i)
  pick_node (uri ∷ uris) objs index =
      let i = from_end index (length (uri ∷ uris)) in
      picked_uri i (length (uri ∷ uris)) (elem_at (uri ∷ uris) i)

module _ (maps outbounds_of : Str → Option (List Map)) where
  unfoldable pub parse_subscription : Str → Subscription
  unfolding trim_space has_prefix parse_json parse_text
  parse_subscription raw =
      let s = trim_space raw in
      if is_empty s
      then empty_subscription
      else if has_prefix s (codes "[") || has_prefix s (codes "{")
      then parse_json (maps s) (outbounds_of s) (parse_text s)
      else parse_text s
