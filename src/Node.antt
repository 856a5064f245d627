-- ===== src/Node.antt =====
-- internal/node/node.go: the node record and its rankings. Nodes are values: what a caller writes
-- through a pointer is a new record here. `k` of `top_by_latency` is not negative; Go panics there.
pub mod Ranking
pub mod Examples
use conduitvpn.Base.{
  ℕ, ◌++◌, Bool, ◌&&◌, List, ltb, length, take, if◌then◌else◌, keep, Str, codes, ℤ, pos, ltb_ℤ,
  sort_stable,
}

pub record Node : Type 0 where
  pub host_name : Str
  pub ip : Str
  pub score : ℤ
  pub ping : ℤ
  pub speed : ℤ
  pub country_long : Str
  pub country_short : Str
  pub sessions : ℤ
  pub uptime : ℤ
  pub log_type : Str
  pub operator : Str
  pub message : Str
  pub config_text : Str
  pub remote_host : Str
  pub remote_port : ℤ
  pub remote_proto : Str
  pub latency_ms : ℤ
  pub tested : Bool

abbrev pub higher_score : Node → Node → Bool
higher_score a b = ltb_ℤ b.score a.score

abbrev pub lower_latency : Node → Node → Bool
lower_latency a b = ltb_ℤ a.latency_ms b.latency_ms

abbrev pub is_reachable : Node → Bool
is_reachable n = n.tested && ltb_ℤ (pos 0) n.latency_ms

unfoldable pub sort_by_score : List Node → List Node
sort_by_score nodes = sort_stable higher_score nodes

unfoldable pub top_by_latency : List Node → ℕ → List Node
top_by_latency nodes k =
    let tested = sort_stable lower_latency (keep is_reachable nodes) in
    if ltb k (length tested) then take k tested else tested
