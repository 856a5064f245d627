-- ===== src/Node/Examples.antt =====
-- Rankings of three nodes, and the sample node of the other modules' tests.
use mathlib.Core.List.{Perm}
use conduitvpn.Base.{
  ◌≤◌, ◌≡◌, refl, true, false, Bool, [], ◌∷◌, ◌++◌, length, keep, All, codes, Str, pos, ℤ, IsSorted,
  sort_stable,
}
use conduitvpn.Node.{Node, lower_latency, is_reachable, sort_by_score, top_by_latency}
use conduitvpn.Node.Ranking.{left_out, top_by_latency_lem}

abbrev pub sample : Str → ℤ → ℤ → Bool → Node
sample host score latency tested = record {
  host_name = host;
  ip = codes "203.0.113.10";
  score = score;
  ping = pos 18;
  speed = pos 1;
  country_long = codes "Japan";
  country_short = codes "JP";
  sessions = pos 4;
  uptime = pos 9;
  log_type = [];
  operator = [];
  message = [];
  config_text = [];
  remote_host = codes "203.0.113.10";
  remote_port = pos 1194;
  remote_proto = codes "udp";
  latency_ms = latency;
  tested = tested;
}

abbrev slow : Node
slow = sample (codes "slow") (pos 5) (pos 90) true

abbrev fast : Node
fast = sample (codes "fast") (pos 5) (pos 20) true

abbrev dead : Node
dead = sample (codes "dead") (pos 8) (pos 0) true

sort_by_score_run : sort_by_score (slow ∷ fast ∷ dead ∷ []) ≡ dead ∷ slow ∷ fast ∷ []
unfolding sort_by_score sort_stable
sort_by_score_run = refl

top_by_latency_run : top_by_latency (slow ∷ dead ∷ fast ∷ []) 1 ≡ fast ∷ []
unfolding top_by_latency sort_stable
top_by_latency_run = refl

top_by_latency_example :
    (length (top_by_latency (slow ∷ dead ∷ fast ∷ []) 1) ≤ 1)
    × All (λ n. is_reachable n ≡ true) (top_by_latency (slow ∷ dead ∷ fast ∷ []) 1)
    × IsSorted lower_latency (top_by_latency (slow ∷ dead ∷ fast ∷ []) 1)
    × Perm
        (top_by_latency (slow ∷ dead ∷ fast ∷ []) 1 ++ left_out (slow ∷ dead ∷ fast ∷ []) 1)
        (keep is_reachable (slow ∷ dead ∷ fast ∷ []))
    × All
        (λ n. All (λ m. lower_latency m n ≡ false) (left_out (slow ∷ dead ∷ fast ∷ []) 1))
        (top_by_latency (slow ∷ dead ∷ fast ∷ []) 1)
top_by_latency_example = top_by_latency_lem (slow ∷ dead ∷ fast ∷ []) 1
