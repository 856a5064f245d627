-- ===== src/Manager/Start.antt =====
-- New, loadBlacklist and Snapshot of internal/manager/manager.go: the supervisor before its first round.
use conduitvpn.Base.{
  ℕ, ◌≡◌, refl, ap, ◌∙◌, ◌≢◌, true, false, not, Option, none, some, List, [], if◌then◌else◌, length,
  Str, codes, is_empty, str_eq, Dict,
}
use conduitvpn.Node.{Node}
use conduitvpn.Config.{Config}
use conduitvpn.Manager.{State, idle, BlacklistEntry, Route, Manager, Attempt}
use conduitvpn.Manager.Connect.{monitoring, connect_loop}
use conduitvpn.Egress.{new_controller}
use conduitvpn.Manager.{BlacklistTestStatus}
use conduitvpn.Manager.Connect.Closing.{IsClosed, connect_loop-IsClosed}

-- `none` where the file cannot be read.
abbrev pub load_blacklist : Option (Dict BlacklistEntry) → Manager → Manager
load_blacklist none m = m
load_blacklist (some bl) m = record m { blacklist = bl }

abbrev pub configured_route : Config → Route
configured_route cfg = record {
  mode = cfg.route_mode;
  country = cfg.route_country;
  node = cfg.route_node;
}

-- The stored route wins over the configuration where it names a mode.
abbrev pub initial_route : Config → Option Route → Route
initial_route cfg none = configured_route cfg
initial_route cfg (some r) = if not (is_empty r.mode) then r else configured_route cfg

abbrev pub no_job : BlacklistTestStatus
no_job = record {
  running = false;
  started_at = [];
  finished_at = [];
  total = 0;
  completed = 0;
  results = [];
}

abbrev pub or_empty : Option (Dict BlacklistEntry) → Dict BlacklistEntry
or_empty none = []
or_empty (some bl) = bl

-- The files hold what is read from them.
unfoldable pub new_manager : Config → Option Route → Option (Dict BlacklistEntry) → Manager
unfolding new_controller
new_manager cfg stored_route stored_blacklist = load_blacklist stored_blacklist (record {
  cfg = cfg;
  egress = new_controller cfg.network_mode;
  tun = none;
  state = idle;
  state_detail = [];
  current = none;
  blacklist = [];
  blacklist_test = no_job;
  route = initial_route cfg stored_route;
  mode_ch = false;
  stored_blacklist = or_empty stored_blacklist;
  stored_route = stored_route;
  launched = [];
  released = [];
  demo = false;
})

pub record Snapshot : Type 0 where
  pub state : State
  pub detail : Str
  pub current_node : Option Node
  pub blacklist_count : ℕ
  pub route_mode : Str
  pub route_country : Str
  pub route_node : Str

-- The uptime is left out.
abbrev pub snapshot : Manager → Snapshot
snapshot m = record {
  state = m.state;
  detail = m.state_detail;
  current_node = m.current;
  blacklist_count = length m.blacklist;
  route_mode = m.route.mode;
  route_country = m.route.country;
  route_node = m.route.node;
}

new_manager-tests :
    (cfg : Config) (r : Option Route) (bl : Option (Dict BlacklistEntry))
    → cfg.network_mode ≡ codes "host"
    → ((new_manager cfg r bl).egress.mode ≡ codes "host")
      × ((new_manager cfg r bl).egress.ready ≡ false)
unfolding new_manager str_eq
new_manager-tests cfg r none h = (h, ap (λ t. str_eq t (codes "container")) h)
new_manager-tests cfg r (some bl) h = (h, ap (λ t. str_eq t (codes "container")) h)

new_manager-cfg :
    (cfg : Config) (r : Option Route) (bl : Option (Dict BlacklistEntry))
    → (new_manager cfg r bl).cfg ≡ cfg
unfolding new_manager
new_manager-cfg cfg r none = refl
new_manager-cfg cfg r (some bl) = refl

-- In host mode the supervisor starts with its egress closed, before and after the first connectLoop
-- over any candidates (if that is over, and no pause between two probes was cut short).
pub new_manager-IsClosed :
    (cfg : Config) (r : Option Route) (bl : Option (Dict BlacklistEntry)) (world : ℕ → Attempt)
    (nodes : List Node)
    → cfg.network_mode ≡ codes "host"
    → ((k j : ℕ) → (world k).slept j ≡ true)
    → IsClosed (new_manager cfg r bl)
      × ((connect_loop world 0 nodes (new_manager cfg r bl)).0 ≢ monitoring
          → IsClosed (connect_loop world 0 nodes (new_manager cfg r bl)).1)
unfolding str_eq
new_manager-IsClosed cfg r bl world nodes h s =
    let (mode, ready) = new_manager-tests cfg r bl h in
    let closed : IsClosed (new_manager cfg r bl) =
      (ap (λ t. str_eq t (codes "host")) mode, ready) in
    let host : str_eq (new_manager cfg r bl).cfg.network_mode (codes "host") ≡ true =
      ap (λ (c : Config). str_eq c.network_mode (codes "host")) (new_manager-cfg cfg r bl)
      ∙ ap (λ t. str_eq t (codes "host")) h in
    (closed, λ ne. connect_loop-IsClosed world nodes (new_manager cfg r bl) s host closed ne)
