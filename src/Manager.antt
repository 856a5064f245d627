-- ===== src/Manager.antt =====
-- internal/manager/manager.go: the supervisor. Its state is a record that the operations take and
-- return. What the outside answers during one pass of connectLoop (the context, the file system, the
-- openvpn process, the probes, the ready channels of the monitor, the calls of the web interface) is
-- the record `Attempt`. `launched` and `released` stand for effects: the openvpn processes started and the hosts
-- taken off the blacklist so far.
pub mod Routing
pub mod Connect
pub mod Verification
pub mod Run
pub mod Trial
pub mod Start
mod Examples
use conduitvpn.Base.{
  ℕ, zero, suc, ◌+◌, ◌-◌, ◌*◌, ◌/◌, ◌%◌, ◌^◌, ◌≤◌, ◌<◌, ◌≡◌, refl, sym, ap, ◌∙◌, subst, ◌≢◌, ◌↔◌,
  ◌⊎◌, inl, inr, Bool, true, false, not, ◌&&◌, ◌||◌, Option, none, some, List, [], ◌∷◌, ◌++◌, map,
  arith, ltb, leb, ◌==◌, if◌then◌else◌, is_some, ==_iff, Bool-cases, Option-cases, length,
  get_elem?, set, take, drop, any, keep, All, Elem, length-append, length-drop, length-take,
  length-set, All-Elem, Elem-append_left, Elem-append_last, Str, codes, is_empty, str_eq,
  str_eq_iff, str_eq_refl, trim_space, trim, to_upper, to_lower, has_prefix, trim_prefix, contains,
  split, fields, join, one_of, one_of_sound, one_of_complete, to_upper_idem, Dict, lookup, insert,
  delete, keys, lookup-insert, lookup-delete, ℤ, pos, negsuc, ltb_ℤ, leb_ℤ, add_ℕ, sort_stable,
  IsSorted, atoi, sprint, parse_ip, to4, is_loopback,
}
use conduitvpn.Node.{Node}
use conduitvpn.Config.{Config}
use conduitvpn.Egress.{Controller, EgressError, configure, clear}
use conduitvpn.Vpngate.Profile.{ProfileError, validate_profile}

pub data State : Type 0 where
  idle fetching connecting connected drifting : State

pub data Failure : Type 0 where
  unsafe_profile : ProfileError → Failure
  prepare_failed spawn_failed handshake_failed : Str → Failure
  egress_failed : EgressError → Failure
  canceled events_closed health_degraded : Failure
  probe_degraded : Option Str → Failure
  openvpn_exited : Str → Failure

pub record BlacklistEntry : Type 0 where
  pub reason : Failure
  pub marked_at : Str

pub record Route : Type 0 where
  pub mode : Str
  pub country : Str
  pub node : Str

pub record Launch : Type 0 where
  pub host : Str
  pub config : Str
  pub no_pull : Bool

pub data TestStatus : Type 0 where
  test_pending test_running test_passed test_failed test_skipped : TestStatus

pub record BlacklistTestResult : Type 0 where
  pub host : Str
  pub status : TestStatus
  pub code : Str
  pub error : Str
  pub tested_at : Str

pub record BlacklistTestStatus : Type 0 where
  pub running : Bool
  pub started_at : Str
  pub finished_at : Str
  pub total : ℕ
  pub completed : ℕ
  pub results : List BlacklistTestResult

pub record Manager : Type 0 where
  pub cfg : Config
  pub egress : Controller
  -- The tunnel, and whether its process runs.
  pub tun : Option Bool
  pub state : State
  pub state_detail : Str
  pub current : Option Node
  pub blacklist : Dict BlacklistEntry
  pub blacklist_test : BlacklistTestStatus
  pub route : Route
  -- A value waits in the channel.
  pub mode_ch : Bool
  -- The files blacklist.json and route.json.
  pub stored_blacklist : Dict BlacklistEntry
  pub stored_route : Option Route
  pub launched : List Launch
  -- The hosts that a restore of the blacklist has taken off it.
  pub released : List Str
  pub demo : Bool

abbrev pub set_state : State → Str → Manager → Manager
set_state s detail m = record m { state = s; state_detail = detail }

unfoldable pub is_blacklisted : Manager → Node → Bool
is_blacklisted m n = is_some (lookup n.host_name m.blacklist)

unfoldable pub is_fixed_node : Manager → Node → Bool
is_fixed_node m n =
    not (is_empty m.route.node) && (str_eq n.host_name m.route.node || str_eq n.ip m.route.node)

-- `saved` tells whether the file could be written.
unfoldable pub mark_blacklisted : Node → Failure → Bool → Str → Manager → Manager
mark_blacklisted n reason saved now m =
    let updated = insert n.host_name (record { reason = reason; marked_at = now }) m.blacklist in
    record m {
      blacklist = updated;
      stored_blacklist = if saved then updated else m.stored_blacklist;
    }

pub data RouteError : Type 0 where
  invalid_mode no_country no_node : RouteError

abbrev pub is_mode : Str → Bool
is_mode mode =
    str_eq mode (codes "auto") || str_eq mode (codes "country") || str_eq mode (codes "fixed")

abbrev pub tidy : Str → Str → Str → Route
tidy mode country node = record {
  mode = to_lower (trim_space mode);
  country = to_upper (trim_space country);
  node = trim_space node;
}

abbrev pub wanted : Str → List Str
wanted country =
    keep (λ c. not (is_empty c)) (map (λ c. to_upper (trim_space c)) (split b',' country))

unfoldable pub first_named : Str → List Node → List Node
first_named fixed [] = []
first_named fixed (n ∷ ns) =
    if str_eq n.host_name fixed || str_eq n.ip fixed then n ∷ [] else first_named fixed ns

unfoldable pub select_candidates : Manager → List Node → List Node
unfolding first_named
select_candidates m nodes =
    if str_eq m.route.mode (codes "country")
    then keep (λ n. one_of (wanted m.route.country) (to_upper n.country_short)) nodes
    else if str_eq m.route.mode (codes "fixed")
    then first_named m.route.node nodes
    else nodes

abbrev pub show_first : List Node → Manager → Manager
show_first [] m = set_state drifting (codes "demo route has no matching node") m
show_first (n ∷ ns) m = record m { current = some n; state = connected; state_detail = n.host_name }

unfoldable pub update_demo_current : List Node → Manager → Manager
unfolding select_candidates
update_demo_current nodes m = show_first (select_candidates m nodes) m

-- The end of SetRouteConfig in a demo; `nodes` is what LoadNodes returns.
abbrev pub show_demo : Option (List Node) → Manager → Manager
show_demo none m = m
show_demo (some nodes) m = if m.demo then update_demo_current nodes m else m

unfoldable pub set_route_config :
    Str → Str → Str → Bool → Option (List Node) → Manager → Option RouteError × Manager
unfolding update_demo_current
set_route_config mode country node saved nodes m =
    let r = tidy mode country node in
    if not (is_mode r.mode)
    then (some invalid_mode, m)
    else if str_eq r.mode (codes "country") && is_empty r.country
    then (some no_country, m)
    else if str_eq r.mode (codes "fixed") && is_empty r.node
    then (some no_node, m)
    else (
      none,
      record (show_demo nodes
          (record m { route = r; stored_route = if saved then some r else m.stored_route })) {
            mode_ch = true;
          },
    )

-- What other goroutines do meanwhile: SetRouteConfig and RestoreAvailableBlacklist are called, and
-- the verification job writes how far it is.
pub data Call : Type 0 where
  route_call : Str → Str → Str → Bool → Option (List Node) → Call
  restore_call : Bool → Call
  test_call : BlacklistTestStatus → Call

-- What a `select` of the monitor finds ready, and the calls in between.
pub data Event : Type 0 where
  context_done mode_ready events_end other_event : Event
  exit_event : Str → Event
  probe_tick : Option Str → Event
  -- The measured milliseconds, where the node answered.
  latency_tick : Option ℕ → Event
  other_call : Call → Event

pub record Attempt : Type 0 where
  -- The calls before the node is looked at, and during connectAndVerify.
  pub calls_before : List Call
  pub calls : List Call
  pub cancelled : Bool
  -- Errors of the calls, `none` for success.
  pub files_written : Option Str
  pub started : Option Str
  pub handshake : Option Str
  pub device : Str
  pub interface : Option Str
  pub host_route : Option Str
  -- sleepCtx after the handshake, and after the i-th probe.
  pub settled : Bool
  pub probe : ℕ → Option Str
  pub slept : ℕ → Bool
  pub events : List Event
  pub saved : Bool
  pub now : Str

unfoldable pub stop_tunnel : Manager → Manager
stop_tunnel m = record m { egress = clear m.egress; tun = none }

-- `tun.Stop()` on the local variable, which `m.tun` still points to.
abbrev pub stop_process : Manager → Manager
stop_process m = record m { tun = some false }
