-- ===== src/Manager/Run.antt =====
-- Run, fetchAndBench, wait and TriggerFetch of internal/manager/manager.go. One round of Run meets a
-- `Round`: what the fetch, the parser and the benchmark return, when TriggerFetch is called, how the
-- wait at its end is cut short, and the attempts of connectLoop. Run goes on for as long as rounds are
-- given. Run does not run in a demo.
pub mod Stopping
use conduitvpn.Base.{
  choice, ℕ, zero, suc, ◌+◌, ◌-◌, ◌*◌, ◌/◌, ◌%◌, ◌^◌, ◌≤◌, ◌<◌, ◌≡◌, refl, sym, ap, ◌∙◌, subst, ◌≢◌,
  ◌↔◌, ◌⊎◌, inl, inr, Bool, true, false, not, ◌&&◌, ◌||◌, Option, none, some, List, [], ◌∷◌, ◌++◌,
  map, arith, ltb, leb, ◌==◌, if◌then◌else◌, is_some, ==_iff, Bool-cases, Option-cases, length,
  get_elem?, set, take, drop, any, keep, All, Elem, length-append, length-drop, length-take,
  length-set, All-Elem, Elem-append_left, Elem-append_last, Str, codes, is_empty, str_eq,
  str_eq_iff, str_eq_refl, trim_space, trim, to_upper, to_lower, has_prefix, trim_prefix, contains,
  split, fields, join, one_of, one_of_sound, one_of_complete, to_upper_idem, Dict, lookup, insert,
  delete, keys, lookup-insert, lookup-delete, ℤ, pos, negsuc, ltb_ℤ, leb_ℤ, add_ℕ, sort_stable,
  IsSorted, atoi, sprint, parse_ip, to4, is_loopback,
}
use conduitvpn.Node.{Node, sort_by_score}
use conduitvpn.Config.{Config}
use conduitvpn.Egress.{Controller, EgressError, configure, clear}
use conduitvpn.Vpngate.Profile.{ProfileError, Checked, ok, err, validate_profile}
use conduitvpn.Manager.{
  State, idle, fetching, connecting, connected, drifting, Failure, unsafe_profile, prepare_failed,
  spawn_failed, handshake_failed, egress_failed, canceled, events_closed, health_degraded,
  probe_degraded, openvpn_exited, BlacklistEntry, Route, Launch, Manager, set_state, is_blacklisted,
  is_fixed_node, mark_blacklisted, set_route_config, Event, context_done, mode_ready, events_end,
  other_event, exit_event, probe_tick, latency_tick, Attempt, stop_tunnel, stop_process,
}
use conduitvpn.Manager.Connect.{
  Verdict, after_probe, first_probes, tries, settle, after_configure, after_handshake, after_start,
  written, checked, prepare_files, after_prepare, connect_and_verify, End, stopped, mode_changed,
  watching, lost, with_latency, measure_live_latency, watch, monitor, Outcome, cancelled_loop,
  route_changed, exhausted, monitoring, after_monitor, after_connect, try_node, connect_loop,
}
use conduitvpn.Manager.{select_candidates}

pub data Fetched : Type 0 where
  -- The stored nodes, where LoadNodes succeeds.
  fetch_failed : Option (List Node) → Fetched
  parse_failed : Fetched
  -- The parsed nodes, and what the benchmark makes of the ones it is given.
  fetched : List Node → (List Node → List Node) → Fetched

-- `refreshReq`, and whether a token waits in `refreshCh`.
pub record Requests : Type 0 where
  pub asked : Bool
  pub token : Bool

-- What New leaves.
abbrev pub no_requests : Requests
no_requests = record { asked = false; token = false }

-- TriggerFetch outside a demo; a token that finds another one in the channel is dropped.
unfoldable pub trigger_fetch : Requests → Requests
trigger_fetch q = if q.asked then q else record { asked = true; token = true }

-- How a wait goes on: the context ends, TriggerFetch is called, or neither until its time is up.
pub data Wait : Type 0 where
  context_ended refresh_asked time_passed : Wait

pub record Round : Type 0 where
  -- ctx.Err() at the head of the loop, after the fetch and after connectLoop.
  pub ended_before : Bool
  pub ended_fetching : Bool
  pub ended_connecting : Bool
  -- TriggerFetch is called before `refreshReq` is cleared, and between that and the wait.
  pub asked_before : Bool
  pub asked_during : Bool
  pub answer : Fetched
  pub world : ℕ → Attempt
  pub pause : Wait

-- `candidates[:MaxScanRows]`; Go panics on a negative bound.
abbrev pub scan_rows : ℤ → List Node → Option (List Node)
scan_rows (pos k) nodes = some (if ltb k (length nodes) then take k nodes else nodes)
scan_rows (negsuc k) nodes = none

abbrev pub benchmarked : (List Node → List Node) → Option (List Node) → Option (List Node)
benchmarked bench none = none
benchmarked bench (some nodes) = some (bench nodes)

abbrev pub pool : Config → Fetched → Option (List Node)
pool cfg (fetch_failed none) = some []
pool cfg (fetch_failed (some stored)) = some stored
pool cfg parse_failed = some []
pool cfg (fetched nodes bench) =
    benchmarked bench (scan_rows cfg.max_scan_rows (sort_by_score nodes))

-- No nodes where it panics.
unfoldable pub fetch_and_bench : Fetched → Manager → Option (List Node) × Manager
unfolding sort_by_score
fetch_and_bench answer m = (pool m.cfg answer, set_state fetching [] m)

abbrev pub take_token : Requests → Bool × Requests
take_token q = (not q.token, record q { token = false })

-- Whether the loop goes on; a token that waits already is taken at once.
unfoldable pub wait : Wait → Requests → Bool × Requests
unfolding trigger_fetch
wait context_ended q = (false, q)
wait refresh_asked q = take_token (trigger_fetch q)
wait time_passed q = take_token q

-- How a round ends.
pub data Step : Type 0 where
  -- Run returns nil.
  returned : Manager → Step
  -- The next round follows, after a wait that passed (`true`) or a change of the route.
  again : Bool → Manager → Requests → Step
  -- A tunnel is up and its monitor runs.
  held : Manager → Step
  panicked : Step

abbrev pub after_wait : Bool × Requests → Manager → Step
after_wait (true, q) m = again true m q
after_wait (false, q) m = returned m

abbrev pub after_loop : Round → Requests → Outcome × Manager → Step
after_loop r q (monitoring, m) = held m
after_loop r q (route_changed, m) = if r.ended_connecting then returned m else again false m q
after_loop r q (o, m) =
    if r.ended_connecting
    then returned m
    else after_wait (wait r.pause q) (set_state drifting (codes "all candidates exhausted") m)

-- The requests when a round comes to its wait.
unfoldable pub requests_at : Round → Requests → Requests
unfolding trigger_fetch
requests_at r q =
    let before = if r.asked_before then trigger_fetch q else q in
    let cleared = record before { asked = false } in
    if r.asked_during then trigger_fetch cleared else cleared

abbrev pub after_fetch : Round → Requests → Option (List Node) × Manager → Step
after_fetch r q (none, m) = panicked
after_fetch r q (some nodes, m) =
    if r.ended_fetching
    then returned m
    else if length nodes == 0
    then after_wait (wait r.pause q) m
    else if length (select_candidates m nodes) == 0
    then after_wait (wait r.pause q) m
    else after_loop r q (connect_loop r.world 0 (select_candidates m nodes) m)

unfoldable pub round : Round → Manager → Requests → Step
unfolding fetch_and_bench wait select_candidates connect_loop requests_at
round r m q =
    if r.ended_before
    then returned m
    else after_fetch r (requests_at r q) (fetch_and_bench r.answer m)

-- The number of waits that passed, and how the last round ended.
abbrev pub counted : Bool → ℕ × Step → ℕ × Step
counted waited (k, s) = ((if waited then suc k else k), s)

abbrev pub after_round : Step → (Manager → Requests → ℕ × Step) → ℕ × Step
after_round (again waited m q) next = counted waited (next m q)
after_round (returned m) next = (0, returned m)
after_round (held m) next = (0, held m)
after_round panicked next = (0, panicked)

-- The loop of Run; without more rounds it is at the head of the next one.
unfoldable pub rounds : List Round → Manager → Requests → ℕ × Step
unfolding round
rounds [] m q = (0, again false m q)
rounds (r ∷ rs) m q = after_round (round r m q) (rounds rs)

pub data Course : Type 0 where
  not_started : Str → Course
  started : ℕ × Step → Course

-- Run, with the error of upstream.Start, if it has one.
unfoldable pub run : Option Str → List Round → Manager → Requests → Course
unfolding rounds
run (some e) rs m q = not_started e
run none rs m q = started (rounds rs m q)
