-- ===== src/Manager/Examples.antt =====
-- A supervisor in host mode with one node, whose handshake fails, and the theorems at it.
use conduitvpn.Base.{
  ℕ, ◌≤◌, ◌+◌, ◌≡◌, refl, ◌≢◌, ◌↔◌, ◌⊎◌, true, false, none, some, List, [], ◌∷◌, ◌++◌, map,
  if◌then◌else◌, length, All, Elem, Str, codes, str_eq, Dict, lookup, pos,
}
use conduitvpn.Node.{Node}
use conduitvpn.Manager.{
  fetching, set_state, idle, canceled, health_degraded, BlacklistEntry, Manager, is_blacklisted,
  is_fixed_node, set_route_config, probe_tick, restore_call, Attempt,
}
use conduitvpn.Manager.Connect.{
  prepare_files, connect_and_verify, watching, lost, monitor, Outcome, exhausted, monitoring,
  try_node, connect_loop,
}
use conduitvpn.Manager.{test_passed, BlacklistTestStatus, tidy, select_candidates}
use conduitvpn.Manager.Verification.{
  waiting, hosts_of, start_blacklist_test, run_blacklist_test, restore_available_blacklist,
}
use conduitvpn.Manager.Verification.Results.{IsFinished, run_blacklist_test-IsFinished}
use conduitvpn.Manager.Verification.Restoring.{restore_available_blacklist_lem, passed_in}
use conduitvpn.Manager.Routing.{IsRoute, set_route_config_lem, select_candidates-fixed}
use conduitvpn.Manager.Connect.Launches.{IsChecked, connect_loop-IsChecked}
use conduitvpn.Manager.Connect.Blacklisting.{IsMarked, connect_loop-blacklist}
use conduitvpn.Manager.Connect.Closing.{
  IsClosed, IsJudged, connect_and_verify-IsJudged, connect_loop-IsClosed,
}
use conduitvpn.Manager.Connect.Health.{has_run, monitor-has_run}
use conduitvpn.Config.{load}
use conduitvpn.Config.Examples.{host_env}
use conduitvpn.Node.Examples.{sample}
use conduitvpn.Vpngate.Profile.Examples.{address, small_profile, small_profile_accepted}
use conduitvpn.Manager.Start.{new_manager, new_manager-IsClosed}
use conduitvpn.Manager.Run.{
  Round, fetch_failed, time_passed, refresh_asked, run, rounds, started, returned, no_requests,
  fetch_and_bench, wait, requests_at, trigger_fetch,
}
use conduitvpn.Manager.Run.Stopping.{Some, Stops, Called, run-Stops}

abbrev pub tokyo : Node
tokyo = record (sample (codes "tokyo") (pos 5) (pos 20) true) {
  ip = address;
  config_text = small_profile;
}

abbrev job : BlacklistTestStatus
job = record {
  running = false;
  started_at = [];
  finished_at = [];
  total = 1;
  completed = 1;
  results = record (waiting (codes "seoul")) { status = test_passed } ∷ [];
}

abbrev seoul_entry : BlacklistEntry
seoul_entry = record { reason = canceled; marked_at = [] }

abbrev manager : Manager
manager = record {
  cfg = load host_env none;
  egress = record { mode = codes "host"; device = []; ready = false };
  tun = none;
  state = idle;
  state_detail = [];
  current = none;
  blacklist = (codes "seoul", seoul_entry) ∷ [];
  blacklist_test = job;
  route = record { mode = codes "fixed"; country = []; node = codes "tokyo" };
  mode_ch = false;
  stored_blacklist = [];
  stored_route = none;
  launched = [];
  released = [];
  demo = false;
}

-- The handshake fails.
abbrev refusing : Attempt
refusing = record {
  calls_before = [];
  -- The host that passed its test is restored.
  calls = restore_call true ∷ [];
  cancelled = false;
  files_written = none;
  started = none;
  handshake = some (codes "timeout");
  device = codes "tun0";
  interface = none;
  host_route = none;
  settled = true;
  probe = λ i. none;
  slept = λ i. true;
  events = [];
  saved = true;
  now = codes "2026-01-01T00:00:00Z";
}

abbrev world : ℕ → Attempt
world i = refusing

abbrev after : Outcome × Manager
after = connect_loop world 0 (tokyo ∷ []) manager

host_manager : str_eq manager.cfg.network_mode (codes "host") ≡ true
unfolding load str_eq
host_manager = refl

all_fail : after.0 ≡ exhausted
unfolding connect_loop try_node is_blacklisted is_fixed_node lookup str_eq connect_and_verify
    prepare_files
all_fail = rw small_profile_accepted refl

connect_loop-IsChecked_example : All (IsChecked (tokyo ∷ [])) after.1.launched
connect_loop-IsChecked_example = connect_loop-IsChecked world (tokyo ∷ []) manager refl

connect_loop-blacklist_example :
    ((h : Str) → IsMarked h manager → IsMarked h after.1)
    × ((h : Str)
        → All (λ n. str_eq n.host_name h ≡ false) (tokyo ∷ [])
        → (lookup h after.1.blacklist ≡ lookup h manager.blacklist)
          ⊎ (lookup h after.1.blacklist ≡ none))
    × (after.0 ≡ exhausted → All (λ n. IsMarked n.host_name after.1) (tokyo ∷ []))
connect_loop-blacklist_example = connect_loop-blacklist world (tokyo ∷ []) manager

over : after.0 ≢ monitoring
over e = absurd (cc (all_fail, e))

connect_loop-IsClosed_example : IsClosed after.1
unfolding str_eq
connect_loop-IsClosed_example =
    connect_loop-IsClosed world (tokyo ∷ []) manager (λ k j. refl) host_manager (refl, refl) over

connect_and_verify-IsJudged_example : IsJudged refusing (connect_and_verify tokyo refusing manager)
unfolding str_eq
connect_and_verify-IsJudged_example =
    connect_and_verify-IsJudged tokyo refusing manager host_manager (refl, refl)

three_fails : manager.cfg.health_max_fails ≡ pos 3
unfolding load str_eq
three_fails = refl

monitor-has_run_example :
    (monitor tokyo (map probe_tick (none ∷ some (codes "down") ∷ none ∷ [])) manager).0 ≡ (
      if has_run 3 (none ∷ some (codes "down") ∷ none ∷ []) then lost health_degraded else watching)
monitor-has_run_example =
    monitor-has_run tokyo (none ∷ some (codes "down") ∷ none ∷ []) 2 manager three_fails

set_route_config_example :
    ((set_route_config (codes "Country") (codes "jp") [] true none manager).0 ≡ none
      ↔ IsRoute (tidy (codes "Country") (codes "jp") []))
    × ((set_route_config (codes "Country") (codes "jp") [] true none manager).0 ≢ none
        → (set_route_config (codes "Country") (codes "jp") [] true none manager).1 ≡ manager)
    × ((set_route_config (codes "Country") (codes "jp") [] true none manager).0 ≡ none
        → ((set_route_config (codes "Country") (codes "jp") [] true none manager).1.route
            ≡ tidy (codes "Country") (codes "jp") [])
          × ((set_route_config (codes "Country") (codes "jp") [] true none manager).1.mode_ch
              ≡ true)
          × ((set_route_config (codes "Country") (codes "jp") [] true none manager).1.stored_route
              ≡ some (tidy (codes "Country") (codes "jp") [])))
set_route_config_example = set_route_config_lem (codes "Country") (codes "jp") [] true none manager

select_candidates-fixed_example :
    (length (select_candidates manager (tokyo ∷ [])) ≤ 1)
    × All
        (λ n. Elem n (tokyo ∷ []) × (is_fixed_node manager n ≡ true))
        (select_candidates manager (tokyo ∷ []))
    × (select_candidates manager (tokyo ∷ []) ≡ []
        → All (λ n. is_fixed_node manager n ≡ false) (tokyo ∷ []))
select_candidates-fixed_example = select_candidates-fixed manager (tokyo ∷ []) refl refl

abbrev known : Dict Node
known = (codes "seoul", tokyo) ∷ []

run_blacklist_test-IsFinished_example :
    IsFinished
      (λ i n. none)
      (λ i. [])
      known
      []
      (codes "seoul" ∷ [])
      (run_blacklist_test
        (λ i n. none)
        (λ i. [])
        known
        (hosts_of manager)
        (start_blacklist_test [] manager).1).blacklist_test
run_blacklist_test-IsFinished_example =
    run_blacklist_test-IsFinished (λ i n. none) (λ i. []) known [] manager refl

restore_available_blacklist_example :
    ((h : Str)
      → lookup h (restore_available_blacklist true manager).1.blacklist
        ≡ (if passed_in h job.results then none else lookup h manager.blacklist))
    × (((restore_available_blacklist true manager).1 ≡ manager)
        ⊎ ((restore_available_blacklist true manager).1.stored_blacklist
            ≡ (restore_available_blacklist true manager).1.blacklist))
restore_available_blacklist_example = restore_available_blacklist_lem manager refl

-- A fetch that fails, during which TriggerFetch is called.
abbrev lost_round : Round
lost_round = record {
  ended_before = false;
  ended_fetching = false;
  ended_connecting = false;
  asked_before = false;
  asked_during = true;
  answer = fetch_failed none;
  world = world;
  pause = time_passed;
}

abbrev quiet_round : Round
quiet_round = record lost_round { asked_during = false }

-- The first wait passes, the second one finds the token.
refreshed :
    run none (quiet_round ∷ lost_round ∷ quiet_round ∷ []) manager no_requests
    ≡ started (1, returned (set_state fetching [] manager))
unfolding run fetch_and_bench wait requests_at trigger_fetch
refreshed = refl

run-Stops_example :
    ((k : ℕ) (t : Manager)
      → run none (quiet_round ∷ lost_round ∷ quiet_round ∷ []) manager no_requests
        ≡ started (k, returned t)
      → (false ≡ true) ⊎ Some Stops (quiet_round ∷ lost_round ∷ quiet_round ∷ []))
    × ((earlier later : List Round) (r : Round)
        → quiet_round ∷ lost_round ∷ quiet_round ∷ [] ≡ earlier ++ r ∷ later
        → (Called r
            → (rounds (quiet_round ∷ lost_round ∷ quiet_round ∷ []) manager no_requests).0
              ≤ length earlier)
          × (r.pause ≡ refresh_asked
              → (rounds (quiet_round ∷ lost_round ∷ quiet_round ∷ []) manager no_requests).0
                ≤ length earlier + length later))
run-Stops_example =
    run-Stops (quiet_round ∷ lost_round ∷ quiet_round ∷ []) manager no_requests (λ e. cc)

host_mode_set : (load host_env none).network_mode ≡ codes "host"
unfolding load str_eq
host_mode_set = refl

new_manager-IsClosed_example :
    IsClosed (new_manager (load host_env none) none none)
    × ((connect_loop world 0 (tokyo ∷ []) (new_manager (load host_env none) none none)).0
          ≢ monitoring
        → IsClosed
            (connect_loop world 0 (tokyo ∷ []) (new_manager (load host_env none) none none)).1)
new_manager-IsClosed_example =
    new_manager-IsClosed (load host_env none) none none world (tokyo ∷ []) host_mode_set
      (λ k j. refl)
