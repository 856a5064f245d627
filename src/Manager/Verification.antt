-- ===== src/Manager/Verification.antt =====
-- The verification job of the blacklist in internal/manager/manager.go, and what it restores. The job
-- runs in one goroutine; of the manager's state it writes the field `blacklist_test` only.
pub mod Ordering
pub mod Results
pub mod Restoring
use conduitvpn.Base.{
  ℕ, zero, suc, ◌+◌, ◌-◌, ◌*◌, ◌/◌, ◌%◌, ◌^◌, ◌≤◌, ◌<◌, ◌≡◌, refl, sym, ap, ◌∙◌, subst, ◌≢◌, ◌↔◌,
  ◌⊎◌, inl, inr, Bool, true, false, not, ◌&&◌, ◌||◌, Option, none, some, List, [], ◌∷◌, ◌++◌, map,
  arith, ltb, leb, ◌==◌, if◌then◌else◌, is_some, ==_iff, Bool-cases, Option-cases, length,
  get_elem?, set, take, drop, any, keep, All, Elem, length-append, length-drop, length-take,
  length-set, All-Elem, Elem-append_left, Elem-append_last, Str, codes, is_empty, str_eq,
  str_eq_iff, str_eq_refl, trim_space, trim, to_upper, to_lower, has_prefix, trim_prefix, contains,
  split, fields, join, one_of, one_of_sound, one_of_complete, to_upper_idem, Dict, lookup, insert,
  delete, keys, lookup-insert, lookup-delete, ℤ, pos, negsuc, ltb_ℤ, leb_ℤ, add_ℕ, sort_stable,
  IsSorted, atoi, sprint, parse_ip, to4, is_loopback,
}
use conduitvpn.Node.{Node}
use conduitvpn.Manager.{
  State, idle, fetching, connecting, connected, drifting, Failure, BlacklistEntry, Route, Launch,
  Manager, set_state, is_blacklisted, is_fixed_node, mark_blacklisted, set_route_config, TestStatus,
  test_pending, test_running, test_passed, test_failed, test_skipped, BlacklistTestResult,
  BlacklistTestStatus, RouteError, invalid_mode, no_country, no_node, is_mode, tidy, wanted,
  first_named, select_candidates, show_first, update_demo_current, show_demo,
}

-- The order of Go's texts.
abbrev pub text_less : Str → Str → Bool
text_less [] [] = false
text_less [] (d ∷ t) = true
text_less (c ∷ s) [] = false
text_less (c ∷ s) (d ∷ t) = let rest = text_less s t in if c == d then rest else ltb c d

abbrev pub waiting : Str → BlacklistTestResult
waiting host = record { host = host; status = test_pending; code = []; error = []; tested_at = [] }

abbrev pub hosts_of : Manager → List Str
hosts_of m = sort_stable text_less (keys m.blacklist)

-- The hosts of the job, or `none` while one runs.
unfoldable pub start_blacklist_test : Str → Manager → Option (List Str) × Manager
start_blacklist_test now m = if m.blacklist_test.running then (none, m) else (
  some (hosts_of m),
  record m {
    blacklist_test = record {
      running = true;
      started_at = now;
      finished_at = [];
      total = length (hosts_of m);
      completed = 0;
      results = map waiting (hosts_of m);
    };
  },
)

unfoldable pub set_blacklist_test_result : ℕ → BlacklistTestResult → Bool → Manager → Manager
set_blacklist_test_result index result completed m =
    let t = m.blacklist_test in
    if leb (length t.results) index then m else record m {
      blacklist_test = record t {
        results = set t.results index result;
        completed = if completed then suc t.completed else t.completed;
      };
    }

abbrev pub judged : Str → Str → Option Str → BlacklistTestResult
judged host now none = record (waiting host) { status = test_passed; tested_at = now }
judged host now (some e) = record (waiting host) {
  status = test_failed;
  code = codes "verification_failed";
  error = e;
  tested_at = now;
}

-- The Go text of the error is left out.
abbrev pub result_of : (Node → Option Str) → Str → Str → Option Node → BlacklistTestResult
result_of verify now host none = record (waiting host) {
  status = test_skipped;
  code = codes "node_not_found";
  tested_at = now;
}
result_of verify now host (some n) = judged host now (verify n)

-- `verify index` is blacklistVerifier at the index-th host, `now index` the time then.
unfoldable pub test_hosts :
    (ℕ → Node → Option Str) → (ℕ → Str) → Dict Node → List Str → ℕ → Manager → Manager
unfolding set_blacklist_test_result lookup
test_hosts verify now by_host [] index m = m
test_hosts verify now by_host (host ∷ hosts) index m =
    test_hosts verify now by_host hosts (suc index) (
      set_blacklist_test_result index
        (result_of (verify index) (now index) host (lookup host by_host)) true
        (set_blacklist_test_result index (record (waiting host) { status = test_running }) false m))

abbrev pub finish : Str → Manager → Manager
finish now m = record m {
  blacklist_test = record m.blacklist_test { running = false; finished_at = now };
}

unfoldable pub run_blacklist_test :
    (ℕ → Node → Option Str) → (ℕ → Str) → Dict Node → List Str → Manager → Manager
unfolding test_hosts
run_blacklist_test verify now by_host hosts m =
    finish (now (length hosts)) (test_hosts verify now by_host hosts 0 m)

abbrev pub has_passed : BlacklistTestResult → Bool
has_passed r = elim r.status [
  | test_passed ↦ true
  | test_pending ↦ false
  | test_running ↦ false
  | test_failed ↦ false
  | test_skipped ↦ false
]

abbrev pub restore_host : BlacklistTestResult → Dict BlacklistEntry × ℕ → Dict BlacklistEntry × ℕ
restore_host r (updated, restored) =
    if has_passed r && is_some (lookup r.host updated)
    then (delete r.host updated, suc restored)
    else (updated, restored)

unfoldable pub restore_hosts :
    List BlacklistTestResult → Dict BlacklistEntry × ℕ → Dict BlacklistEntry × ℕ
restore_hosts [] u = u
restore_hosts (r ∷ rs) u = restore_hosts rs (restore_host r u)

pub data RestoreError : Type 0 where
  test_in_progress save_failed : RestoreError

pub data Restored : Type 0 where
  restored : ℕ → Restored
  not_restored : RestoreError → Restored

-- The hosts that passed and are on a blacklist.
abbrev pub passed_hosts : List BlacklistTestResult → Dict BlacklistEntry → List Str
passed_hosts rs blacklist =
    keep (λ h. is_some (lookup h blacklist))
      (map (λ (r : BlacklistTestResult). r.host) (keep has_passed rs))

abbrev pub save_restored : Bool → Dict BlacklistEntry × ℕ → Manager → Restored × Manager
save_restored saved (updated, count) m =
    if count == 0 then (restored 0, m) else if not saved then (not_restored save_failed, m) else (
      restored count,
      record m {
        blacklist = updated;
        stored_blacklist = updated;
        released = passed_hosts m.blacklist_test.results m.blacklist ++ m.released;
      },
    )

unfoldable pub restore_available_blacklist : Bool → Manager → Restored × Manager
unfolding restore_hosts
restore_available_blacklist saved m =
    if m.blacklist_test.running
    then (not_restored test_in_progress, m)
    else save_restored saved (restore_hosts m.blacklist_test.results (m.blacklist, 0)) m
