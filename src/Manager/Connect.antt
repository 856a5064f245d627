-- ===== src/Manager/Connect.antt =====
-- connectLoop, connectAndVerify and monitor of internal/manager/manager.go, for one list of
-- candidates. The world is an `Attempt` for each position in that list.
pub mod Calls
pub mod Kept
pub mod Launches
pub mod Health
pub mod Closing
pub mod Blacklisting
use conduitvpn.Base.{
  ℕ, zero, suc, ◌+◌, ◌-◌, ◌*◌, ◌/◌, ◌%◌, ◌^◌, ◌≤◌, ◌<◌, ◌≡◌, refl, sym, ap, ◌∙◌, subst, ◌≢◌, ◌↔◌,
  ◌⊎◌, inl, inr, Bool, true, false, not, ◌&&◌, ◌||◌, Option, none, some, List, [], ◌∷◌, ◌++◌, map,
  arith, ltb, leb, ◌==◌, if◌then◌else◌, is_some, ==_iff, Bool-cases, Option-cases, length,
  get_elem?, set, take, drop, any, keep, All, Elem, length-append, length-drop, length-take,
  length-set, All-Elem, Elem-append_left, Elem-append_last, Str, codes, is_empty, str_eq,
  str_eq_iff, str_eq_refl, trim_space, trim, to_upper, to_lower, has_prefix, trim_prefix, contains,
  split, fields, join, one_of, one_of_sound, one_of_complete, to_upper_idem, Dict, lookup, insert,
  delete, keys, lookup-insert, lookup-delete, ℤ, pos, negsuc, ltb_ℤ, leb_ℤ, add_ℕ, sort_stable,
  IsSorted, atoi, sprint, parse_ip, to4, is_loopback,
}
use conduitvpn.Node.{Node}
use conduitvpn.Config.{Config}
use conduitvpn.Egress.{Controller, EgressError, configure, clear}
use conduitvpn.Vpngate.Profile.{ProfileError, Checked, ok, err, validate_profile}
use conduitvpn.Manager.{
  State, idle, fetching, connecting, connected, drifting, Failure, unsafe_profile, prepare_failed,
  spawn_failed, handshake_failed, egress_failed, canceled, events_closed, health_degraded,
  probe_degraded, openvpn_exited, BlacklistEntry, Route, Launch, Manager, set_state, is_blacklisted,
  is_fixed_node, mark_blacklisted, set_route_config, Event, context_done, mode_ready, events_end,
  other_event, exit_event, probe_tick, latency_tick, other_call, Call, route_call, restore_call,
  test_call, Attempt, stop_tunnel, stop_process,
}
use conduitvpn.Manager.Verification.{restore_available_blacklist}

-- connectAndVerify returns an error, or `none` for a tunnel that answers.
abbrev pub Verdict : Type 0
Verdict = Option Failure × Manager

-- One probe's answer; `slept` tells whether the pause after it was not cut short.
abbrev pub after_probe : Node → Manager → Option Str → Bool → (Option Str → Verdict) → Verdict
after_probe n m none slept next = (none, set_state connected n.host_name m)
after_probe n m (some e) slept next =
    if slept then next (some e) else (some canceled, stop_process m)

-- The probes after the handshake: `left` more tries, the next one is the i-th.
abbrev pub first_probes : Node → Attempt → (left i : ℕ) → Option Str → Manager → Verdict
first_probes n a zero i last m = (some (probe_degraded last), stop_tunnel m)
first_probes n a (suc left) i last m =
    after_probe n m (a.probe i) (a.slept i) (λ l. first_probes n a left (suc i) l m)

abbrev pub tries : ℤ → ℕ
tries (pos n) = n
tries (negsuc n) = 0

abbrev pub settle : Node → Attempt → Manager → Verdict
settle n a m =
    if not a.settled
    then (some canceled, stop_tunnel m)
    else first_probes n a (tries m.cfg.initial_probe_tries) 0 none m

abbrev pub after_configure : Node → Attempt → Manager → Option EgressError × Controller → Verdict
after_configure n a m (some e, c) = (some (egress_failed e), stop_tunnel (record m { egress = c }))
after_configure n a m (none, c) = settle n a (record m { egress = c })

abbrev pub after_handshake : Node → Attempt → Option Str → Manager → Verdict
after_handshake n a (some e) m = (some (handshake_failed e), stop_tunnel m)
after_handshake n a none m =
    if str_eq m.cfg.network_mode (codes "host")
    then after_configure n a m (configure a.device a.interface a.host_route m.egress)
    else settle n a m

abbrev pub after_start : Node → Attempt → Str → Option Str → Manager → Verdict
after_start n a text (some e) m = (some (spawn_failed e), record m { tun = some false })
after_start n a text none m = after_handshake n a a.handshake (record m {
  tun = some true;
  launched =
      m.launched
      ++ record {
        host = n.host_name;
        config = text;
        no_pull = str_eq m.cfg.network_mode (codes "host");
      }
        ∷ [];
})

-- prepareFiles: the checked profile, unless a file could not be written.
abbrev pub written : Option Str → Str → Failure ⊎ Str
written (some e) text = inl (prepare_failed e)
written none text = inr text

abbrev pub checked : Checked Str → Option Str → Failure ⊎ Str
checked (err e) files_written = inl (unsafe_profile e)
checked (ok text) files_written = written files_written text

unfoldable pub prepare_files : Node → Attempt → Failure ⊎ Str
prepare_files n a = checked (validate_profile n.config_text n.ip) a.files_written

abbrev pub after_prepare : Node → Attempt → Failure ⊎ Str → Manager → Verdict
after_prepare n a (inl e) m = (some e, m)
after_prepare n a (inr text) m = after_start n a text a.started m

unfoldable pub connect_and_verify : Node → Attempt → Manager → Verdict
unfolding prepare_files stop_tunnel
connect_and_verify n a m =
    after_prepare n a (prepare_files n a)
      (record (set_state connecting n.host_name m) { current = some n })

unfoldable pub make_call : Call → Manager → Manager
unfolding set_route_config restore_available_blacklist
make_call (route_call mode country node saved nodes) m =
    (set_route_config mode country node saved nodes m).1
make_call (restore_call saved) m = (restore_available_blacklist saved m).1
make_call (test_call status) m = record m { blacklist_test = status }

unfoldable pub make_calls : List Call → Manager → Manager
unfolding make_call
make_calls [] m = m
make_calls (c ∷ cs) m = make_calls cs (make_call c m)

abbrev pub with_calls : List Call → Verdict → Verdict
with_calls cs (o, m) = (o, make_calls cs m)

-- How the monitor ends; `watching` where it still runs after the given events.
pub data End : Type 0 where
  stopped mode_changed watching : End
  lost : Failure → End

abbrev pub with_latency : Node → ℕ → Option Node → Option Node
with_latency n ms none = none
with_latency n ms (some c) =
    if str_eq c.host_name n.host_name
    then some (record c { latency_ms = pos (if ltb ms 1 then 1 else ms) })
    else some c

abbrev pub measure_live_latency : Node → Option ℕ → Manager → Manager
measure_live_latency n none m = m
measure_live_latency n (some ms) m = record m { current = with_latency n ms m.current }

-- A `mode_ready` is skipped while nothing waits in the channel.
unfoldable pub watch : Node → List Event → (fails : ℕ) → Manager → End × Manager
unfolding make_call
watch n [] fails m = (watching, m)
watch n (context_done ∷ es) fails m = (stopped, m)
watch n (mode_ready ∷ es) fails m =
    let rest = watch n es fails m in
    if m.mode_ch then (mode_changed, record m { mode_ch = false }) else rest
watch n (events_end ∷ es) fails m = (lost events_closed, m)
watch n (exit_event line ∷ es) fails m = (lost (openvpn_exited line), m)
watch n (other_event ∷ es) fails m = watch n es fails m
watch n (probe_tick none ∷ es) fails m = watch n es 0 m
watch n (probe_tick (some e) ∷ es) fails m =
    let rest = watch n es (suc fails) m in
    if leb_ℤ m.cfg.health_max_fails (pos (suc fails)) then (lost health_degraded, m) else rest
watch n (latency_tick ms ∷ es) fails m = watch n es fails (measure_live_latency n ms m)
watch n (other_call call ∷ es) fails m = watch n es fails (make_call call m)

unfoldable pub monitor : Node → List Event → Manager → End × Manager
unfolding watch
monitor n es m = watch n es 0 (set_state connected n.host_name m)

-- How connectLoop ends; `monitoring` where the monitor of a tunnel still runs.
pub data Outcome : Type 0 where
  cancelled_loop route_changed exhausted monitoring : Outcome

abbrev pub after_monitor :
    Node → Attempt → (Manager → Outcome × Manager) → End × Manager → Outcome × Manager
after_monitor n a next (watching, m) = (monitoring, m)
after_monitor n a next (stopped, m) =
    next (mark_blacklisted n canceled a.saved a.now (stop_tunnel m))
after_monitor n a next (mode_changed, m) = (route_changed, stop_tunnel m)
after_monitor n a next (lost e, m) = next (mark_blacklisted n e a.saved a.now (stop_tunnel m))

abbrev pub after_connect :
    Node → Attempt → (Manager → Outcome × Manager) → Verdict → Outcome × Manager
after_connect n a next (some e, m) = next (mark_blacklisted n e a.saved a.now m)
after_connect n a next (none, m) = after_monitor n a next (monitor n a.events m)

unfoldable pub try_node :
    Node → Attempt → (Manager → Outcome × Manager) → Manager → Outcome × Manager
unfolding monitor mark_blacklisted stop_tunnel connect_and_verify is_blacklisted is_fixed_node
    make_calls
try_node n a next m =
    if a.cancelled
    then (cancelled_loop, m)
    else if is_blacklisted m n && not (is_fixed_node m n)
    then next m
    else after_connect n a next (with_calls a.calls (connect_and_verify n a m))

unfoldable pub connect_loop : (ℕ → Attempt) → ℕ → List Node → Manager → Outcome × Manager
unfolding try_node make_calls
connect_loop world i [] m = (exhausted, m)
connect_loop world i (n ∷ ns) m =
    try_node n (world i) (connect_loop world (suc i) ns) (make_calls (world i).calls_before m)
