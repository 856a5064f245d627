-- ===== src/Manager/Connect/Closing.antt =====
-- The egress of host mode during connectLoop: when it is ready and when it is closed.
use conduitvpn.Base.{
  choice, ℕ, zero, suc, ◌≡◌, refl, ◌∙◌, ◌≢◌, ◌⊎◌, inl, inr, Bool, true, false, not, ◌&&◌, Option,
  none, some, List, [], ◌∷◌, if◌then◌else◌, Bool-cases, Str, codes, is_empty, str_eq, pos, leb_ℤ,
  ◌==◌,
}
use conduitvpn.Node.{Node}
use conduitvpn.Egress.{interface_by, configure, clear}
use conduitvpn.Manager.{
  connecting, connected, Failure, Manager, set_state, is_blacklisted, is_fixed_node,
  mark_blacklisted, set_route_config, Event, context_done, mode_ready, events_end, other_event,
  exit_event, probe_tick, latency_tick, other_call, Call, route_call, restore_call, test_call,
  Attempt, stop_tunnel,
}
use conduitvpn.Manager.Connect.{
  Verdict, after_probe, first_probes, tries, settle, after_configure, after_handshake, after_start,
  prepare_files, after_prepare, connect_and_verify, End, stopped, mode_changed, watching, lost,
  measure_live_latency, watch, monitor, Outcome, monitoring, after_monitor, after_connect, try_node,
  connect_loop, make_call, make_calls, with_calls,
}
use conduitvpn.Manager.Connect.Calls.{make_calls-Kept}
use conduitvpn.Manager.Connect.Kept.{Ran-cfg, connect_and_verify-Ran, monitor-Kept}
use conduitvpn.Manager.Verification.{restore_hosts, Restored, restore_available_blacklist}
use conduitvpn.Egress.{host_mode}
use conduitvpn.Manager.{
  RouteError, tidy, is_mode, show_demo, show_first, update_demo_current, select_candidates,
}

-- No application dials: host mode, and not ready.
abbrev pub IsClosed : Manager → Type 0
IsClosed m = (host_mode m.egress ≡ true) × (m.egress.ready ≡ false)

-- Applications dial through the device of a running tunnel.
abbrev pub IsUp : Str → Manager → Type 0
IsUp device m =
    (host_mode m.egress ≡ true)
    × (m.egress.ready ≡ true)
    × (m.egress.device ≡ device)
    × (m.tun ≡ some true)

-- The process was stopped after a pause between two probes that was cut short; the egress is ready.
abbrev pub IsLeftOpen : Attempt → Manager → Type 0
IsLeftOpen a m = (j : ℕ) × (a.slept j ≡ false) × (m.tun ≡ some false) × (m.egress.ready ≡ true)

abbrev pub IsJudged : Attempt → Verdict → Type 0
IsJudged a (none, m) = IsUp a.device m
IsJudged a (some e, m) = IsClosed m ⊎ IsLeftOpen a m

stop_tunnel-IsClosed : (m : Manager) → host_mode m.egress ≡ true → IsClosed (stop_tunnel m)
unfolding stop_tunnel clear
stop_tunnel-IsClosed m h = rw h (h, refl)

after_probe-IsJudged :
    (n : Node) (a : Attempt) (m : Manager) (o : Option Str) (j : ℕ) (next : Option Str → Verdict)
    → IsUp a.device m
    → ((l : Option Str) → IsJudged a (next l))
    → IsJudged a (after_probe n m o (a.slept j) next)
after_probe-IsJudged n a m none j next u h = u
after_probe-IsJudged n a m (some e) j next u h = elim (Bool-cases (a.slept j)) [
  | inl y ↦ rw y (h (some e))
  | inr f ↦ rw f (inr (j, f, refl, u.1))
]

first_probes-IsJudged :
    (n : Node) (a : Attempt) (left i : ℕ) (last : Option Str) (m : Manager)
    → IsUp a.device m
    → IsJudged a (first_probes n a left i last m)
first_probes-IsJudged n a zero i last m u = inl (stop_tunnel-IsClosed m u.0)
first_probes-IsJudged n a (suc left) i last m u =
    after_probe-IsJudged n a m (a.probe i) i _ u (λ l. first_probes-IsJudged n a left (suc i) l m u)

settle-IsJudged :
    (n : Node) (a : Attempt) (m : Manager) → IsUp a.device m → IsJudged a (settle n a m)
settle-IsJudged n a m u =
    choice (IsJudged a) (not a.settled) (inl (stop_tunnel-IsClosed m u.0))
      (first_probes-IsJudged n a (tries m.cfg.initial_probe_tries) 0 none m u)

interface-IsJudged :
    (n : Node) (a : Attempt) (m : Manager) (interface route : Option Str)
    → IsClosed m
    → m.tun ≡ some true
    → IsJudged a (after_configure n a m (interface_by interface route a.device m.egress))
interface-IsJudged n a m (some e) route c t = inl (stop_tunnel-IsClosed m c.0)
interface-IsJudged n a m none (some e) c t = inl (stop_tunnel-IsClosed m c.0)
interface-IsJudged n a m none none c t = settle-IsJudged n a _ (c.0, refl, refl, t)

after_handshake-IsJudged :
    (n : Node) (a : Attempt) (o : Option Str) (m : Manager)
    → str_eq m.cfg.network_mode (codes "host") ≡ true
    → IsClosed m
    → m.tun ≡ some true
    → IsJudged a (after_handshake n a o m)
unfolding configure
after_handshake-IsJudged n a (some e) m h c t = inl (stop_tunnel-IsClosed m c.0)
after_handshake-IsJudged n a none m h c t = elim (Bool-cases (is_empty a.device)) [
  | inl y ↦ rw (h, c.0, y) (inl (stop_tunnel-IsClosed m c.0))
  | inr f ↦ rw (h, c.0, f) (interface-IsJudged n a m a.interface a.host_route c t)
]

after_start-IsJudged :
    (n : Node) (a : Attempt) (text : Str) (o : Option Str) (m : Manager)
    → str_eq m.cfg.network_mode (codes "host") ≡ true
    → IsClosed m
    → IsJudged a (after_start n a text o m)
after_start-IsJudged n a text (some e) m h c = inl c
after_start-IsJudged n a text none m h c = after_handshake-IsJudged n a a.handshake _ h c refl

after_prepare-IsJudged :
    (n : Node) (a : Attempt) (o : Failure ⊎ Str) (m : Manager)
    → str_eq m.cfg.network_mode (codes "host") ≡ true
    → IsClosed m
    → IsJudged a (after_prepare n a o m)
after_prepare-IsJudged n a (inl e) m h c = inl c
after_prepare-IsJudged n a (inr text) m h c = after_start-IsJudged n a text a.started m h c

-- In host mode, from a closed egress: a node that is judged healthy leaves the egress bound to the
-- device of its running tunnel; one that fails leaves it closed, but for one case, in which the pause
-- after a failed probe was cut short: the tunnel is stopped there and the egress stays ready.
pub connect_and_verify-IsJudged :
    (n : Node) (a : Attempt) (m : Manager)
    → str_eq m.cfg.network_mode (codes "host") ≡ true
    → IsClosed m
    → IsJudged a (connect_and_verify n a m)
unfolding connect_and_verify
connect_and_verify-IsJudged n a m h c =
    after_prepare-IsJudged n a (prepare_files n a)
      (record (set_state connecting n.host_name m) { current = some n }) h c

show_first-egress : (nodes : List Node) (m : Manager) → (show_first nodes m).egress ≡ m.egress
show_first-egress [] m = refl
show_first-egress (n ∷ ns) m = refl

show_demo-egress :
    (nodes : Option (List Node)) (m : Manager) → (show_demo nodes m).egress ≡ m.egress
unfolding update_demo_current
show_demo-egress none m = refl
show_demo-egress (some nodes) m =
    choice (λ (t : Manager). t.egress ≡ m.egress) m.demo
      (show_first-egress (select_candidates m nodes) m) refl

set_route_config-egress :
    (mode country node : Str) (saved : Bool) (nodes : Option (List Node)) (m : Manager)
    → (set_route_config mode country node saved nodes m).1.egress ≡ m.egress
unfolding set_route_config
set_route_config-egress mode country node saved nodes m =
    let r = tidy mode country node in
    let keeps = λ (v : Option RouteError × Manager). v.1.egress ≡ m.egress in
    choice keeps (not (is_mode r.mode)) refl (
      choice keeps (str_eq r.mode (codes "country") && is_empty r.country) refl (
        choice keeps (str_eq r.mode (codes "fixed") && is_empty r.node) refl (
          show_demo-egress nodes
            (record m { route = r; stored_route = if saved then some r else m.stored_route }))))

restore-egress :
    (saved : Bool) (m : Manager) → (restore_available_blacklist saved m).1.egress ≡ m.egress
unfolding restore_available_blacklist
restore-egress saved m =
    let u = restore_hosts m.blacklist_test.results (m.blacklist, 0) in
    let keeps = λ (v : Restored × Manager). v.1.egress ≡ m.egress in
    choice keeps m.blacklist_test.running refl
      (choice keeps (u.1 == 0) refl (choice keeps (not saved) refl refl))

make_call-egress : (call : Call) (m : Manager) → (make_call call m).egress ≡ m.egress
unfolding make_call
make_call-egress (route_call mode country node saved nodes) m =
    set_route_config-egress mode country node saved nodes m
make_call-egress (restore_call saved) m = restore-egress saved m
make_call-egress (test_call status) m = refl

make_calls-egress : (calls : List Call) (m : Manager) → (make_calls calls m).egress ≡ m.egress
unfolding make_calls
make_calls-egress [] m = refl
make_calls-egress (c ∷ cs) m = make_calls-egress cs (make_call c m) ∙ make_call-egress c m

calls-host :
    (calls : List Call) (m : Manager)
    → str_eq m.cfg.network_mode (codes "host") ≡ true
    → str_eq (make_calls calls m).cfg.network_mode (codes "host") ≡ true
calls-host calls m h = rw ((make_calls-Kept calls m).cfg_kept) h

calls-IsClosed : (calls : List Call) (m : Manager) → IsClosed m → IsClosed (make_calls calls m)
calls-IsClosed calls m c = rw (make_calls-egress calls m) c

watch-egress :
    (n : Node) (es : List Event) (fails : ℕ) (m : Manager)
    → (watch n es fails m).1.egress ≡ m.egress
unfolding watch
watch-egress n [] fails m = refl
watch-egress n (context_done ∷ es) fails m = refl
watch-egress n (mode_ready ∷ es) fails m =
    choice (λ (v : End × Manager). v.1.egress ≡ m.egress) m.mode_ch refl (watch-egress n es fails m)
watch-egress n (events_end ∷ es) fails m = refl
watch-egress n (exit_event line ∷ es) fails m = refl
watch-egress n (other_event ∷ es) fails m = watch-egress n es fails m
watch-egress n (probe_tick none ∷ es) fails m = watch-egress n es 0 m
watch-egress n (probe_tick (some e) ∷ es) fails m =
    choice (λ (v : End × Manager). v.1.egress ≡ m.egress)
      (leb_ℤ m.cfg.health_max_fails (pos (suc fails))) refl (watch-egress n es (suc fails) m)
watch-egress n (latency_tick none ∷ es) fails m = watch-egress n es fails m
watch-egress n (latency_tick (some ms) ∷ es) fails m =
    watch-egress n es fails (measure_live_latency n (some ms) m)
watch-egress n (other_call call ∷ es) fails m =
    watch-egress n es fails (make_call call m) ∙ make_call-egress call m

-- The end of the loop, unless a tunnel is still being monitored.
abbrev pub IsOver : Outcome × Manager → Type 0
IsOver o = o.0 ≢ monitoring → IsClosed o.1

module _ (n : Node) (a : Attempt) (next : Manager → Outcome × Manager)
    (rest : (m : Manager)
      → str_eq m.cfg.network_mode (codes "host") ≡ true
      → IsClosed m
      → IsOver (next m)) where
  after_monitor-IsOver :
      (o : End × Manager)
      → str_eq o.1.cfg.network_mode (codes "host") ≡ true
      → host_mode o.1.egress ≡ true
      → IsOver (after_monitor n a next o)
  unfolding mark_blacklisted stop_tunnel
  after_monitor-IsOver (watching, m) h e = λ ne. absurd (ne refl)
  after_monitor-IsOver (stopped, m) h e = rest _ h (stop_tunnel-IsClosed m e)
  after_monitor-IsOver (mode_changed, m) h e = λ ne. stop_tunnel-IsClosed m e
  after_monitor-IsOver (lost x, m) h e = rest _ h (stop_tunnel-IsClosed m e)

  after_connect-IsOver :
      (v : Verdict)
      → ((j : ℕ) → a.slept j ≡ true)
      → str_eq v.1.cfg.network_mode (codes "host") ≡ true
      → IsJudged a v
      → IsOver (after_connect n a next (with_calls a.calls v))
  unfolding mark_blacklisted monitor
  after_connect-IsOver (some e, m) s h (inl c) =
      rest _ (calls-host a.calls m h) (calls-IsClosed a.calls m c)
  after_connect-IsOver (some e, m) s h (inr (j, cut, gone, ready)) = absurd (cc (s j, cut))
  after_connect-IsOver (none, m) s h u =
      let t = make_calls a.calls m in
      after_monitor-IsOver (monitor n a.events t)
        (rw ((monitor-Kept n a.events t).cfg_kept) (calls-host a.calls m h))
        (rw
          (
            watch-egress n a.events 0 (set_state connected n.host_name t),
            make_calls-egress a.calls m,
          )
          u.0)

loop-IsOver :
    (nodes : List Node) (world : ℕ → Attempt) (i : ℕ) (m : Manager)
    → ((k j : ℕ) → (world k).slept j ≡ true)
    → str_eq m.cfg.network_mode (codes "host") ≡ true
    → IsClosed m
    → IsOver (connect_loop world i nodes m)
unfolding connect_loop try_node
loop-IsOver [] world i m s h c = λ ne. c
loop-IsOver (n ∷ ns) world i m s h c =
    let t = make_calls (world i).calls_before m in
    let th = calls-host (world i).calls_before m h in
    let tc = calls-IsClosed (world i).calls_before m c in
    choice IsOver (world i).cancelled (λ ne. tc)
      (choice IsOver (is_blacklisted t n && not (is_fixed_node t n))
        (loop-IsOver ns world (suc i) t s th tc)
        (after_connect-IsOver n (world i) (connect_loop world (suc i) ns)
          (λ u p q. loop-IsOver ns world (suc i) u s p q) (connect_and_verify n (world i) t) (s i)
          (rw (Ran-cfg n t _ (connect_and_verify-Ran n (world i) t)) th)
          (connect_and_verify-IsJudged n (world i) t th tc)))

-- In host mode, from a closed egress and with no pause between two probes cut short: whenever
-- connectLoop returns, by exhaustion, a change of the mode or a cancelled context, no application
-- can dial.
pub connect_loop-IsClosed :
    (world : ℕ → Attempt) (nodes : List Node) (m : Manager)
    → ((k j : ℕ) → (world k).slept j ≡ true)
    → str_eq m.cfg.network_mode (codes "host") ≡ true
    → IsClosed m
    → (connect_loop world 0 nodes m).0 ≢ monitoring
    → IsClosed (connect_loop world 0 nodes m).1
connect_loop-IsClosed world nodes m s h c ne = loop-IsOver nodes world 0 m s h c ne
