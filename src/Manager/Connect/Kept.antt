-- ===== src/Manager/Connect/Kept.antt =====
-- What an attempt leaves alone, and what one pass of connectLoop may do.
use conduitvpn.Base.{
  choice, ℕ, zero, suc, ◌≡◌, refl, ◌≢◌, ◌⊎◌, inl, inr, Bool, true, not, ◌&&◌, Option, none, some,
  List, [], ◌∷◌, ◌++◌, arith, Bool-cases, Str, codes, str_eq, pos, leb_ℤ, Elem,
}
use conduitvpn.Node.{Node}
use conduitvpn.Egress.{Controller, EgressError}
use conduitvpn.Vpngate.Profile.{Checked, ok, err, validate_profile}
use conduitvpn.Manager.{
  connecting, connected, Failure, canceled, Manager, set_state, is_blacklisted, is_fixed_node,
  mark_blacklisted, Event, context_done, mode_ready, events_end, other_event, exit_event,
  probe_tick, latency_tick, other_call, Attempt, stop_tunnel,
}
use conduitvpn.Manager.Connect.{
  Verdict, after_probe, first_probes, tries, settle, after_configure, after_handshake, after_start,
  checked, prepare_files, after_prepare, connect_and_verify, End, stopped, mode_changed, watching,
  lost, measure_live_latency, watch, monitor, Outcome, cancelled_loop, route_changed, exhausted,
  monitoring, after_monitor, after_connect, try_node, make_call, make_calls,
}
use conduitvpn.Manager.Connect.Calls.{
  Stays, Kept, Kept-refl, Kept-trans, Kept-same, make_call-Kept, make_calls-Kept,
}

after_probe-Kept :
    (n : Node) (m : Manager) (o : Option Str) (slept : Bool) (next : Option Str → Verdict)
    → ((l : Option Str) → Kept m (next l).1)
    → Kept m (after_probe n m o slept next).1
after_probe-Kept n m none slept next h = Kept-same refl refl refl refl
after_probe-Kept n m (some e) slept next h =
    choice (λ (v : Verdict). Kept m v.1) slept (h (some e)) (Kept-same refl refl refl refl)

first_probes-Kept :
    (n : Node) (a : Attempt) (left i : ℕ) (last : Option Str) (m : Manager)
    → Kept m (first_probes n a left i last m).1
unfolding stop_tunnel
first_probes-Kept n a zero i last m = Kept-same refl refl refl refl
first_probes-Kept n a (suc left) i last m =
    after_probe-Kept n m (a.probe i) (a.slept i) _ (λ l. first_probes-Kept n a left (suc i) l m)

settle-Kept : (n : Node) (a : Attempt) (m : Manager) → Kept m (settle n a m).1
unfolding stop_tunnel
settle-Kept n a m =
    choice (λ (v : Verdict). Kept m v.1) (not a.settled) (Kept-same refl refl refl refl)
      (first_probes-Kept n a (tries m.cfg.initial_probe_tries) 0 none m)

after_configure-Kept :
    (n : Node) (a : Attempt) (m : Manager) (o : Option EgressError × Controller)
    → Kept m (after_configure n a m o).1
unfolding stop_tunnel
after_configure-Kept n a m (some e, c) = Kept-same refl refl refl refl
after_configure-Kept n a m (none, c) =
    Kept-trans (Kept-same {m = m} refl refl refl refl) (settle-Kept n a (record m { egress = c }))

after_handshake-Kept :
    (n : Node) (a : Attempt) (o : Option Str) (m : Manager) → Kept m (after_handshake n a o m).1
unfolding stop_tunnel
after_handshake-Kept n a (some e) m = Kept-same refl refl refl refl
after_handshake-Kept n a none m =
    choice (λ (v : Verdict). Kept m v.1) (str_eq m.cfg.network_mode (codes "host"))
      (after_configure-Kept n a m _) (settle-Kept n a m)

-- The manager after openvpn was started for a node with a text as its configuration.
abbrev pub started_with : Node → Str → Manager → Manager
started_with n text m = record m {
  launched =
      m.launched
      ++ record {
        host = n.host_name;
        config = text;
        no_pull = str_eq m.cfg.network_mode (codes "host");
      }
        ∷ [];
}

-- An attempt at a node starts no process, or one with the checked profile of the node.
abbrev pub Ran : Node → Manager → Manager → Type 0
Ran n m t =
    Kept m t
    ⊎ ((text : Str) × (validate_profile n.config_text n.ip ≡ ok text)
        × Kept (started_with n text m) t)

pub Ran-cfg : (n : Node) (m t : Manager) → Ran n m t → t.cfg ≡ m.cfg
Ran-cfg n m t (inl k) = k.cfg_kept
Ran-cfg n m t (inr (text, e, k)) = k.cfg_kept

pub Ran-Stays : (h : Str) (n : Node) (m t : Manager) → Ran n m t → Stays h m t
Ran-Stays h n m t (inl k) = k.blacklist_kept h
Ran-Stays h n m t (inr (text, e, k)) = k.blacklist_kept h

pub Ran-released :
    (h : Str) (n : Node) (m t : Manager) → Ran n m t → Elem h m.released → Elem h t.released
Ran-released h n m t (inl k) = k.released_kept h
Ran-released h n m t (inr (text, e, k)) = k.released_kept h

Ran-Kept : (n : Node) {m t u : Manager} → Ran n m t → Kept t u → Ran n m u
Ran-Kept n (inl k) q = inl (Kept-trans k q)
Ran-Kept n (inr (text, e, k)) q = inr (text, e, Kept-trans k q)

after_start-Ran :
    (n : Node) (a : Attempt) (text : Str) (o : Option Str) (m : Manager)
    → validate_profile n.config_text n.ip ≡ ok text
    → Ran n m (after_start n a text o m).1
after_start-Ran n a text (some e) m h = inl (Kept-same refl refl refl refl)
after_start-Ran n a text none m h = inr (
  text,
  h,
  Kept-trans (Kept-same {m = started_with n text m} refl refl refl refl)
      (after_handshake-Kept n a a.handshake _),
)

checked-text :
    (c : Checked Str) (o : Option Str) (text : Str) → checked c o ≡ inr text → c ≡ ok text
checked-text (err x) o text e = absurd cc
checked-text (ok s) (some x) text e = absurd cc
checked-text (ok s) none text e = cc

after_prepare-Ran :
    (n : Node) (a : Attempt) (o : Failure ⊎ Str) (m : Manager)
    → prepare_files n a ≡ o
    → Ran n m (after_prepare n a o m).1
unfolding prepare_files
after_prepare-Ran n a (inl e) m h = inl (Kept-refl m)
after_prepare-Ran n a (inr text) m h =
    after_start-Ran n a text a.started m
      (checked-text (validate_profile n.config_text n.ip) a.files_written text h)

pub connect_and_verify-Ran :
    (n : Node) (a : Attempt) (m : Manager) → Ran n m (connect_and_verify n a m).1
unfolding connect_and_verify
connect_and_verify-Ran n a m =
    let begun = record (set_state connecting n.host_name m) { current = some n } in
    elim (after_prepare-Ran n a (prepare_files n a) begun refl) [
      | inl k ↦ inl (Kept-trans (Kept-same {m = m} refl refl refl refl) k)
      | inr (text, e, k) ↦
          inr (text, e, Kept-trans (Kept-same {m = started_with n text m} refl refl refl refl) k)
    ]

pub watch-Kept :
    (n : Node) (es : List Event) (fails : ℕ) (m : Manager) → Kept m (watch n es fails m).1
unfolding watch
watch-Kept n [] fails m = Kept-refl m
watch-Kept n (context_done ∷ es) fails m = Kept-refl m
watch-Kept n (mode_ready ∷ es) fails m =
    choice (λ (v : End × Manager). Kept m v.1) m.mode_ch (Kept-same refl refl refl refl)
      (watch-Kept n es fails m)
watch-Kept n (events_end ∷ es) fails m = Kept-refl m
watch-Kept n (exit_event line ∷ es) fails m = Kept-refl m
watch-Kept n (other_event ∷ es) fails m = watch-Kept n es fails m
watch-Kept n (probe_tick none ∷ es) fails m = watch-Kept n es 0 m
watch-Kept n (probe_tick (some e) ∷ es) fails m =
    choice (λ (v : End × Manager). Kept m v.1) (leb_ℤ m.cfg.health_max_fails (pos (suc fails)))
      (Kept-refl m) (watch-Kept n es (suc fails) m)
watch-Kept n (latency_tick none ∷ es) fails m = watch-Kept n es fails m
watch-Kept n (latency_tick (some ms) ∷ es) fails m =
    Kept-trans (Kept-same {m = m} refl refl refl refl)
      (watch-Kept n es fails (measure_live_latency n (some ms) m))
watch-Kept n (other_call call ∷ es) fails m =
    Kept-trans (make_call-Kept call m) (watch-Kept n es fails (make_call call m))

pub monitor-Kept : (n : Node) (es : List Event) (m : Manager) → Kept m (monitor n es m).1
unfolding monitor
monitor-Kept n es m =
    Kept-trans (Kept-same {m = m} refl refl refl refl)
      (watch-Kept n es 0 (set_state connected n.host_name m))

-- To show a property of the end of connectLoop, show it for each way out of the pass at a node, and
-- for the two ways on to the next node.
module _ (P : Outcome × Manager → Type 0) (n : Node) (a : Attempt)
    (next : Manager → Outcome × Manager) (m : Manager)
    (out : (o : Outcome) (t : Manager) → o ≢ exhausted → Ran n m t → P (o, t))
    (on : (reason : Failure) (t : Manager)
      → Ran n m t
      → P (next (mark_blacklisted n reason a.saved a.now t))) where
  after_monitor-all : (o : End) (t : Manager) → Ran n m t → P (after_monitor n a next (o, t))
  unfolding stop_tunnel
  after_monitor-all watching t r = out monitoring t (λ e. cc) r
  after_monitor-all stopped t r = on canceled _ (Ran-Kept n r (Kept-same refl refl refl refl))
  after_monitor-all mode_changed t r =
      out route_changed _ (λ e. cc) (Ran-Kept n r (Kept-same refl refl refl refl))
  after_monitor-all (lost e) t r = on e _ (Ran-Kept n r (Kept-same refl refl refl refl))

  after_connect-all :
      (o : Option Failure) (t : Manager) → Ran n m t → P (after_connect n a next (o, t))
  after_connect-all (some e) t r = on e t r
  after_connect-all none t r =
      after_monitor-all (monitor n a.events t).0 (monitor n a.events t).1
        (Ran-Kept n r (monitor-Kept n a.events t))

  pub try_node-all : (is_blacklisted m n ≡ true → P (next m)) → P (try_node n a next m)
  unfolding try_node
  try_node-all skip =
      choice P a.cancelled (out cancelled_loop m (λ e. cc) (inl (Kept-refl m)))
        (elim (Bool-cases (is_blacklisted m n && not (is_fixed_node m n))) [
          | inl y ↦ rw y (skip (ground (arith, y)))
          | inr f ↦ rw f (
              after_connect-all (connect_and_verify n a m).0
                (make_calls a.calls (connect_and_verify n a m).1)
                (Ran-Kept n (connect_and_verify-Ran n a m)
                  (make_calls-Kept a.calls (connect_and_verify n a m).1)))
        ])
