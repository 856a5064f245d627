-- ===== src/Tunnel/Faithful.antt =====
-- What holds of a tunnel in every order of its goroutines' steps.
use conduitvpn.Tunnel.Told.{
  IsJustified-append, IsAnnounced-append, or_cases, IsJustified-reaped, IsTold-append,
  handshake_told, IsTold-reaped, All-map, emit-IsTold, by_kind-IsJustified, IsAnnounced,
  emit-signal, IsNamed, IsJustified, capture-rest, IsTold, capture_device_lem,
}
use conduitvpn.Tunnel.Captured.{emit_lem, last-append, capture-tail}
use conduitvpn.Base.{
  ◌≤◌, ◌≡◌, refl, sym, ap, ◌∙◌, subst, ◌⊎◌, inl, inr, Bool, true, false, not, ◌||◌, List, [], ◌∷◌,
  ◌++◌, arith, if◌then◌else◌, length, All, Elem, Str, codes, choice,
}
use conduitvpn.Tunnel.{
  new, classify, start, wait, capture_device, Tunnel, capture, is_handshake, events_room, Event,
  event_of, last, event_exit, reaped,
}
use conduitvpn.Tunnel.Waiting.{
  has_process, started_system, Signal, stop, Step, Reach, on_event, Waited, System, canceled,
  handshake_timeout, waiting, succeeded, failed, print, read, reap, halt, take_handshake,
  take_event, give_up, time_out, here, next,
}

pub record IsFaithful (s : System) : Type 0 where
  pub sized : s.tunnel.tail_max ≡ 200
  pub tail_kept : s.tunnel.tail ≡ last 200 s.printed
  pub named : IsNamed s.tunnel.device
  pub bounded : length s.tunnel.events ≤ events_room
  pub told : All (IsTold s.printed s.tunnel.process) s.tunnel.events
  pub pending : s.tunnel.handshake ≡ true → IsAnnounced s.printed
  pub not_lost : s.announced ≡ true → (s.tunnel.handshake ≡ true) ⊎ (s.waited ≡ succeeded)
  pub justified : IsJustified s.printed s.tunnel.process s.waited

print-IsFaithful :
    (s : System) (line : Str)
    → IsFaithful s
    → IsFaithful (record s { printed = s.printed ++ (line ∷ []); tunnel = capture line s.tunnel })
print-IsFaithful s line h =
    let t = s.tunnel in
    let (m, d, es, p, hs) = capture-rest line t in
    record {
      sized = m ∙ h.sized;
      tail_kept =
          capture-tail line t
          ∙ ap (λ k. last k (t.tail ++ (line ∷ []))) h.sized
          ∙ ap (λ ls. last 200 (ls ++ (line ∷ []))) h.tail_kept
          ∙ last-append 200 s.printed line;
      named = subst IsNamed (sym d) h.named;
      bounded = subst (λ xs. length xs ≤ events_room) (sym es) h.bounded;
      told =
          subst (λ xs. All (IsTold (s.printed ++ (line ∷ [])) (capture line t).process) xs) (sym es)
            (subst (λ q. All (IsTold (s.printed ++ (line ∷ [])) q) t.events) (sym p)
              (All-map _ _ t.events (λ e. IsTold-append s.printed line t.process e) h.told));
      pending = λ y. IsAnnounced-append s.printed line (h.pending (sym hs ∙ y));
      not_lost = λ y. elim (h.not_lost y) [ inl z ↦ inl (hs ∙ z) | inr z ↦ inr z ];
      justified =
          subst (λ q. IsJustified (s.printed ++ (line ∷ [])) q s.waited) (sym p)
            (IsJustified-append s.printed line t.process s.waited h.justified);
    }

killed_sound :
    {s : System}
    → IsFaithful s
    → IsFaithful (record s { tunnel = record s.tunnel { killed = true } })
killed_sound h = record {
  sized = h.sized;
  tail_kept = h.tail_kept;
  named = h.named;
  bounded = h.bounded;
  told = h.told;
  pending = h.pending;
  not_lost = h.not_lost;
  justified = h.justified;
}

read-IsFaithful :
    (s : System) (line : Str)
    → Elem line s.printed
    → IsFaithful s
    → IsFaithful (record s {
      announced = s.announced || is_handshake (event_of line);
      tunnel = classify line s.tunnel;
    })
unfolding classify
read-IsFaithful s line p h =
    let t = capture_device line s.tunnel in
    let kind = event_of line in
    let (tl, m, q, es, hs, d) = capture_device_lem line s.tunnel in
    let v = emit_lem kind line t in
    let (kept, raised, origin) = emit-signal kind line v in
    let (fits, all_told) = emit-IsTold s.printed kind line v (inr (p, refl)) (
      subst (λ xs. length xs ≤ events_room) (sym es) h.bounded,
      subst (λ xs. All (IsTold s.printed t.process) xs) (sym es)
          (subst (λ r. All (IsTold s.printed r) s.tunnel.events) (sym q) h.told),
    ) in
    record {
      sized = v.lines_kept.same_max ∙ m ∙ h.sized;
      tail_kept = v.lines_kept.same_tail ∙ tl ∙ h.tail_kept;
      named = subst IsNamed (sym v.lines_kept.same_device) (d h.named);
      bounded = fits;
      told = all_told;
      pending = λ y. elim (origin y) [
        | inl z ↦ h.pending (sym hs ∙ z)
        | inr z ↦ handshake_told line s.printed p z
      ];
      not_lost = λ y. elim (or_cases s.announced (is_handshake kind) y) [
        | inl z ↦ elim (h.not_lost z) [ inl w ↦ inl (kept (hs ∙ w)) | inr w ↦ inr w ]
        | inr z ↦ inl (raised z)
      ];
      justified =
          subst (λ r. IsJustified s.printed r s.waited) (sym (v.lines_kept.same_process ∙ q))
            h.justified;
    }

wait-IsFaithful :
    (s : System) (err : Str) → IsFaithful s → IsFaithful (record s { tunnel = wait err s.tunnel })
unfolding wait
wait-IsFaithful s err h =
    let t = record s.tunnel { process = reaped } in
    let line =
      if s.tunnel.killed then codes "openvpn stopped" else codes "openvpn exited: " ++ err in
    let v = emit_lem event_exit line t in
    let (kept, raised, origin) = emit-signal event_exit line v in
    let (fits, all_told) =
      emit-IsTold s.printed event_exit line v (inl (refl, refl)) (
        h.bounded,
        All-map _ _ s.tunnel.events (IsTold-reaped s.printed s.tunnel.process) h.told,
      ) in
    record {
      sized = v.lines_kept.same_max ∙ h.sized;
      tail_kept = v.lines_kept.same_tail ∙ h.tail_kept;
      named = subst IsNamed (sym v.lines_kept.same_device) h.named;
      bounded = fits;
      told = all_told;
      pending = λ y. elim (origin y) [ inl z ↦ h.pending z | inr z ↦ absurd cc ];
      not_lost = λ y. elim (h.not_lost y) [ inl w ↦ inl (kept w) | inr w ↦ inr w ];
      justified =
          subst (λ r. IsJustified s.printed r s.waited) (sym v.lines_kept.same_process)
            (IsJustified-reaped s.printed s.tunnel.process s.waited h.justified);
    }

halt-IsFaithful :
    (s : System) (reaches soon : Bool)
    → IsFaithful s
    → IsFaithful (record s { tunnel = (stop reaches soon s.tunnel).1 })
unfolding stop
halt-IsFaithful s reaches soon h =
    choice (λ (r : List Signal × Tunnel). IsFaithful (record s { tunnel = r.1 }))
      (not (has_process s.tunnel.process)) (killed_sound h) (killed_sound h)

-- A wait that is not over has not succeeded.
unsettled :
    (s : System)
    → s.waited ≡ waiting
    → (s.tunnel.handshake ≡ true) ⊎ (s.waited ≡ succeeded)
    → s.tunnel.handshake ≡ true
unsettled s w (inl e) = e
unsettled s w (inr e) = absurd cc

ended-IsFaithful :
    (s : System) (w : Waited)
    → s.waited ≡ waiting
    → IsJustified s.printed s.tunnel.process w
    → IsFaithful s
    → IsFaithful (record s { waited = w })
ended-IsFaithful s w e j h = record {
  sized = h.sized;
  tail_kept = h.tail_kept;
  named = h.named;
  bounded = h.bounded;
  told = h.told;
  pending = h.pending;
  not_lost = λ y. inl (unsettled s e (h.not_lost y));
  justified = j;
}

take_handshake-IsFaithful :
    (s : System)
    → s.tunnel.handshake ≡ true
    → IsFaithful s
    → IsFaithful (record s { waited = succeeded; tunnel = record s.tunnel { handshake = false } })
take_handshake-IsFaithful s e h = record {
  sized = h.sized;
  tail_kept = h.tail_kept;
  named = h.named;
  bounded = h.bounded;
  told = h.told;
  pending = λ y. absurd cc;
  not_lost = λ y. inr refl;
  justified = h.pending e;
}

take_event-IsFaithful :
    (s : System) (e : Event) (es : List Event)
    → s.waited ≡ waiting
    → s.tunnel.events ≡ e ∷ es
    → IsFaithful s
    → IsFaithful (record s { waited = on_event e; tunnel = record s.tunnel { events = es } })
unfolding on_event
take_event-IsFaithful s e es w q h =
    let all_told = subst (λ xs. All (IsTold s.printed s.tunnel.process) xs) q h.told in
    record {
      sized = h.sized;
      tail_kept = h.tail_kept;
      named = h.named;
      bounded = omega (arith, h.bounded, ap (λ xs. length xs) q);
      told = all_told.1;
      pending = h.pending;
      not_lost = λ y. inl (unsettled s w (h.not_lost y));
      justified = by_kind-IsJustified s.printed s.tunnel.process e.kind e.line all_told.0;
    }

Step-IsFaithful : {s u : System} → Step s u → IsFaithful s → IsFaithful u
Step-IsFaithful {s = s} (print line) h = print-IsFaithful s line h
Step-IsFaithful {s = s} (read line p) h = read-IsFaithful s line p h
Step-IsFaithful {s = s} (reap err e) h = wait-IsFaithful s err h
Step-IsFaithful {s = s} (halt reaches soon) h = halt-IsFaithful s reaches soon h
Step-IsFaithful {s = s} (take_handshake w e) h = take_handshake-IsFaithful s e h
Step-IsFaithful {s = s} (take_event {e = e} {es = es} w q) h = take_event-IsFaithful s e es w q h
Step-IsFaithful {s = s} (give_up w) h = ended-IsFaithful s (failed canceled) w tt h
Step-IsFaithful {s = s} (time_out w) h = ended-IsFaithful s (failed handshake_timeout) w tt h

Reach-sound : {s u : System} → Reach s u → IsFaithful s → IsFaithful u
Reach-sound here h = h
Reach-sound (next r t) h = Step-IsFaithful t (Reach-sound r h)

start_sound : IsFaithful started_system
unfolding start new last
start_sound = record {
  sized = refl;
  tail_kept = refl;
  named = inl refl;
  bounded = omega arith;
  told = tt;
  pending = λ y. absurd cc;
  not_lost = λ y. absurd cc;
  justified = tt;
}

-- In every state that a started tunnel can reach, in whatever order its readers, its reaper, Stop and
-- the wait act: the tail is the last 200 of the printed lines; the device is a tunnel's name or none;
-- at most 128 events are kept, each a printed line of its kind or the end of the process; a line that
-- announced the handshake is still to be taken, or the wait has succeeded; the wait succeeds only for
-- such a line, and fails with a line of the output of that kind, or as the process ended, or by its
-- timeout or its context.
pub Reach-IsFaithful : {s : System} → Reach started_system s → IsFaithful s
Reach-IsFaithful r = Reach-sound r start_sound
