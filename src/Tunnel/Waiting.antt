-- ===== src/Tunnel/Waiting.antt =====
-- WaitHandshakeContext and Stop of internal/tunnel/tunnel.go, and how the goroutines of a tunnel act
-- on it in whatever order: the two readers of the output, the one that reaps the process, and the one
-- that waits for the handshake.
use conduitvpn.Tunnel.{
  is_handshake, wait, started, classify, event_of, new, Process, capture, Tunnel, EventType, start,
  Event,
}
use conduitvpn.Base.{
  ◌≡◌, Bool, true, false, not, ◌||◌, none, List, [], ◌∷◌, ◌++◌, if◌then◌else◌, Elem, Str,
}
use conduitvpn.Tunnel.{
  event_log, event_handshake, event_auth_fail, event_tun_fail, event_fatal, event_exit, no_process,
  started, reaped,
}

pub data WaitError : Type 0 where
  auth_failed tun_unavailable openvpn_fatal exited_before : Str → WaitError
  canceled handshake_timeout : WaitError

pub data Waited : Type 0 where
  waiting succeeded : Waited
  failed : WaitError → Waited

-- The case of an event: other kinds go round the loop.
abbrev pub by_kind : EventType → Str → Waited
by_kind event_auth_fail line = failed (auth_failed line)
by_kind event_tun_fail line = failed (tun_unavailable line)
by_kind event_fatal line = failed (openvpn_fatal line)
by_kind event_exit line = failed (exited_before line)
by_kind event_log line = waiting
by_kind event_handshake line = waiting

unfoldable pub on_event : Event → Waited
on_event e = by_kind e.kind e.line

-- What select chose of the ready channels.
pub data Ready : Type 0 where
  cancelled handshaken timed_out : Ready
  event : Event → Ready

-- The loop over what select chose, as far as it is known.
unfoldable pub wait_handshake : List Ready → Waited
unfolding on_event
wait_handshake [] = waiting
wait_handshake (cancelled ∷ later) = failed canceled
wait_handshake (handshaken ∷ later) = succeeded
wait_handshake (timed_out ∷ later) = failed handshake_timeout
wait_handshake (event e ∷ later) =
    let rest = wait_handshake later in
    elim (on_event e) [ waiting ↦ rest | succeeded ↦ succeeded | failed x ↦ failed x ]

-- The signals that Stop sends.
pub data Signal : Type 0 where
  term_group term_process kill_group : Signal

abbrev pub has_process : Process → Bool
has_process no_process = false
has_process started = true
has_process reaped = true

-- Stop; whether SIGTERM reaches the group, and whether the process is reaped within five seconds.
unfoldable pub stop : Bool → Bool → Tunnel → List Signal × Tunnel
stop reaches soon t = if not (has_process t.process) then ([], record t { killed = true }) else (
  term_group
      ∷ ((if reaches then [] else term_process ∷ []) ++ (if soon then [] else kill_group ∷ [])),
  record t { killed = true },
)

-- A tunnel with the lines that its process printed, whether one of them announced the handshake, and
-- what came of the wait.
pub record System : Type 0 where
  pub printed : List Str
  pub announced : Bool
  pub tunnel : Tunnel
  pub waited : Waited

-- One step of the readers, of the reaper, of Stop or of the wait. A line is captured before it is
-- classified, and the two readers may mix.
pub data Step (s : System) : System → Type 0 where
  print :
      (line : Str)
      → Step s (record s { printed = s.printed ++ (line ∷ []); tunnel = capture line s.tunnel })
  read :
      (line : Str)
      → Elem line s.printed
      → Step s (record s {
        announced = s.announced || is_handshake (event_of line);
        tunnel = classify line s.tunnel;
      })
  reap : (err : Str) → s.tunnel.process ≡ started → Step s (record s { tunnel = wait err s.tunnel })
  halt : (reaches soon : Bool) → Step s (record s { tunnel = (stop reaches soon s.tunnel).1 })
  take_handshake :
      s.waited ≡ waiting
      → s.tunnel.handshake ≡ true
      → Step s (record s { waited = succeeded; tunnel = record s.tunnel { handshake = false } })
  take_event :
      {e : Event} {es : List Event}
      → s.waited ≡ waiting
      → s.tunnel.events ≡ e ∷ es
      → Step s (record s { waited = on_event e; tunnel = record s.tunnel { events = es } })
  give_up : s.waited ≡ waiting → Step s (record s { waited = failed canceled })
  time_out : s.waited ≡ waiting → Step s (record s { waited = failed handshake_timeout })

pub data Reach (s : System) : System → Type 0 where
  here : Reach s s
  next : {t u : System} → Reach s t → Step t u → Reach s u

-- After a Start that succeeded.
abbrev pub started_system : System
unfolding start
started_system = record {
  printed = [];
  announced = false;
  tunnel = (start none new).1;
  waited = waiting;
}
