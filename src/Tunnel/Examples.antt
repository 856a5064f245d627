-- ===== src/Tunnel/Examples.antt =====
-- A tunnel whose process announces the handshake.
use conduitvpn.Tunnel.{is_handshake, emit, EventType, new, event_of, classify, capture}
use conduitvpn.Base.{
  ◌≡◌, refl, ◌||◌, [], ◌∷◌, ◌++◌, Elem-append_last, Str, codes, to_lower, contains,
}
use conduitvpn.Tunnel.Waiting.{System, print, read, here, next, started_system}
use conduitvpn.Tunnel.Faithful.{IsFaithful, Reach-IsFaithful}

abbrev announcement : Str
announcement = codes "[out] Initialization Sequence Completed"

abbrev printed_by : Str → System → System
printed_by line s = record s { printed = s.printed ++ (line ∷ []); tunnel = capture line s.tunnel }

abbrev read_by : Str → System → System
read_by line s = record s {
  announced = s.announced || is_handshake (event_of line);
  tunnel = classify line s.tunnel;
}

Reach-IsFaithful_example :
    IsFaithful (read_by announcement (printed_by announcement started_system))
Reach-IsFaithful_example = Reach-IsFaithful (
    next (next here (print announcement))
      (read announcement (Elem-append_last started_system.printed announcement)))

announcement_kind : event_of announcement ≡ EventType.event_handshake
unfolding event_of to_lower contains
announcement_kind = refl

device_found : (classify (codes "[out] TUN/TAP device tun0 opened") new).device ≡ codes "tun0"
unfolding classify new emit event_of to_lower contains
device_found = refl
