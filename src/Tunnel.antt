-- ===== src/Tunnel.antt =====
-- internal/tunnel/tunnel.go: one openvpn process. Its output lines come in one at a time; `events`
-- and `handshake` are the buffered channels, with room for 128 events and for one handshake.
pub mod Waiting
pub mod Captured
pub mod Told
pub mod Faithful
pub mod Examples
use conduitvpn.Config.{is_zero}
use conduitvpn.Base.{
  ℕ, zero, suc, ◌+◌, ◌-◌, ◌*◌, ◌/◌, ◌%◌, ◌^◌, ◌≤◌, ◌<◌, ◌≡◌, refl, sym, ap, ◌∙◌, subst, ◌≢◌, ◌↔◌,
  ◌⊎◌, inl, inr, Bool, true, false, not, ◌&&◌, ◌||◌, Option, none, some, List, [], ◌∷◌, ◌++◌, map,
  arith, ltb, leb, ◌==◌, if◌then◌else◌, is_some, ==_iff, Bool-cases, Option-cases, length,
  get_elem?, set, take, drop, any, keep, All, Elem, length-append, length-drop, length-take,
  length-set, All-Elem, Elem-append_left, Elem-append_last, Str, codes, is_empty, str_eq,
  str_eq_iff, str_eq_refl, trim_space, trim, to_upper, to_lower, has_prefix, trim_prefix, contains,
  split, fields, join, one_of, one_of_sound, one_of_complete, to_upper_idem, Dict, lookup, insert,
  delete, keys, lookup-insert, lookup-delete, ℤ, pos, negsuc, ltb_ℤ, leb_ℤ, add_ℕ, sort_stable,
  IsSorted, atoi, sprint, parse_ip, to4, is_loopback, read_full, reading, on_read, byte_at,
  put_uint16, uint16, read_full-append, has_byte, split_host_port, join_host_port, ip_string,
  cut_first, cut_last, atoi_or_zero,
}

pub data EventType : Type 0 where
  event_log event_handshake event_auth_fail event_tun_fail event_fatal event_exit : EventType

pub record Event : Type 0 where
  pub kind : EventType
  pub line : Str

pub record Options : Type 0 where
  pub config_file : Str
  pub auth_file : Str
  pub dev : Str
  pub verb : ℤ
  pub route_no_pull : Bool

-- `cmd` with its Process and ProcessState: none yet, started, or reaped.
pub data Process : Type 0 where
  no_process started reaped : Process

pub record Tunnel : Type 0 where
  pub process : Process
  pub events : List Event
  pub handshake : Bool
  pub exited : Bool
  pub tail : List Str
  pub tail_max : ℕ
  pub device : Str
  pub killed : Bool

abbrev pub events_room : ℕ
events_room = 128

unfoldable pub new : Tunnel
new = record {
  process = no_process;
  events = [];
  handshake = false;
  exited = false;
  tail = [];
  tail_max = 200;
  device = [];
  killed = false;
}

abbrev pub is_started : Process → Bool
is_started started = true
is_started no_process = false
is_started reaped = false

abbrev pub running : Tunnel → Bool
running t = is_started t.process

-- The last `n` of a list, all of it when it is shorter.
unfoldable pub last {ℓ} : {A : Type ℓ} → ℕ → List A → List A
last n xs = drop (length xs - n) xs

-- Tail, with its argument's two special cases.
unfoldable pub last_lines : Tunnel → ℤ → List Str
unfolding last
last_lines t (negsuc n) = t.tail
last_lines t (pos n) = if n == 0 || ltb (length t.tail) n then t.tail else last n t.tail

abbrev pub sprint_ℤ : ℤ → Str
unfolding sprint
sprint_ℤ (pos n) = sprint n
sprint_ℤ (negsuc n) = codes "-" ++ sprint (suc n)

unfoldable pub open_vpn_args : Options → List Str
unfolding sprint_ℤ
open_vpn_args o =
    (codes "--config"
      ∷ o.config_file
      ∷ codes "--dev"
      ∷ (if is_empty o.dev then codes "tun" else o.dev)
      ∷ codes "--dev-type"
      ∷ codes "tun"
      ∷ codes "--verb"
      ∷ sprint_ℤ (if is_zero o.verb then pos 3 else o.verb)
      ∷ [])
    ++ ((if is_empty o.auth_file then [] else codes "--auth-user-pass" ∷ o.auth_file ∷ [])
        ++ (if o.route_no_pull then codes "--route-nopull" ∷ [] else []))

pub data StartError : Type 0 where
  already_running : StartError
  spawn_failed : Str → StartError

abbrev pub spawned : Option Str → Tunnel → Option StartError × Tunnel
spawned (some e) t = (some (spawn_failed e), t)
spawned none t = (none, record t { process = started })

-- Start; `spawn` is the error of the pipes or of exec, or none.
unfoldable pub start : Option Str → Tunnel → Option StartError × Tunnel
start spawn t =
    if running t
    then (some already_running, t)
    else spawned spawn (record t { process = no_process; killed = false })

abbrev pub is_handshake : EventType → Bool
is_handshake event_handshake = true
is_handshake event_log = false
is_handshake event_auth_fail = false
is_handshake event_tun_fail = false
is_handshake event_fatal = false
is_handshake event_exit = false

abbrev pub signalled : EventType → Tunnel → Tunnel
signalled event_handshake t = record t { handshake = true }
signalled event_log t = t
signalled event_auth_fail t = t
signalled event_tun_fail t = t
signalled event_fatal t = t
signalled event_exit t = t

-- emit: the handshake channel first; then the event, dropped where the buffer is full.
unfoldable pub emit : EventType → Str → Tunnel → Tunnel
emit kind line t =
    let u = signalled kind t in
    if ltb (length u.events) events_room
    then record u { events = u.events ++ (record { kind = kind; line = line } ∷ []) }
    else u

unfoldable pub capture : Str → Tunnel → Tunnel
unfolding last
capture line t =
    let lines = t.tail ++ (line ∷ []) in
    if ltb t.tail_max (length lines)
    then record t { tail = last t.tail_max lines }
    else record t { tail = lines }

abbrev pub is_digit : ℕ → Bool
is_digit c = leb b'0' c && leb c b'9'

all_digits : Str → Bool
all_digits [] = true
all_digits (c ∷ s) = is_digit c && all_digits s

abbrev pub numbered : Str → Str → Bool
unfolding has_prefix all_digits
numbered prefix name =
    if not (has_prefix name prefix) || length name == length prefix
    then false
    else all_digits (drop (length prefix) name)

unfoldable pub is_tunnel_device : Str → Bool
unfolding has_prefix numbered
is_tunnel_device name =
    numbered (if has_prefix name (codes "utun") then codes "utun" else codes "tun") name

-- captureDevice: the first field that names a device.
unfoldable pub device_in : List Str → Option Str
unfolding trim trim_prefix is_tunnel_device
device_in [] = none
device_in (field ∷ rest) =
    let later = device_in rest in
    let name = trim_prefix (trim (codes "[]():,.") field) (codes "/dev/") in
    if is_tunnel_device name then some name else later

abbrev pub with_device : Option Str → Tunnel → Tunnel
with_device none t = t
with_device (some name) t = record t { device = name }

unfoldable pub capture_device : Str → Tunnel → Tunnel
unfolding device_in fields
capture_device line t = with_device (device_in (fields line)) t

unfoldable pub event_of : Str → EventType
unfolding to_lower contains
event_of line =
    let lower = to_lower line in
    if contains lower (codes "initialization sequence completed")
    then event_handshake
    else if contains lower (codes "auth_failed") || contains lower (codes "authentication failure")
    then event_auth_fail
    else if contains lower (codes "cannot allocate tun")
        || contains lower (codes "cannot open tun/tap dev")
        || contains lower (codes "cannot ioctl")
        || contains lower (codes "operation not permitted")
    then event_tun_fail
    else if contains lower (codes "fatal error")
        || contains lower (codes "exiting due to fatal error")
    then event_fatal
    else event_log

unfoldable pub classify : Str → Tunnel → Tunnel
unfolding event_of emit capture_device
classify line t = emit (event_of line) line (capture_device line t)

abbrev pub tagged : Str → Str → Str
tagged tag line = codes "[" ++ (tag ++ (codes "] " ++ line))

-- One line of an output of the process, `tag` "out" or "err".
unfoldable pub scan : Str → Str → Tunnel → Tunnel
unfolding classify capture
scan tag line t = classify (tagged tag line) (capture (tagged tag line) t)

-- wait: the process is reaped; `err` is what the error of Wait prints. A tunnel is started once: Go
-- panics where exitCh is closed a second time.
unfoldable pub wait : Str → Tunnel → Tunnel
unfolding emit
wait err t =
    let u =
      emit event_exit
        (if t.killed then codes "openvpn stopped" else codes "openvpn exited: " ++ err)
        (record t { process = reaped }) in
    record u { exited = true }
