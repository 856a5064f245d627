-- ===== src/Tunnel/Told.antt =====
-- What the events of a tunnel tell of the printed lines, and what each of its operations keeps of
-- that.
use conduitvpn.Tunnel.Captured.{IsEmitted}
use conduitvpn.Base.{
  ◌≤◌, ◌≡◌, refl, sym, ◌∙◌, subst, ◌≢◌, ◌⊎◌, inl, inr, Bool, true, false, ◌||◌, Option, some, List,
  [], ◌∷◌, ◌++◌, arith, ltb, Option-cases, length, All, Elem, length-append, Elem-append_left, Str,
  codes, trim, to_lower, trim_prefix, contains, fields, choice, choice_of,
}
use conduitvpn.Tunnel.{
  device_in, capture_device, Tunnel, capture, is_handshake, events_room, Event, event_of, Process,
  is_tunnel_device, EventType, event_log, event_handshake, event_auth_fail, event_tun_fail,
  event_fatal, event_exit, reaped,
}
use conduitvpn.Tunnel.Waiting.{
  by_kind, Waited, auth_failed, tun_unavailable, openvpn_fatal, exited_before, canceled,
  handshake_timeout, waiting, succeeded, failed,
}

-- The process printed a line of that kind.
abbrev pub Printed : List Str → EventType → Str → Type 0
Printed printed kind line = Elem line printed × (event_of line ≡ kind)

abbrev pub IsAnnounced : List Str → Type 0
IsAnnounced printed = (line : Str) × Printed printed event_handshake line

-- An event is a line of its kind, or the end of the process.
abbrev pub IsTold : List Str → Process → Event → Type 0
IsTold printed p e = ((e.kind ≡ event_exit) × (p ≡ reaped)) ⊎ Printed printed e.kind e.line

-- The reason for what came of the wait.
abbrev pub IsJustified : List Str → Process → Waited → Type 0
IsJustified printed p waiting = Unit
IsJustified printed p succeeded = IsAnnounced printed
IsJustified printed p (failed (auth_failed line)) = Printed printed event_auth_fail line
IsJustified printed p (failed (tun_unavailable line)) = Printed printed event_tun_fail line
IsJustified printed p (failed (openvpn_fatal line)) = Printed printed event_fatal line
IsJustified printed p (failed (exited_before line)) = p ≡ reaped
IsJustified printed p (failed canceled) = Unit
IsJustified printed p (failed handshake_timeout) = Unit

abbrev pub IsNamed : Str → Type 0
IsNamed device = (device ≡ []) ⊎ (is_tunnel_device device ≡ true)

pub IsAnnounced-append :
    (ls : List Str) (line : Str) → IsAnnounced ls → IsAnnounced (ls ++ (line ∷ []))
IsAnnounced-append ls line (l, h) = (l, (Elem-append_left l ls (line ∷ []) h.0, h.1))

pub IsTold-append :
    (ls : List Str) (line : Str) (p : Process) (e : Event)
    → IsTold ls p e
    → IsTold (ls ++ (line ∷ [])) p e
IsTold-append ls line p e (inl h) = inl h
IsTold-append ls line p e (inr (h, k)) = inr (Elem-append_left e.line ls (line ∷ []) h, k)

pub IsTold-reaped : (ls : List Str) (p : Process) (e : Event) → IsTold ls p e → IsTold ls reaped e
IsTold-reaped ls p e (inl (k, h)) = inl (k, refl)
IsTold-reaped ls p e (inr h) = inr h

pub All-map :
    {A : Type 0} (P Q : A → Type 0) (xs : List A) → ((a : A) → P a → Q a) → All P xs → All Q xs
All-map P Q [] f h = tt
All-map P Q (x ∷ xs) f h = (f x h.0, All-map P Q xs f h.1)

pub All-last :
    {A : Type 0} (P : A → Type 0) (xs : List A) {a : A} → All P xs → P a → All P (xs ++ (a ∷ []))
All-last P [] h p = (p, tt)
All-last P (x ∷ xs) h p = (h.0, All-last P xs h.1 p)

pub IsJustified-append :
    (ls : List Str) (line : Str) (p : Process) (w : Waited)
    → IsJustified ls p w
    → IsJustified (ls ++ (line ∷ [])) p w
IsJustified-append ls line p waiting h = tt
IsJustified-append ls line p succeeded h = IsAnnounced-append ls line h
IsJustified-append ls line p (failed (auth_failed l)) h =
    (Elem-append_left l ls (line ∷ []) h.0, h.1)
IsJustified-append ls line p (failed (tun_unavailable l)) h =
    (Elem-append_left l ls (line ∷ []) h.0, h.1)
IsJustified-append ls line p (failed (openvpn_fatal l)) h =
    (Elem-append_left l ls (line ∷ []) h.0, h.1)
IsJustified-append ls line p (failed (exited_before l)) h = h
IsJustified-append ls line p (failed canceled) h = tt
IsJustified-append ls line p (failed handshake_timeout) h = tt

pub IsJustified-reaped :
    (ls : List Str) (p : Process) (w : Waited) → IsJustified ls p w → IsJustified ls reaped w
IsJustified-reaped ls p waiting h = tt
IsJustified-reaped ls p succeeded h = h
IsJustified-reaped ls p (failed (auth_failed l)) h = h
IsJustified-reaped ls p (failed (tun_unavailable l)) h = h
IsJustified-reaped ls p (failed (openvpn_fatal l)) h = h
IsJustified-reaped ls p (failed (exited_before l)) h = refl
IsJustified-reaped ls p (failed canceled) h = tt
IsJustified-reaped ls p (failed handshake_timeout) h = tt

-- No line tells the end of the process.
pub event_of-exit : (line : Str) → event_of line ≢ event_exit
unfolding event_of
event_of-exit line =
    let lower = to_lower line in
    let P : EventType → Type 0 = λ k. k ≢ event_exit in
    choice P (contains lower (codes "initialization sequence completed")) (λ e. cc)
      (choice P
        (contains lower (codes "auth_failed") || contains lower (codes "authentication failure"))
        (λ e. cc)
        (choice P
          (contains lower (codes "cannot allocate tun")
            || contains lower (codes "cannot open tun/tap dev")
            || contains lower (codes "cannot ioctl")
            || contains lower (codes "operation not permitted"))
          (λ e. cc)
          (choice P
            (contains lower (codes "fatal error")
              || contains lower (codes "exiting due to fatal error"))
            (λ e. cc) (λ e. cc))))

-- The event that is taken justifies its case.
pub by_kind-IsJustified :
    (ls : List Str) (p : Process) (k : EventType) (line : Str)
    → IsTold ls p (record { kind = k; line = line })
    → IsJustified ls p (by_kind k line)
by_kind-IsJustified ls p event_log line h = tt
by_kind-IsJustified ls p event_handshake line h = tt
by_kind-IsJustified ls p event_auth_fail line (inl (k, r)) = absurd cc
by_kind-IsJustified ls p event_auth_fail line (inr h) = h
by_kind-IsJustified ls p event_tun_fail line (inl (k, r)) = absurd cc
by_kind-IsJustified ls p event_tun_fail line (inr h) = h
by_kind-IsJustified ls p event_fatal line (inl (k, r)) = absurd cc
by_kind-IsJustified ls p event_fatal line (inr h) = h
by_kind-IsJustified ls p event_exit line (inl (k, r)) = r
by_kind-IsJustified ls p event_exit line (inr h) = absurd (event_of-exit line h.1)

pub capture-rest :
    (line : Str) (t : Tunnel)
    → ((capture line t).tail_max ≡ t.tail_max)
      × ((capture line t).device ≡ t.device)
      × ((capture line t).events ≡ t.events)
      × ((capture line t).process ≡ t.process)
      × ((capture line t).handshake ≡ t.handshake)
unfolding capture
capture-rest line t =
    choice
      (λ (u : Tunnel).
        (u.tail_max ≡ t.tail_max)
        × (u.device ≡ t.device)
        × (u.events ≡ t.events)
        × (u.process ≡ t.process)
        × (u.handshake ≡ t.handshake))
      (ltb t.tail_max (length (t.tail ++ (line ∷ [])))) (refl, refl, refl, refl, refl)
      (refl, refl, refl, refl, refl)

-- What emit does to what is told.
pub emit-IsTold :
    (ls : List Str) (kind : EventType) (line : Str) {t u : Tunnel}
    → IsEmitted kind line t u
    → IsTold ls t.process (record { kind = kind; line = line })
    → (length t.events ≤ events_room) × All (IsTold ls t.process) t.events
    → (length u.events ≤ events_room) × All (IsTold ls u.process) u.events
emit-IsTold ls kind line {t = t} {u = u} v new_told (b, a) =
    subst (λ q. (length u.events ≤ events_room) × All (IsTold ls q) u.events)
      (sym v.lines_kept.same_process)
      (elim v.event_kept [
        | inl e ↦
            subst (λ xs. (length xs ≤ events_room) × All (IsTold ls t.process) xs) (sym e) (b, a)
        | inr (r, e) ↦
            subst (λ xs. (length xs ≤ events_room) × All (IsTold ls t.process) xs) (sym e)
              (
                omega (arith, r, length-append t.events (record { kind = kind; line = line } ∷ [])),
                All-last (IsTold ls t.process) t.events a new_told,
              )
      ])

pub handshake_of : (k : EventType) → is_handshake k ≡ true → k ≡ event_handshake
handshake_of event_handshake e = refl
handshake_of event_log e = absurd cc
handshake_of event_auth_fail e = absurd cc
handshake_of event_tun_fail e = absurd cc
handshake_of event_fatal e = absurd cc
handshake_of event_exit e = absurd cc

pub handshake_told :
    (line : Str) (ls : List Str)
    → Elem line ls
    → is_handshake (event_of line) ≡ true
    → IsAnnounced ls
handshake_told line ls h e = (line, (h, handshake_of (event_of line) e))

pub some_same : {a b : Str} → some a ≡ some b → a ≡ b
some_same e = cc

-- captureDevice changes the device alone, to a name of one.
abbrev pub IsDeviced : Tunnel → Tunnel → Type 0
IsDeviced t u =
    (u.tail ≡ t.tail)
    × (u.tail_max ≡ t.tail_max)
    × (u.process ≡ t.process)
    × (u.events ≡ t.events)
    × (u.handshake ≡ t.handshake)
    × (IsNamed t.device → IsNamed u.device)

pub device_in-named :
    (fs : List Str) (name : Str) → device_in fs ≡ some name → is_tunnel_device name ≡ true
unfolding device_in
device_in-named [] name = λ e. absurd cc
device_in-named (f ∷ fs) name =
    choice_of (λ (o : Option Str). o ≡ some name → is_tunnel_device name ≡ true)
      (is_tunnel_device (trim_prefix (trim (codes "[]():,.") f) (codes "/dev/")))
      (λ y e. subst (λ n. is_tunnel_device n ≡ true) (some_same e) y)
      (λ n e. device_in-named fs name e)

pub capture_device_lem : (line : Str) (t : Tunnel) → IsDeviced t (capture_device line t)
unfolding capture_device
capture_device_lem line t = elim (Option-cases (device_in (fields line))) [
  | inl e ↦ rw e (refl, refl, refl, refl, refl, λ h. h)
  | inr (name, e) ↦
      rw e (refl, refl, refl, refl, refl, λ h. inr (device_in-named (fields line) name e))
]

pub or_cases : (a b : Bool) → (a || b) ≡ true → (a ≡ true) ⊎ (b ≡ true)
or_cases true b e = inl refl
or_cases false b e = inr e

pub or_left : (a b : Bool) → a ≡ true → (a || b) ≡ true
or_left true b e = refl
or_left false b e = absurd cc

pub or_right : (a b : Bool) → b ≡ true → (a || b) ≡ true
or_right true b e = refl
or_right false b e = e

pub emit-signal :
    (kind : EventType) (line : Str) {t u : Tunnel}
    → IsEmitted kind line t u
    → ((t.handshake ≡ true) → u.handshake ≡ true)
      × (is_handshake kind ≡ true → u.handshake ≡ true)
      × (u.handshake ≡ true → (t.handshake ≡ true) ⊎ (is_handshake kind ≡ true))
emit-signal kind line {t = t} {u = u} v = (
  λ e. v.signal ∙ or_left t.handshake (is_handshake kind) e,
  λ e. v.signal ∙ or_right t.handshake (is_handshake kind) e,
  λ e. or_cases t.handshake (is_handshake kind) (sym v.signal ∙ e),
)
