-- ===== src/Proxy/Limit.antt =====
-- The limit of connections in acceptLoop of internal/proxy/proxy.go, as a relation between states: the
-- listener, the free places and the clients may act in any order.
use conduitvpn.Base.{
  ℕ, suc, ◌+◌, ◌≤◌, ◌≡◌, refl, Bool, true, false, arith, ltb, if◌then◌else◌, Str, ℤ, pos, negsuc,
}
use conduitvpn.Proxy.{Server, new}

-- `taken` places of the channel `limit` hold a value, one for each client that is being served;
-- `turned_away` clients found none.
pub record Gate : Type 0 where
  pub capacity : ℕ
  pub taken : ℕ
  pub served : ℕ
  pub finished : ℕ
  pub turned_away : ℕ
  pub closed : Bool

-- `make(chan struct{}, maxConns)`.
abbrev pub places : ℤ → ℕ
places (pos n) = n
places (negsuc n) = 0

abbrev pub open_gate : Server → Gate
open_gate s = record {
  capacity = places s.max_conns;
  taken = 0;
  served = 0;
  finished = 0;
  turned_away = 0;
  closed = false;
}

-- One connection that Accept returned: a client finds a place, or is closed.
unfoldable pub admit : Gate → Gate
admit g =
    if ltb g.taken g.capacity
    then record g { taken = suc g.taken; served = suc g.served }
    else record g { turned_away = suc g.turned_away }

-- Accept, the end of a client's goroutine, and Close. A listener that is closed accepts no more.
pub data Step (g : Gate) : Gate → Type 0 where
  accept : g.closed ≡ false → Step g (admit g)
  finish : {n : ℕ} → g.taken ≡ suc n → Step g (record g { taken = n; finished = suc g.finished })
  close : Step g (record g { closed = true })

pub data Reach (g : Gate) : Gate → Type 0 where
  here : Reach g g
  next : {h k : Gate} → Reach g h → Step h k → Reach g k

-- The clients that are being served fit into the limit, and each that was served holds a place or
-- has given it back.
pub record IsSound (s : Server) (g : Gate) : Type 0 where
  pub sized : g.capacity ≡ places s.max_conns
  pub fits : g.taken ≤ g.capacity
  pub counted : g.served ≡ g.taken + g.finished

admit-IsSound : (s : Server) {g : Gate} → IsSound s g → IsSound s (admit g)
unfolding admit
admit-IsSound s v = ground arith

Step-IsSound : (s : Server) {g h : Gate} → Step g h → IsSound s g → IsSound s h
Step-IsSound s (accept open_to) v = admit-IsSound s v
Step-IsSound s (finish e) v = record {
  sized = v.sized;
  fits = omega (arith, e, v.fits);
  counted = omega (arith, e, v.counted);
}
Step-IsSound s close v = record { sized = v.sized; fits = v.fits; counted = v.counted }

room :
    (host : Str) (port : ℤ) (user pass dns : Str) (max_conns : ℤ)
    → 1 ≤ places (new host port user pass dns max_conns).max_conns
unfolding new
room host port user pass dns (pos n) = ground arith
room host port user pass dns (negsuc n) = ground arith

kept_IsSound : (s : Server) {g h : Gate} → Reach g h → IsSound s g → IsSound s h
kept_IsSound s here v = v
kept_IsSound s (next r t) v = Step-IsSound s t (kept_IsSound s r v)

-- A server that was made with any limit has room for a client at least, and in every state that its
-- listener and its clients can reach, in whatever order they act, it serves no more clients than the
-- limit; the places that are not taken were given back.
pub Reach-IsSound :
    (host : Str) (port : ℤ) (user pass dns : Str) (max_conns : ℤ) {g : Gate}
    → Reach (open_gate (new host port user pass dns max_conns)) g
    → (1 ≤ g.capacity) × IsSound (new host port user pass dns max_conns) g
Reach-IsSound host port user pass dns max_conns r =
    let s = new host port user pass dns max_conns in
    let start : IsSound s (open_gate s) = record {
      sized = refl;
      fits = omega arith;
      counted = omega arith;
    } in
    let sound = kept_IsSound s r start in
    (omega (arith, sound.sized, room host port user pass dns max_conns), sound)
