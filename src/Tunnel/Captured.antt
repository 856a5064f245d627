-- ===== src/Tunnel/Captured.antt =====
-- What a tunnel keeps of the output of its process: the tail of the lines, and what each step does to
-- the state of it.
use conduitvpn.Base.{
  ltb→lt, choice_of, ℕ, zero, suc, ◌+◌, ◌-◌, ◌≤◌, ◌<◌, ◌≡◌, refl, sym, ap, ◌∙◌, ◌⊎◌, inl, inr, Bool,
  true, false, ◌||◌, List, [], ◌∷◌, ◌++◌, arith, ltb, length, drop, length-append, length-drop, Str,
}
use conduitvpn.Tunnel.{
  signalled, events_room, EventType, capture, emit, last, Tunnel, event_log, event_handshake,
  event_auth_fail, event_tun_fail, event_fatal, event_exit, is_handshake,
}

drop-append :
    {A : Type 0} (m : ℕ) (xs ys : List A) → m ≤ length xs → drop m (xs ++ ys) ≡ drop m xs ++ ys
drop-append zero xs ys h = refl
drop-append (suc m) [] ys h = absurd (omega (arith, h))
drop-append (suc m) (x ∷ xs) ys h = drop-append m xs ys (omega (arith, h))

drop_nil : {A : Type 0} (m : ℕ) → let nil : List A = [] in drop m nil ≡ nil
drop_nil zero = refl
drop_nil (suc m) = refl

drop-drop : {A : Type 0} (i j : ℕ) (xs : List A) → drop j (drop i xs) ≡ drop (i + j) xs
drop-drop zero j xs = let e : j ≡ 0 + j = omega arith in ap (λ k. drop k xs) e
drop-drop (suc i) j [] = drop_nil j ∙ sym (drop_nil (suc i + j))
drop-drop (suc i) j (x ∷ xs) =
    let e : suc (i + j) ≡ suc i + j = omega arith in drop-drop i j xs ∙ ap (λ k. drop k (x ∷ xs)) e

-- The last lines of the last lines and one more are the last lines of all.
pub last-append :
    {A : Type 0} (n : ℕ) (xs : List A) (a : A)
    → last n (last n xs ++ (a ∷ [])) ≡ last n (xs ++ (a ∷ []))
unfolding last
last-append n xs a =
    let i = length xs - n in
    let e : drop i xs ++ (a ∷ []) ≡ drop i (xs ++ (a ∷ [])) =
      sym (drop-append i xs (a ∷ []) (omega arith)) in
    let l : length (drop i xs ++ (a ∷ [])) ≡ length xs - i + 1 =
      length-append (drop i xs) (a ∷ []) ∙ ap (λ k. k + 1) (length-drop i xs) in
    ap (λ ys. drop (length (drop i xs ++ (a ∷ [])) - n) ys) e
    ∙ drop-drop i (length (drop i xs ++ (a ∷ [])) - n) (xs ++ (a ∷ []))
    ∙ ap (λ k. drop k (xs ++ (a ∷ []))) (omega (arith, l, length-append xs (a ∷ [])))

-- What capture leaves is the last of what it had and the line.
pub capture-tail :
    (line : Str) (t : Tunnel) → (capture line t).tail ≡ last t.tail_max (t.tail ++ (line ∷ []))
unfolding capture last
capture-tail line t =
    choice_of (λ (u : Tunnel). u.tail ≡ last t.tail_max (t.tail ++ (line ∷ [])))
      (ltb t.tail_max (length (t.tail ++ (line ∷ [])))) (λ y. refl)
      (λ n.
        let e : 0 ≡ length (t.tail ++ (line ∷ [])) - t.tail_max = ground (arith, n) in
        ap (λ k. drop k (t.tail ++ (line ∷ []))) e)

-- The parts of the state that a step leaves as they are.
pub record SameLines (t u : Tunnel) : Type 0 where
  pub same_tail : u.tail ≡ t.tail
  pub same_max : u.tail_max ≡ t.tail_max
  pub same_device : u.device ≡ t.device
  pub same_process : u.process ≡ t.process

-- emit: a line of the kind of a handshake is announced, and its event is appended where there is room.
pub record IsEmitted (kind : EventType) (line : Str) (t u : Tunnel) : Type 0 where
  pub lines_kept : SameLines t u
  pub signal : u.handshake ≡ (t.handshake || is_handshake kind)
  pub event_kept :
      (u.events ≡ t.events)
      ⊎ ((length t.events < events_room)
          × (u.events ≡ t.events ++ (record { kind = kind; line = line } ∷ [])))

IsSignalled : EventType → Tunnel → Tunnel → Type 0
IsSignalled kind t u =
    SameLines t u × (u.handshake ≡ (t.handshake || is_handshake kind)) × (u.events ≡ t.events)

or_false : (b : Bool) → b ≡ (b || false)
or_false true = refl
or_false false = refl

or_true : (b : Bool) → true ≡ (b || true)
or_true true = refl
or_true false = refl

SameLines-refl : (t : Tunnel) → SameLines t t
SameLines-refl t = record {
  same_tail = refl;
  same_max = refl;
  same_device = refl;
  same_process = refl;
}

signalled_lem : (kind : EventType) (t : Tunnel) → IsSignalled kind t (signalled kind t)
unfolding IsSignalled
signalled_lem event_handshake t = (
  record { same_tail = refl; same_max = refl; same_device = refl; same_process = refl },
  or_true t.handshake,
  refl,
)
signalled_lem event_log t = (SameLines-refl t, or_false t.handshake, refl)
signalled_lem event_auth_fail t = (SameLines-refl t, or_false t.handshake, refl)
signalled_lem event_tun_fail t = (SameLines-refl t, or_false t.handshake, refl)
signalled_lem event_fatal t = (SameLines-refl t, or_false t.handshake, refl)
signalled_lem event_exit t = (SameLines-refl t, or_false t.handshake, refl)

pub emit_lem :
    (kind : EventType) (line : Str) (t : Tunnel) → IsEmitted kind line t (emit kind line t)
unfolding emit IsSignalled
emit_lem kind line t =
    let u = signalled kind t in
    let (same, s, e) = signalled_lem kind t in
    choice_of (IsEmitted kind line t) (ltb (length u.events) events_room)
      (λ y. record {
        lines_kept = record {
          same_tail = same.same_tail;
          same_max = same.same_max;
          same_device = same.same_device;
          same_process = same.same_process;
        };
        signal = s;
        event_kept = inr (
          ltb→lt (length t.events) events_room (sym (ap (λ es. ltb (length es) events_room) e) ∙ y),
          ap (λ es. es ++ (record { kind = kind; line = line } ∷ [])) e,
        );
      })
      (λ n. record { lines_kept = same; signal = s; event_kept = inl e })
