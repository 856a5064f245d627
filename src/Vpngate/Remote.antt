-- ===== src/Vpngate/Remote.antt =====
-- parseRemote of internal/vpngate/parse.go: the leftmost match of
-- `(?m)^remote\s+(\S+)\s+(\d+)(?:\s+(udp|tcp))?`. The classes of the expression exclude one another, so
-- that each repetition takes all it can.
use conduitvpn.Base.{
  ℕ, ◌≡◌, refl, ◌⊎◌, inl, inr, Bool, true, not, ◌&&◌, ◌||◌, Option, none, some, [], ◌∷◌, leb, ◌==◌,
  if◌then◌else◌, drop, Str, codes, is_empty, has_prefix, ℤ, pos, atoi_or_zero, choice,
}

-- `\s` and `\d`.
abbrev pub is_blank : ℕ → Bool
is_blank c = c == 9 || c == 10 || c == 12 || c == 13 || c == 32

abbrev pub is_digit : ℕ → Bool
is_digit c = leb b'0' c && leb c b'9'

abbrev cons_left : ℕ → Str × Str → Str × Str
cons_left c (l, r) = (c ∷ l, r)

-- The longest beginning of the bytes that satisfy `p`, and the rest.
unfoldable pub span : (ℕ → Bool) → Str → Str × Str
span p [] = ([], [])
span p (c ∷ s) = let rest = cons_left c (span p s) in if p c then rest else ([], c ∷ s)

-- What follows at least one of the bytes of `p`, with these bytes.
abbrev pub taken : Str × Str → Option (Str × Str)
taken ([], r) = none
taken (c ∷ l, r) = some (c ∷ l, r)

abbrev pub some_of : (ℕ → Bool) → Str → Option (Str × Str)
unfolding span
some_of p s = taken (span p s)

abbrev pub behind : {A : Type 0} → Option (Str × Str) → (Str → Str → Option A) → Option A
behind none f = none
behind (some (l, r)) f = f l r

-- The optional protocol.
abbrev pub proto_after : Option (Str × Str) → Str
unfolding has_prefix
proto_after none = []
proto_after (some (blanks, s)) =
    if has_prefix s (codes "udp")
    then codes "udp"
    else if has_prefix s (codes "tcp")
    then codes "tcp"
    else []

unfoldable pub remote_at : Str → Option (Str × Str × Str)
unfolding has_prefix some_of proto_after
remote_at s =
    if not (has_prefix s (codes "remote"))
    then none
    else behind (some_of is_blank (drop 6 s)) (λ a after_remote.
      behind (some_of (λ c. not (is_blank c)) after_remote) (λ host after_host.
        behind (some_of is_blank after_host) (λ b before_port.
          behind (some_of is_digit before_port)
            (λ port rest. some (host, port, proto_after (some_of is_blank rest))))))

abbrev pub or_later : {A : Type 0} → Option A → Option A → Option A
or_later (some m) later = some m
or_later none later = later

-- From a position on, which may start a line.
unfoldable pub find_remote : Bool → Str → Option (Str × Str × Str)
unfolding remote_at
find_remote line_start [] = none
find_remote line_start (c ∷ s) =
    let later = find_remote (c == 10) s in
    if line_start then or_later (remote_at (c ∷ s)) later else later

abbrev pub remote_or : Str → Option (Str × Str × Str) → Str × ℤ × Str
unfolding atoi_or_zero
remote_or fallback none = (fallback, pos 1194, codes "udp")
remote_or fallback (some (host, port, proto)) =
    (host, atoi_or_zero port, if is_empty proto then codes "udp" else proto)

unfoldable pub parse_remote : Str → Str → Str × ℤ × Str
unfolding find_remote remote_or
parse_remote cfg fallback = remote_or fallback (find_remote true cfg)

-- A protocol that parseRemote gives.
abbrev pub IsProto : Str → Type 0
IsProto s = (s ≡ codes "udp") ⊎ (s ≡ codes "tcp")

abbrev IsMaybeProto : Str → Type 0
IsMaybeProto s = (s ≡ []) ⊎ IsProto s

proto_after-IsMaybeProto : (o : Option (Str × Str)) → IsMaybeProto (proto_after o)
unfolding proto_after
proto_after-IsMaybeProto none = inl refl
proto_after-IsMaybeProto (some (b, s)) =
    choice IsMaybeProto (has_prefix s (codes "udp")) (inr (inl refl))
      (choice IsMaybeProto (has_prefix s (codes "tcp")) (inr (inr refl)) (inl refl))

abbrev HasProto : Option (Str × Str × Str) → Type 0
HasProto none = Unit
HasProto (some m) = IsMaybeProto m.2

module _ (P : Option (Str × Str × Str) → Type 0) (nothing : P none) where
  behind-all :
      (o : Option (Str × Str)) (f : Str → Str → Option (Str × Str × Str))
      → ((l r : Str) → P (f l r))
      → P (behind o f)
  behind-all none f h = nothing
  behind-all (some (l, r)) f h = h l r

  -- What holds of every match that it builds holds of the match.
  remote_at-all :
      (s : Str)
      → ((host port : Str) (o : Option (Str × Str)) → P (some (host, port, proto_after o)))
      → P (remote_at s)
  unfolding remote_at
  remote_at-all s h = choice P (not (has_prefix s (codes "remote"))) nothing (
      behind-all (some_of is_blank (drop 6 s)) _ (λ a s1.
        behind-all (some_of (λ c. not (is_blank c)) s1) _ (λ host s2.
          behind-all (some_of is_blank s2) _ (λ b s3.
            behind-all (some_of is_digit s3) _
              (λ port rest. h host port (some_of is_blank rest))))))

remote_at-HasProto : (s : Str) → HasProto (remote_at s)
remote_at-HasProto s = remote_at-all HasProto tt s (λ host port o. proto_after-IsMaybeProto o)

or_later-HasProto :
    (a b : Option (Str × Str × Str)) → HasProto a → HasProto b → HasProto (or_later a b)
or_later-HasProto none b g h = h
or_later-HasProto (some m) b g h = g

find_remote-HasProto : (b : Bool) (s : Str) → HasProto (find_remote b s)
unfolding find_remote
find_remote-HasProto b [] = tt
find_remote-HasProto b (c ∷ s) =
    choice HasProto b
      (or_later-HasProto (remote_at (c ∷ s)) (find_remote (c == 10) s) (remote_at-HasProto (c ∷ s))
        (find_remote-HasProto (c == 10) s))
      (find_remote-HasProto (c == 10) s)

remote_or-IsProto :
    (fallback : Str) (o : Option (Str × Str × Str)) → HasProto o → IsProto (remote_or fallback o).2
unfolding remote_or
remote_or-IsProto fallback none h = inl refl
remote_or-IsProto fallback (some (host, port, proto)) (inl e) = rw e (inl refl)
remote_or-IsProto fallback (some (host, port, proto)) (inr (inl e)) = rw e (inl refl)
remote_or-IsProto fallback (some (host, port, proto)) (inr (inr e)) = rw e (inr refl)

pub parse_remote-IsProto : (cfg fallback : Str) → IsProto (parse_remote cfg fallback).2
unfolding parse_remote
parse_remote-IsProto cfg fallback =
    remote_or-IsProto fallback (find_remote true cfg) (find_remote-HasProto true cfg)
