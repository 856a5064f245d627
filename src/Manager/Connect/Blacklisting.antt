-- ===== src/Manager/Connect/Blacklisting.antt =====
-- The blacklist during connectLoop.
use conduitvpn.Base.{
  ℕ, suc, ◌≡◌, refl, ◌∙◌, Bool, true, false, ◌||◌, some, List, [], ◌∷◌, arith, if◌then◌else◌,
  is_some, All, Str, str_eq, str_eq_refl, lookup, lookup-insert, ◌⊎◌, inl, inr, none, Elem,
}
use conduitvpn.Node.{Node}
use conduitvpn.Manager.{Failure, Manager, is_blacklisted, mark_blacklisted, Call, Attempt}
use conduitvpn.Manager.Connect.{make_calls, exhausted, connect_loop}
use conduitvpn.Manager.Connect.Calls.{Stays, make_calls-Kept}
use conduitvpn.Manager.Connect.Kept.{Ran, Ran-Stays, Ran-released, try_node-all}

abbrev pub has : Str → Manager → Bool
has h m = is_some (lookup h m.blacklist)

mark-lookup :
    (h : Str) (n : Node) (reason : Failure) (saved : Bool) (now : Str) (m : Manager)
    → lookup h (mark_blacklisted n reason saved now m).blacklist ≡ (
        if str_eq n.host_name h
        then some (record { reason = reason; marked_at = now })
        else lookup h m.blacklist)
unfolding mark_blacklisted
mark-lookup h n reason saved now m = lookup-insert n.host_name h _ m.blacklist

mark-has :
    (h : Str) (n : Node) (reason : Failure) (saved : Bool) (now : Str) (m : Manager)
    → has h (mark_blacklisted n reason saved now m) ≡ str_eq n.host_name h || has h m
mark-has h n reason saved now m = rw (mark-lookup h n reason saved now m) (ground arith)

-- A host is on the blacklist, or a restore has taken it off.
abbrev pub IsMarked : Str → Manager → Type 0
IsMarked h m = (has h m ≡ true) ⊎ Elem h m.released

Stays-IsMarked :
    (h : Str) (m t : Manager)
    → Stays h m t
    → (Elem h m.released → Elem h t.released)
    → IsMarked h m
    → IsMarked h t
Stays-IsMarked h m t (inl e) k (inl on) = inl (rw e on)
Stays-IsMarked h m t (inr gone) k (inl on) = inr gone.1
Stays-IsMarked h m t e k (inr off) = inr (k off)

Ran-IsMarked : (h : Str) (n : Node) (m t : Manager) → Ran n m t → IsMarked h m → IsMarked h t
Ran-IsMarked h n m t r = Stays-IsMarked h m t (Ran-Stays h n m t r) (Ran-released h n m t r)

calls-IsMarked :
    (h : Str) (calls : List Call) (m : Manager) → IsMarked h m → IsMarked h (make_calls calls m)
calls-IsMarked h calls m =
    let k = make_calls-Kept calls m in
    Stays-IsMarked h m (make_calls calls m) (k.blacklist_kept h) (k.released_kept h)

mark-released :
    (n : Node) (reason : Failure) (saved : Bool) (now : Str) (m : Manager)
    → (mark_blacklisted n reason saved now m).released ≡ m.released
unfolding mark_blacklisted
mark-released n reason saved now m = refl

mark-IsMarked :
    (h : Str) (n : Node) (reason : Failure) (saved : Bool) (now : Str) (m : Manager)
    → IsMarked h m
    → IsMarked h (mark_blacklisted n reason saved now m)
mark-IsMarked h n reason saved now m (inl on) =
    inl (rw (mark-has h n reason saved now m, on) (ground arith))
mark-IsMarked h n reason saved now m (inr off) = inr (rw (mark-released n reason saved now m) off)

mark_self :
    (n : Node) (reason : Failure) (saved : Bool) (now : Str) (m : Manager)
    → IsMarked n.host_name (mark_blacklisted n reason saved now m)
mark_self n reason saved now m =
    inl (rw (mark-has n.host_name n reason saved now m, str_eq_refl n.host_name) refl)

connect_loop-IsMarked :
    (h : Str) (nodes : List Node) (world : ℕ → Attempt) (i : ℕ) (m : Manager)
    → IsMarked h m
    → IsMarked h (connect_loop world i nodes m).1
unfolding connect_loop
connect_loop-IsMarked h [] world i m e = e
connect_loop-IsMarked h (n ∷ ns) world i m e =
    let m' = make_calls (world i).calls_before m in
    let e' = calls-IsMarked h (world i).calls_before m e in
    try_node-all (λ o. IsMarked h o.1) n (world i) (connect_loop world (suc i) ns) m'
      (λ o t ne r. Ran-IsMarked h n m' t r e')
      (λ reason t r.
        connect_loop-IsMarked h ns world (suc i) _
          (mark-IsMarked h n reason (world i).saved (world i).now t (Ran-IsMarked h n m' t r e')))
      (λ y. connect_loop-IsMarked h ns world (suc i) m' e')

-- The entry of a host that no candidate has: it is the old one, or a restore has removed it.
abbrev Untouched : Str → Manager → Manager → Type 0
Untouched h m t = (lookup h t.blacklist ≡ lookup h m.blacklist) ⊎ (lookup h t.blacklist ≡ none)

Untouched-trans : (h : Str) (a b c : Manager) → Untouched h a b → Untouched h b c → Untouched h a c
Untouched-trans h a b c (inl p) (inl q) = inl (q ∙ p)
Untouched-trans h a b c (inr p) (inl q) = inr (q ∙ p)
Untouched-trans h a b c p (inr q) = inr q

Stays-Untouched : (h : Str) (m t : Manager) → Stays h m t → Untouched h m t
Stays-Untouched h m t (inl e) = inl e
Stays-Untouched h m t (inr e) = inr e.0

others :
    (h : Str) (nodes : List Node) (world : ℕ → Attempt) (i : ℕ) (m : Manager)
    → All (λ n. str_eq n.host_name h ≡ false) nodes
    → Untouched h m (connect_loop world i nodes m).1
unfolding connect_loop
others h [] world i m e = inl refl
others h (n ∷ ns) world i m e =
    let m' = make_calls (world i).calls_before m in
    let k = make_calls-Kept (world i).calls_before m in
    let first = Stays-Untouched h m m' (k.blacklist_kept h) in
    try_node-all (λ o. Untouched h m o.1) n (world i) (connect_loop world (suc i) ns) m'
      (λ o t ne r. Untouched-trans h m m' t first (Stays-Untouched h m' t (Ran-Stays h n m' t r)))
      (λ reason t r.
        let u = mark_blacklisted n reason (world i).saved (world i).now t in
        let same : Untouched h t u =
          inl (rw (mark-lookup h n reason (world i).saved (world i).now t, e.0) refl) in
        Untouched-trans h m t (connect_loop world (suc i) ns u).1
          (Untouched-trans h m m' t first (Stays-Untouched h m' t (Ran-Stays h n m' t r)))
          (Untouched-trans h t u (connect_loop world (suc i) ns u).1 same
            (others h ns world (suc i) u e.1)))
      (λ y.
        Untouched-trans h m m' (connect_loop world (suc i) ns m').1 first
          (others h ns world (suc i) m' e.1))

listed : (n : Node) (m : Manager) → is_blacklisted m n ≡ true → has n.host_name m ≡ true
unfolding is_blacklisted
listed n m e = e

exhausted-All :
    (nodes : List Node) (world : ℕ → Attempt) (i : ℕ) (m : Manager)
    → (connect_loop world i nodes m).0 ≡ exhausted
    → All (λ n. IsMarked n.host_name (connect_loop world i nodes m).1) nodes
unfolding connect_loop
exhausted-All [] world i m e = tt
exhausted-All (n ∷ ns) world i m f =
    let m' = make_calls (world i).calls_before m in
    try_node-all (λ o. o.0 ≡ exhausted → All (λ k. IsMarked k.host_name o.1) (n ∷ ns)) n (world i)
      (connect_loop world (suc i) ns) m' (λ o t ne r e. absurd (ne e))
      (λ reason t r e. (
        connect_loop-IsMarked n.host_name ns world (suc i) _
            (mark_self n reason (world i).saved (world i).now t),
        exhausted-All ns world (suc i) _ e,
      ))
      (λ y e. (
        connect_loop-IsMarked n.host_name ns world (suc i) m' (inl (listed n m' y)),
        exhausted-All ns world (suc i) m' e,
      ))
      f

-- Whatever calls are made during connectLoop: a host that is on the blacklist stays there unless
-- RestoreAvailableBlacklist takes it off; the entry of a host that is no candidate's does not change,
-- but for its removal; and when connectLoop reports that all candidates are exhausted, each of them is
-- on the blacklist or was taken off by a restore, the one that is locked by the fixed mode included.
pub connect_loop-blacklist :
    (world : ℕ → Attempt) (nodes : List Node) (m : Manager)
    → ((h : Str) → IsMarked h m → IsMarked h (connect_loop world 0 nodes m).1)
      × ((h : Str)
          → All (λ n. str_eq n.host_name h ≡ false) nodes
          → (lookup h (connect_loop world 0 nodes m).1.blacklist ≡ lookup h m.blacklist)
            ⊎ (lookup h (connect_loop world 0 nodes m).1.blacklist ≡ none))
      × ((connect_loop world 0 nodes m).0 ≡ exhausted
          → All (λ n. IsMarked n.host_name (connect_loop world 0 nodes m).1) nodes)
connect_loop-blacklist world nodes m = (
  λ h e. connect_loop-IsMarked h nodes world 0 m e,
  λ h e. others h nodes world 0 m e,
  exhausted-All nodes world 0 m,
)
