-- ===== src/Manager/Run/Stopping.antt =====
-- When Run returns, and when its waits pass.
use conduitvpn.Base.{
  ℕ, suc, ◌+◌, ◌≤◌, ◌≡◌, refl, ◌≢◌, ◌⊎◌, inl, inr, true, false, Option, none, some, List, [], ◌∷◌,
  ◌++◌, arith, ◌==◌, Bool-cases, choice, choice_of, length,
}
use conduitvpn.Node.{Node}
use conduitvpn.Manager.{Manager, select_candidates}
use conduitvpn.Manager.Connect.{Outcome, cancelled_loop, route_changed, exhausted, monitoring}
use conduitvpn.Manager.Run.{
  Requests, trigger_fetch, Wait, context_ended, refresh_asked, time_passed, Round, fetch_and_bench,
  wait, Step, returned, again, held, panicked, after_wait, after_loop, requests_at, after_fetch,
  round, after_round, rounds, started, run,
}

-- A request is remembered in the channel; so it is when New has made the manager.
abbrev pub IsSound : Requests → Type 0
IsSound q = q.asked ≡ true → q.token ≡ true

-- TriggerFetch is called while the round does not wait.
abbrev pub Called : Round → Type 0
Called r = (r.asked_before ≡ true) ⊎ (r.asked_during ≡ true)

-- The context had ended at one of the places where the round looks, or TriggerFetch was called.
abbrev pub Stops : Round → Type 0
Stops r =
    (r.ended_before ≡ true)
    ⊎ (r.ended_fetching ≡ true)
    ⊎ (r.ended_connecting ≡ true)
    ⊎ (r.pause ≡ context_ended)
    ⊎ (r.pause ≡ refresh_asked)
    ⊎ Called r

-- What a round that ends so had before it, and what it leaves.
abbrev Ends : Round → Requests → Step → Type 0
Ends r q (returned t) = (q.token ≡ true) ⊎ Stops r
Ends r q (again true t q') =
    (q'.asked ≡ false)
    × (q'.token ≡ false)
    × ((requests_at r q).token ≡ false)
    × (r.pause ≢ refresh_asked)
Ends r q (again false t q') = q' ≡ requests_at r q
Ends r q (held t) = Unit
Ends r q panicked = Unit

requests_at-IsSound : (r : Round) (q : Requests) → IsSound (requests_at r q)
unfolding requests_at trigger_fetch
requests_at-IsSound r q e = ground arith

requests_at-Called :
    (r : Round) (q : Requests) → IsSound q → Called r → (requests_at r q).token ≡ true
unfolding requests_at trigger_fetch
requests_at-Called r q s (inl e) = ground (arith, s)
requests_at-Called r q s (inr e) = ground (arith, s)

requests_at-token : (r : Round) (q : Requests) → q.token ≡ true → (requests_at r q).token ≡ true
unfolding requests_at trigger_fetch
requests_at-token r q e = ground arith

requests_at-from :
    (r : Round) (q : Requests) → (requests_at r q).token ≡ true → (q.token ≡ true) ⊎ Called r
unfolding requests_at trigger_fetch
requests_at-from r q e = elim (Bool-cases r.asked_before) [
  | inl y ↦ inr (inl y)
  | inr n ↦ elim (Bool-cases r.asked_during) [ inl y ↦ inr (inr y) | inr k ↦ inl (ground arith) ]
]

wait-Ends :
    (r : Round) (q : Requests) (w : Wait) (m : Manager)
    → r.pause ≡ w
    → Ends r q (after_wait (wait w (requests_at r q)) m)
unfolding wait trigger_fetch
wait-Ends r q context_ended m e = inr (inr (inr (inr (inl e))))
wait-Ends r q refresh_asked m e = elim (Bool-cases (requests_at r q).asked) [
  | inl y ↦ rw (y, requests_at-IsSound r q y) (inr (inr (inr (inr (inr (inl e))))))
  | inr n ↦ rw n (inr (inr (inr (inr (inr (inl e))))))
]
wait-Ends r q time_passed m e = elim (Bool-cases (requests_at r q).token) [
  | inl y ↦ rw y (elim (requests_at-from r q y) [
    | inl t ↦ inl t
    | inr c ↦ inr (inr (inr (inr (inr (inr c)))))
  ])
  | inr n ↦ rw n (ground (arith, requests_at-IsSound r q), refl, n, λ p. cc)
]

loop-Ends :
    (r : Round) (q : Requests) (o : Outcome) (m : Manager)
    → Ends r q (after_loop r (requests_at r q) (o, m))
loop-Ends r q monitoring m = tt
loop-Ends r q route_changed m =
    choice_of (Ends r q) r.ended_connecting (λ e. inr (inr (inr (inl e)))) (λ e. refl)
loop-Ends r q cancelled_loop m =
    choice_of (Ends r q) r.ended_connecting (λ e. inr (inr (inr (inl e))))
      (λ e. wait-Ends r q r.pause _ refl)
loop-Ends r q exhausted m =
    choice_of (Ends r q) r.ended_connecting (λ e. inr (inr (inr (inl e))))
      (λ e. wait-Ends r q r.pause _ refl)

fetch-Ends :
    (r : Round) (q : Requests) (o : Option (List Node)) (m : Manager)
    → Ends r q (after_fetch r (requests_at r q) (o, m))
fetch-Ends r q none m = tt
fetch-Ends r q (some nodes) m =
    choice_of (Ends r q) r.ended_fetching (λ e. inr (inr (inl e)))
      (λ e. choice (Ends r q) (length nodes == 0) (wait-Ends r q r.pause m refl) (
        choice (Ends r q) (length (select_candidates m nodes) == 0) (wait-Ends r q r.pause m refl)
          (loop-Ends r q _ _)))

round-Ends : (r : Round) (m : Manager) (q : Requests) → Ends r q (round r m q)
unfolding round
round-Ends r m q =
    choice_of (Ends r q) r.ended_before (λ e. inr (inl e))
      (λ e. fetch-Ends r q (fetch_and_bench r.answer m).0 (fetch_and_bench r.answer m).1)

-- Some element of a list.
abbrev pub Some : (Round → Type 0) → List Round → Type 0
Some P [] = ⊥
Some P (r ∷ rs) = P r ⊎ Some P rs

-- The rest of a run after a round.
abbrev Next : Type 0
Next = Manager → Requests → ℕ × Step

after_round-returned :
    (r : Round) (rs : List Round) (q : Requests) (s : Step) (next : Next) (t : Manager)
    → Ends r q s
    → ((u : Manager) (q' : Requests)
        → (next u q').1 ≡ returned t
        → (q'.token ≡ true) ⊎ Some Stops rs)
    → (after_round s next).1 ≡ returned t
    → (q.token ≡ true) ⊎ Some Stops (r ∷ rs)
after_round-returned r rs q (returned u) next t (inl e) k h = inl e
after_round-returned r rs q (returned u) next t (inr e) k h = inr (inl e)
after_round-returned r rs q (held u) next t e k h = absurd cc
after_round-returned r rs q panicked next t e k h = absurd cc
after_round-returned r rs q (again true u q') next t e k h = elim (k u q' h) [
  | inl y ↦ absurd (cc (y, e.1))
  | inr y ↦ inr (inr y)
]
after_round-returned r rs q (again false u q') next t e k h = elim (k u q' h) [
  | inl y ↦ elim (requests_at-from r q (rw (← e) y)) [
    | inl z ↦ inl z
    | inr z ↦ inr (inl (inr (inr (inr (inr (inr z))))))
  ]
  | inr y ↦ inr (inr y)
]

rounds-returned :
    (rs : List Round) (m : Manager) (q : Requests) (t : Manager)
    → (rounds rs m q).1 ≡ returned t
    → (q.token ≡ true) ⊎ Some Stops rs
unfolding rounds
rounds-returned [] m q t h = absurd cc
rounds-returned (r ∷ rs) m q t h =
    after_round-returned r rs q (round r m q) (rounds rs) t (round-Ends r m q)
      (λ u q' e. rounds-returned rs u q' t e) h

-- No more waits pass in the rest than `k`, if the round leaves sound requests.
after_round-waits :
    (r : Round) (q : Requests) (s : Step) (next : Next) (k : ℕ)
    → Ends r q s
    → ((u : Manager) (q' : Requests) → IsSound q' → (next u q').0 ≤ k)
    → (after_round s next).0 ≤ suc k
after_round-waits r q (returned u) next k e h = omega arith
after_round-waits r q (held u) next k e h = omega arith
after_round-waits r q panicked next k e h = omega arith
after_round-waits r q (again true u q') next k e h = omega (arith, h u q' (λ p. cc (p, e.0)))
after_round-waits r q (again false u q') next k e h =
    omega (arith, h u q' (rw e (requests_at-IsSound r q)))

rounds-waits :
    (rs : List Round) (m : Manager) (q : Requests) → IsSound q → (rounds rs m q).0 ≤ length rs
unfolding rounds
rounds-waits [] m q s = omega arith
rounds-waits (r ∷ rs) m q s =
    after_round-waits r q (round r m q) (rounds rs) (length rs) (round-Ends r m q)
      (λ u q' e. rounds-waits rs u q' e)

-- A round that comes to its wait with a token has no wait that passes; it leaves the token.
after_round-token :
    (r : Round) (q : Requests) (s : Step) (next : Next)
    → Ends r q s
    → (requests_at r q).token ≡ true
    → ((u : Manager) (q' : Requests) → q'.token ≡ true → (next u q').0 ≡ 0)
    → (after_round s next).0 ≡ 0
after_round-token r q (returned u) next e t h = refl
after_round-token r q (held u) next e t h = refl
after_round-token r q panicked next e t h = refl
after_round-token r q (again true u q') next e t h = absurd (cc (t, e.2))
after_round-token r q (again false u q') next e t h = h u q' (rw e t)

rounds-token :
    (rs : List Round) (m : Manager) (q : Requests) → q.token ≡ true → (rounds rs m q).0 ≡ 0
unfolding rounds
rounds-token [] m q e = refl
rounds-token (r ∷ rs) m q e =
    after_round-token r q (round r m q) (rounds rs) (round-Ends r m q) (requests_at-token r q e)
      (λ u q' k. rounds-token rs u q' k)

-- The wait of a round in which TriggerFetch is called does not pass.
after_round-asked :
    (r : Round) (q : Requests) (s : Step) (next : Next) (k : ℕ)
    → Ends r q s
    → r.pause ≡ refresh_asked
    → ((u : Manager) (q' : Requests) → IsSound q' → (next u q').0 ≤ k)
    → (after_round s next).0 ≤ k
after_round-asked r q (returned u) next k e p h = omega arith
after_round-asked r q (held u) next k e p h = omega arith
after_round-asked r q panicked next k e p h = omega arith
after_round-asked r q (again true u q') next k e p h = absurd (e.3 p)
after_round-asked r q (again false u q') next k e p h = h u q' (rw e (requests_at-IsSound r q))

module _ (later : List Round) (r : Round) where
  Called-first :
      (m : Manager) (q : Requests) → IsSound q → Called r → (rounds (r ∷ later) m q).0 ≡ 0
  unfolding rounds
  Called-first m q s c =
      after_round-token r q (round r m q) (rounds later) (round-Ends r m q)
        (requests_at-Called r q s c) (λ u q' k. rounds-token later u q' k)

  asked_first :
      (m : Manager) (q : Requests)
      → r.pause ≡ refresh_asked
      → (rounds (r ∷ later) m q).0 ≤ length later
  unfolding rounds
  asked_first m q p =
      after_round-asked r q (round r m q) (rounds later) (length later) (round-Ends r m q) p
        (λ u q' e. rounds-waits later u q' e)

  Called-waits :
      (earlier : List Round) (m : Manager) (q : Requests)
      → IsSound q
      → Called r
      → (rounds (earlier ++ r ∷ later) m q).0 ≤ length earlier
  unfolding rounds
  Called-waits [] m q s c = omega (arith, Called-first m q s c)
  Called-waits (x ∷ xs) m q s c =
      after_round-waits x q (round x m q) (rounds (xs ++ r ∷ later)) (length xs) (round-Ends x m q)
        (λ u q' e. Called-waits xs u q' e c)

  asked-waits :
      (earlier : List Round) (m : Manager) (q : Requests)
      → r.pause ≡ refresh_asked
      → (rounds (earlier ++ r ∷ later) m q).0 ≤ length earlier + length later
  unfolding rounds
  asked-waits [] m q p = omega (arith, asked_first m q p)
  asked-waits (x ∷ xs) m q p = omega (
    arith,
    after_round-waits x q (round x m q) (rounds (xs ++ r ∷ later)) (length xs + length later)
        (round-Ends x m q) (λ u q' e. asked-waits xs u q' p),
  )

-- Run returns nil only if the context has ended or TriggerFetch was called, in some round or before
-- the first; fetches, probes and tunnels that fail do not make it return. And a call of TriggerFetch
-- does: once it is called while a round does not wait, no wait of that round or a later one passes,
-- so that the first of these that Run comes to is the end of Run; a wait in which it is called does
-- not pass either.
pub run-Stops :
    (rs : List Round) (m : Manager) (q : Requests)
    → IsSound q
    → ((k : ℕ) (t : Manager)
        → run none rs m q ≡ started (k, returned t)
        → (q.token ≡ true) ⊎ Some Stops rs)
      × ((earlier later : List Round) (r : Round)
          → rs ≡ earlier ++ r ∷ later
          → (Called r → (rounds rs m q).0 ≤ length earlier)
            × (r.pause ≡ refresh_asked → (rounds rs m q).0 ≤ length earlier + length later))
unfolding run
run-Stops rs m q s = (
  λ k t h. rounds-returned rs m q t (cc h),
  λ earlier later r e. (
    λ c. rw e (Called-waits later r earlier m q s c),
    λ p. rw e (asked-waits later r earlier m q p),
  ),
)
