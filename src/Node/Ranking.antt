-- ===== src/Node/Ranking.antt =====
-- What the two rankings of internal/node/node.go promise.
use mathlib.Core.List.{Perm}
use conduitvpn.Base.{
  ℕ, ◌≤◌, ◌≡◌, refl, Bool, true, false, List, [], ◌∷◌, ◌++◌, arith, length, take, drop, keep, All,
  length-take, IsSorted, sort_stable, sort_stable-perm, sort_stable-IsSorted, All-sort_stable,
  leb_ℤ, ltb_ℤ_trans, ltb_ℤ_asymm, ℤ, ◌&&◌, suc, zero,
}
use conduitvpn.Node.{Node, lower_latency, is_reachable, top_by_latency}

-- A node has the score `s`.
abbrev pub scores : ℤ → Node → Bool
scores s n = leb_ℤ n.score s && leb_ℤ s n.score

All-keep : {A : Type 0} (p : A → Bool) (xs : List A) → All (λ x. p x ≡ true) (keep p xs)
All-keep p [] = tt
All-keep p (x ∷ xs) = ground (arith, All-keep p xs)

All-take : {A : Type 0} (P : A → Type 0) (k : ℕ) (xs : List A) → All P xs → All P (take k xs)
All-take P zero xs h = tt
All-take P (suc k) [] h = tt
All-take P (suc k) (x ∷ xs) h = (h.0, All-take P k xs h.1)

All-drop : {A : Type 0} (P : A → Type 0) (k : ℕ) (xs : List A) → All P xs → All P (drop k xs)
All-drop P zero xs h = h
All-drop P (suc k) [] h = tt
All-drop P (suc k) (x ∷ xs) h = All-drop P k xs h.1

-- In a sorted list no element that is left out comes before one that is taken.
IsSorted-take :
    {A : Type 0} (less : A → A → Bool) (k : ℕ) (xs : List A)
    → IsSorted less xs
    → IsSorted less (take k xs) × All (λ x. All (λ y. less y x ≡ false) (drop k xs)) (take k xs)
IsSorted-take less zero xs h = (tt, tt)
IsSorted-take less (suc k) [] h = (tt, tt)
IsSorted-take less (suc k) (x ∷ xs) h =
    let rest = IsSorted-take less k xs h.1 in
    (
      (All-take (λ y. less y x ≡ false) k xs h.0, rest.0),
      (All-drop (λ y. less y x ≡ false) k xs h.0, rest.1),
    )

take_all : {A : Type 0} (k : ℕ) (xs : List A) → length xs ≤ k → take k xs ≡ xs
take_all zero [] h = refl
take_all zero (x ∷ xs) h = elim h [ ]
take_all (suc k) [] h = refl
take_all (suc k) (x ∷ xs) h = ground (arith, take_all k xs)

abbrev pub ranked : List Node → List Node
ranked nodes = sort_stable lower_latency (keep is_reachable nodes)

-- The cut of the code is a plain `take`, also where fewer nodes are there.
top_by_latency-take : (nodes : List Node) (k : ℕ) → top_by_latency nodes k ≡ take k (ranked nodes)
unfolding top_by_latency
top_by_latency-take nodes k = ground (arith, take_all k (ranked nodes))

-- The nodes that are left out of the first `k`.
abbrev pub left_out : List Node → ℕ → List Node
left_out nodes k = drop k (ranked nodes)

take-append-drop : {A : Type 0} (k : ℕ) (xs : List A) → take k xs ++ drop k xs ≡ xs
take-append-drop zero xs = refl
take-append-drop (suc k) [] = refl
take-append-drop (suc k) (x ∷ xs) = ground (arith, take-append-drop k xs)

ranked-IsSorted : (nodes : List Node) → IsSorted lower_latency (ranked nodes)
ranked-IsSorted nodes =
    sort_stable-IsSorted lower_latency (λ a b. ltb_ℤ_asymm a.latency_ms b.latency_ms)
      (λ a b c h k. ltb_ℤ_trans a.latency_ms b.latency_ms c.latency_ms h k)
      (keep is_reachable nodes)

-- At most `k` nodes come back, each of them tested with a positive latency, fastest first. With the
-- nodes left out they are exactly the reachable nodes, and none of those left out is faster.
pub top_by_latency_lem :
    (nodes : List Node) (k : ℕ)
    → (length (top_by_latency nodes k) ≤ k)
      × All (λ n. is_reachable n ≡ true) (top_by_latency nodes k)
      × IsSorted lower_latency (top_by_latency nodes k)
      × Perm (top_by_latency nodes k ++ left_out nodes k) (keep is_reachable nodes)
      × All (λ n. All (λ m. lower_latency m n ≡ false) (left_out nodes k)) (top_by_latency nodes k)
top_by_latency_lem nodes k =
    let cut = IsSorted-take lower_latency k (ranked nodes) (ranked-IsSorted nodes) in
    rw (top_by_latency-take nodes k) (
      omega (arith, length-take k (ranked nodes)),
      All-take (λ n. is_reachable n ≡ true) k (ranked nodes)
          (All-sort_stable lower_latency (λ n. is_reachable n ≡ true) (keep is_reachable nodes)
            (All-keep is_reachable nodes)),
      cut.0,
      rw (take-append-drop k (ranked nodes))
          (sort_stable-perm lower_latency (keep is_reachable nodes)),
      cut.1,
    )
