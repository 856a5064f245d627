-- ===== src/Logx/Ring.antt =====
-- What the ring of internal/logx/logx.go holds.
use conduitvpn.Base.{
  ℕ, zero, suc, ◌+◌, ◌-◌, ◌≤◌, ◌≡◌, refl, sym, ap, ◌∙◌, inl, inr, Bool, true, false, ◌||◌, List, [],
  ◌∷◌, ◌++◌, arith, ltb, ◌==◌, if◌then◌else◌, Bool-cases, length, drop, length-append, length-drop,
}
use conduitvpn.Logx.{Log, ring_max, trimmed, emit, recent}

module _ {E : Type 0} where
  -- The last `n` elements.
  abbrev pub last : ℕ → List E → List E
  last n xs = drop (length xs - n) xs

  drop-append : (n : ℕ) (xs ys : List E) → n ≤ length xs → drop n (xs ++ ys) ≡ drop n xs ++ ys
  drop-append zero xs ys h = refl
  drop-append (suc n) [] ys h = ground (arith, h)
  drop-append (suc n) (x ∷ xs) ys h = drop-append n xs ys (omega (arith, h))

  drop-nil : (k : ℕ) → drop {A = E} k [] ≡ []
  drop-nil zero = refl
  drop-nil (suc k) = refl

  drop-drop : (m n : ℕ) (xs : List E) → drop m (drop n xs) ≡ drop (n + m) xs
  drop-drop m zero xs = ap (λ k. drop k xs) (let same : m ≡ 0 + m = omega arith in same)
  drop-drop m (suc n) [] = drop-nil m ∙ sym (drop-nil (suc n + m))
  drop-drop m (suc n) (x ∷ xs) =
      drop-drop m n xs
      ∙ ap (λ k. drop k (x ∷ xs)) (let same : suc (n + m) ≡ suc n + m = omega arith in same)

  last-last : (n : ℕ) (xs : List E) (e : E) → last n (last n xs ++ e ∷ []) ≡ last n (xs ++ e ∷ [])
  last-last n xs e =
      let b = length xs - n in
      let joined = drop-append b xs (e ∷ []) (omega arith) in
      let size = length-append xs (e ∷ []) in
      let a = length (drop b xs ++ e ∷ []) - n in
      ap (drop a) (sym joined)
      ∙ drop-drop a b (xs ++ e ∷ [])
      ∙ ap (λ k. drop k (xs ++ e ∷ []))
          (let same : b + a ≡ length (xs ++ e ∷ []) - n =
              omega (arith, size, length-append (drop b xs) (e ∷ []), length-drop b xs) in
            same)

  trimmed-last : (xs : List E) → trimmed xs ≡ last ring_max xs
  trimmed-last xs = elim (Bool-cases (ltb ring_max (length xs))) [
    | inl y ↦ rw y refl
    | inr f ↦
        rw f (ap (λ k. drop k xs) (let same : 0 ≡ length xs - 1000 = ground (arith, f) in same))
  ]

  -- The log after some calls, each with its level.
  abbrev pub emit_all : List (ℕ × E) → Log E → Log E
  emit_all [] log = log
  emit_all ((l, e) ∷ es) log = emit_all es (emit l e log)

  -- The entries of the calls whose level is logged.
  abbrev pub logged : ℕ → List (ℕ × E) → List E
  logged level [] = []
  logged level ((l, e) ∷ es) = let rest = logged level es in if ltb l level then rest else e ∷ rest

  append_assoc : (xs ys : List E) (x : E) → (xs ++ x ∷ []) ++ ys ≡ xs ++ x ∷ ys
  append_assoc [] ys x = refl
  append_assoc (y ∷ xs) ys x = ap (λ t. y ∷ t) (append_assoc xs ys x)

  append_nil : (xs : List E) → xs ++ [] ≡ xs
  append_nil [] = refl
  append_nil (x ∷ xs) = ap (λ t. x ∷ t) (append_nil xs)

  both :
      (b : Bool) (P : Log E → List E → Type 0) {x y : Log E} {p q : List E}
      → P x p
      → P y q
      → P (if b then x else y) (if b then p else q)
  both true P h k = h
  both false P h k = k

  emit_all-last :
      (es : List (ℕ × E)) (xs : List E) (log : Log E)
      → log.ring ≡ last ring_max xs
      → (emit_all es log).ring ≡ last ring_max (xs ++ logged log.level es)
  unfolding emit
  emit_all-last [] xs log h = h ∙ ap (last ring_max) (sym (append_nil xs))
  emit_all-last ((l, e) ∷ es) xs log h =
      both (ltb l log.level) (λ t p. (emit_all es t).ring ≡ last ring_max (xs ++ p))
        (emit_all-last es xs log h)
        (emit_all-last es (xs ++ e ∷ []) _ (
            trimmed-last (log.ring ++ e ∷ [])
            ∙ ap (λ z. last ring_max (z ++ e ∷ [])) h
            ∙ last-last ring_max xs e)
          ∙ ap (last ring_max) (append_assoc xs (logged log.level es) e))

  -- After any sequence of calls from an empty ring, the ring holds the last 1000 entries whose level
  -- is logged, in their order, and `Recent n` returns the last n of these, or all of them where there
  -- are fewer or n is 0.
  pub emit_all-ring :
      (es : List (ℕ × E)) (n : ℕ) (log : Log E)
      → log.ring ≡ []
      → ((emit_all es log).ring ≡ last ring_max (logged log.level es))
        × (recent n (emit_all es log)
            ≡ last (if n == 0 then length (emit_all es log).ring else n) (emit_all es log).ring)
  unfolding recent
  emit_all-ring es n log h =
      let ring = (emit_all es log).ring in
      let count : ℕ = length ring in
      let same : count - (if n == 0 || ltb count n then count else n)
          ≡ count - (if n == 0 then count else n) =
        ground arith in
      (emit_all-last es [] log h, ap (λ k. drop k ring) same)
