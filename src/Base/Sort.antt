-- ===== src/Base/Sort.antt =====
-- `sort.SliceStable`: any stable sorting function has the same result, so it is an insertion sort.
use mathlib.Core.Path.{◌≡◌, refl}
use mathlib.Core.Bool.{Bool, true, false}
use mathlib.Core.Logic.{inl, inr}
use mathlib.Core.List.{List, [], ◌∷◌, Perm}
use mathlib.Core.List.Perm
use native.Mathlib.Omega.{arith}
use conduitvpn.Base.Tests.{Bool-cases, if◌then◌else◌}
use conduitvpn.Base.Lists.{length, All, keep}
use Prim.Native.Nat.{suc}

module _ {A : Type 0} (less : A → A → Bool) where
  -- `x` stands left of the list, so it stays left of what is equal to it.
  unfoldable pub sort_insert : A → List A → List A
  sort_insert x [] = x ∷ []
  sort_insert x (y ∷ ys) = let rest = sort_insert x ys in if less y x then y ∷ rest else x ∷ y ∷ ys

  unfoldable pub sort_stable : List A → List A
  unfolding sort_insert
  sort_stable [] = []
  sort_stable (x ∷ xs) = sort_insert x (sort_stable xs)

  -- Nothing on the right comes before what stands on its left.
  abbrev pub IsSorted : List A → Type 0
  IsSorted [] = Unit
  IsSorted (x ∷ xs) = All (λ y. less y x ≡ false) xs × IsSorted xs

  sort_insert-perm : (x : A) (ys : List A) → Perm (sort_insert x ys) (x ∷ ys)
  unfolding sort_insert
  sort_insert-perm x [] = Perm.refl _
  sort_insert-perm x (y ∷ ys) = elim (Bool-cases (less y x)) [
    | inl h ↦ rw h (Perm.trans (Perm.cons y (sort_insert-perm x ys)) (Perm.swap x y ys))
    | inr h ↦ rw h (Perm.refl _)
  ]

  pub sort_stable-perm : (xs : List A) → Perm (sort_stable xs) xs
  unfolding sort_stable
  sort_stable-perm [] = Perm.refl _
  sort_stable-perm (x ∷ xs) =
      Perm.trans (sort_insert-perm x (sort_stable xs)) (Perm.cons x (sort_stable-perm xs))

  length-sort_insert : (x : A) (ys : List A) → length (sort_insert x ys) ≡ suc (length ys)
  unfolding sort_insert
  length-sort_insert x [] = refl
  length-sort_insert x (y ∷ ys) = ground (arith, length-sort_insert x ys)

  pub length-sort_stable : (xs : List A) → length (sort_stable xs) ≡ length xs
  unfolding sort_stable
  length-sort_stable [] = refl
  length-sort_stable (x ∷ xs) =
      omega (arith, length-sort_insert x (sort_stable xs), length-sort_stable xs)

  All-sort_insert :
      (P : A → Type 0) (x : A) (ys : List A) → P x → All P ys → All P (sort_insert x ys)
  unfolding sort_insert
  All-sort_insert P x [] p h = (p, tt)
  All-sort_insert P x (y ∷ ys) p h = let rest = All-sort_insert P x ys p h.1 in ground (arith, rest)

  pub All-sort_stable : (P : A → Type 0) (xs : List A) → All P xs → All P (sort_stable xs)
  unfolding sort_stable
  All-sort_stable P [] h = tt
  All-sort_stable P (x ∷ xs) h = All-sort_insert P x (sort_stable xs) h.0 (All-sort_stable P xs h.1)

  -- What the elements have in common at a Boolean test keeps its order.
  keep-sort_insert :
      (p : A → Bool)
      → ((a b : A) → p a ≡ true → p b ≡ true → less a b ≡ false)
      → (x : A) (ys : List A) → keep p (sort_insert x ys) ≡ keep p (x ∷ ys)
  unfolding sort_insert
  keep-sort_insert p eq x [] = refl
  keep-sort_insert p eq x (y ∷ ys) = ground (arith, eq y x, keep-sort_insert p eq x ys)

  pub keep-sort_stable :
      (p : A → Bool)
      → ((a b : A) → p a ≡ true → p b ≡ true → less a b ≡ false)
      → (xs : List A) → keep p (sort_stable xs) ≡ keep p xs
  unfolding sort_stable
  keep-sort_stable p eq [] = refl
  keep-sort_stable p eq (x ∷ xs) =
      ground (arith, keep-sort_insert p eq x (sort_stable xs), keep-sort_stable p eq xs)

  module _ (asymm : (a b : A) → less a b ≡ true → less b a ≡ false)
      (trans : (a b c : A) → less b a ≡ false → less c b ≡ false → less c a ≡ false) where
    All-trans :
        (x y : A) (ys : List A)
        → less y x ≡ false
        → All (λ z. less z y ≡ false) ys
        → All (λ z. less z x ≡ false) ys
    All-trans x y [] h k = tt
    All-trans x y (z ∷ zs) h k = (trans x y z h k.0, All-trans x y zs h k.1)

    sort_insert-IsSorted : (x : A) (ys : List A) → IsSorted ys → IsSorted (sort_insert x ys)
    unfolding sort_insert
    sort_insert-IsSorted x [] h = (tt, tt)
    sort_insert-IsSorted x (y ∷ ys) h = elim (Bool-cases (less y x)) [
      | inl e ↦ rw e (
        All-sort_insert (λ z. less z y ≡ false) x ys (asymm y x e) h.0,
        sort_insert-IsSorted x ys h.1,
      )
      | inr e ↦ rw e ((e, All-trans x y ys e h.0), h)
    ]

    pub sort_stable-IsSorted : (xs : List A) → IsSorted (sort_stable xs)
    unfolding sort_stable
    sort_stable-IsSorted [] = tt
    sort_stable-IsSorted (x ∷ xs) =
        sort_insert-IsSorted x (sort_stable xs) (sort_stable-IsSorted xs)
