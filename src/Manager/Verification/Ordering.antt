-- ===== src/Manager/Verification/Ordering.antt =====
-- The order of Go's texts sorts the hosts of the verification job.
use conduitvpn.Base.{
  ◌≡◌, refl, true, false, List, [], ◌∷◌, arith, Str, IsSorted, sort_stable, sort_stable-IsSorted,
}
use conduitvpn.Manager.Verification.{text_less}

less_asymm : (s t : Str) → text_less s t ≡ true → text_less t s ≡ false
less_asymm [] [] h = refl
less_asymm [] (d ∷ t) h = refl
less_asymm (c ∷ s) [] h = absurd cc
less_asymm (c ∷ s) (d ∷ t) h = ground (arith, less_asymm s t)

less_trans : (s t u : Str) → text_less t s ≡ false → text_less u t ≡ false → text_less u s ≡ false
less_trans [] t [] h k = refl
less_trans [] t (e ∷ u) h k = refl
less_trans (c ∷ s) [] u h k = absurd cc
less_trans (c ∷ s) (d ∷ t) [] h k = absurd cc
less_trans (c ∷ s) (d ∷ t) (e ∷ u) h k = ground (arith, less_trans s t u)

pub text_less-IsSorted : (names : List Str) → IsSorted text_less (sort_stable text_less names)
text_less-IsSorted = sort_stable-IsSorted text_less less_asymm less_trans
