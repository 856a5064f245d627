-- ===== src/State/Examples.antt =====
-- A credential that is drawn in the second round.
use conduitvpn.Base.{
  ℕ, ◌≤◌, ◌≡◌, refl, Option, some, List, [], ◌∷◌, arith, ◌==◌, if◌then◌else◌, length, Str, codes,
  choice,
}
use conduitvpn.State.Credentials.{
  cred, random_cred, letters, is_mixed, IsRead, IsAccepted, IsCredential, random_cred-IsCredential,
}

abbrev bytes_of : ℕ → List ℕ
bytes_of k = if k == 0 then 1 ∷ 2 ∷ 3 ∷ [] else 52 ∷ 26 ∷ 53 ∷ []

abbrev source : ℕ → ℕ → Option (List ℕ)
source k n = some (bytes_of k)

source-IsRead : (k : ℕ) → IsRead 3 (source k 3)
source-IsRead k =
    choice (λ (bytes : List ℕ). (length bytes ≡ 3) × (1 ≤ 3)) (k == 0) (refl, omega arith)
      (refl, omega arith)

drawn_letters : random_cred source 3 5 0 ≡ cred (codes "wA1")
unfolding random_cred letters is_mixed
drawn_letters = refl

source-IsAccepted : IsAccepted (source 1 3)
unfolding IsAccepted is_mixed letters
source-IsAccepted = refl

random_cred-IsCredential_example :
    (s : Str) × (random_cred source 3 5 0 ≡ cred s) × IsCredential 3 s
random_cred-IsCredential_example =
    random_cred-IsCredential source 3 source-IsRead 1 5 0 (omega arith) source-IsAccepted
