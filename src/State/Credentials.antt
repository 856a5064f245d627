-- ===== src/State/Credentials.antt =====
-- randomCred of internal/state/store.go. `rand k n` is what the k-th read of `rand.Read` puts into a
-- buffer of n bytes, or none where it fails; the loop is run on fuel, the number of its rounds.
use conduitvpn.Base.{
  ℕ, zero, suc, ◌+◌, ◌%◌, ◌≤◌, ◌<◌, ◌≡◌, refl, ap, subst, ◌⊎◌, inl, inr, Bool, true, false, ◌&&◌,
  ◌||◌, Option, none, some, List, [], ◌∷◌, ◌++◌, map, arith, leb, if◌then◌else◌, length, get_elem?,
  any, All, Str, codes, choice_of,
}

pub data Drawn : Type 0 where
  cred : Str → Drawn
  panicked still_drawing : Drawn

abbrev pub lower : Str
lower = codes "abcdefghijklmnopqrstuvwxyz"

abbrev pub chars : Str
chars = lower ++ (codes "ABCDEFGHIJKLMNOPQRSTUVWXYZ" ++ codes "0123456789")

abbrev char_or_zero : Option ℕ → ℕ
char_or_zero none = 0
char_or_zero (some c) = c

-- `s[i]`, for an index in range.
abbrev char_at : Str → ℕ → ℕ
char_at s i = char_or_zero (get_elem? s i)

abbrev pub is_lower : ℕ → Bool
is_lower c = leb b'a' c && leb c b'z'

abbrev pub is_upper : ℕ → Bool
is_upper c = leb b'A' c && leb c b'Z'

abbrev pub is_digit : ℕ → Bool
is_digit c = leb b'0' c && leb c b'9'

abbrev first_letter : Str → Str
first_letter [] = []
first_letter (c ∷ s) = (if is_digit c then char_at lower (c % 26) else c) ∷ s

-- The bytes as characters, of which there are 62, the first one not a digit.
unfoldable pub letters : List ℕ → Str
letters bytes = first_letter (map (λ b. char_at chars (b % 62)) bytes)

unfoldable pub is_mixed : Str → Bool
is_mixed s = any is_lower s && any is_upper s && any is_digit s

-- An index into an empty buffer panics.
abbrev pub on_draw : Option (List ℕ) → Drawn → Drawn
unfolding letters is_mixed
on_draw none rest = panicked
on_draw (some []) rest = panicked
on_draw (some (b ∷ bytes)) rest =
    if is_mixed (letters (b ∷ bytes)) then cred (letters (b ∷ bytes)) else rest

unfoldable pub random_cred : (ℕ → ℕ → Option (List ℕ)) → ℕ → ℕ → ℕ → Drawn
unfolding on_draw
random_cred rand n zero k = still_drawing
random_cred rand n (suc fuel) k = on_draw (rand k n) (random_cred rand n fuel (suc k))

-- Letters and digits, of each kind one, and a letter first.
abbrev IsAlnum : ℕ → Type 0
IsAlnum c = (is_lower c || is_upper c || is_digit c) ≡ true

abbrev pub StartsWithLetter : Str → Type 0
StartsWithLetter [] = ⊥
StartsWithLetter (c ∷ s) = is_digit c ≡ false

abbrev pub IsCredential : ℕ → Str → Type 0
IsCredential n s = (length s ≡ n) × All IsAlnum s × (is_mixed s ≡ true) × StartsWithLetter s

char_at-All : (P : ℕ → Type 0) (s : Str) (i : ℕ) → i < length s → All P s → P (char_at s i)
char_at-All P [] i h a = absurd (omega (arith, h))
char_at-All P (c ∷ s) zero h a = a.0
char_at-All P (c ∷ s) (suc i) h a = char_at-All P s i (omega (arith, h)) a.1

every : (ℕ → Bool) → Str → Bool
every p [] = true
every p (c ∷ s) = p c && every p s

every-All : (p : ℕ → Bool) (s : Str) → every p s ≡ true → All (λ c. p c ≡ true) s
unfolding every
every-All p [] h = tt
every-All p (c ∷ s) h = ground (arith, every-All p s, h)

chars-IsAlnum : All IsAlnum chars
unfolding every
chars-IsAlnum = every-All (λ c. is_lower c || is_upper c || is_digit c) chars refl

lower-is_lower : All (λ c. is_lower c ≡ true) lower
unfolding every
lower-is_lower = every-All is_lower lower refl

map-IsAlnum : (bytes : List ℕ) → All IsAlnum (map (λ b. char_at chars (b % 62)) bytes)
map-IsAlnum [] = tt
map-IsAlnum (b ∷ bytes) =
    (char_at-All IsAlnum chars (b % 62) (omega arith) chars-IsAlnum, map-IsAlnum bytes)

length-map : (bytes : List ℕ) → length (map (λ b. char_at chars (b % 62)) bytes) ≡ length bytes
length-map [] = refl
length-map (b ∷ bytes) = omega (arith, length-map bytes)

-- The letter that replaces a digit.
replaced : (c : ℕ) → is_lower (char_at lower (c % 26)) ≡ true
replaced c = char_at-All (λ d. is_lower d ≡ true) lower (c % 26) (omega arith) lower-is_lower

first_letter-fits :
    (c : ℕ) (s : Str)
    → All IsAlnum (c ∷ s)
    → All IsAlnum (first_letter (c ∷ s)) × StartsWithLetter (first_letter (c ∷ s))
first_letter-fits c s h =
    choice_of (λ d. (IsAlnum d × All IsAlnum s) × (is_digit d ≡ false)) (is_digit c)
      (λ y. ((ground (arith, replaced c), h.1), ground (arith, replaced c))) (λ n. (h, n))

-- What a draw gives is a credential when it has each kind of character.
letters-IsCredential :
    (b : ℕ) (bytes : List ℕ)
    → is_mixed (letters (b ∷ bytes)) ≡ true
    → IsCredential (length (b ∷ bytes)) (letters (b ∷ bytes))
unfolding letters
letters-IsCredential b bytes m =
    let (alnum, first) =
      first_letter-fits (char_at chars (b % 62)) (map (λ b. char_at chars (b % 62)) bytes)
        (map-IsAlnum (b ∷ bytes)) in
    (omega (arith, length-map bytes), alnum, m, first)

-- A read that gives bytes, at least one.
abbrev pub IsRead : ℕ → Option (List ℕ) → Type 0
IsRead n none = ⊥
IsRead n (some bytes) = (length bytes ≡ n) × (1 ≤ n)

-- A read that the loop accepts.
unfoldable pub IsAccepted : Option (List ℕ) → Type 0
unfolding is_mixed letters
IsAccepted none = ⊥
IsAccepted (some bytes) = is_mixed (letters bytes) ≡ true

-- What comes of a round, when it returns.
abbrev Gives : ℕ → Drawn → Type 0
Gives n d = (s : Str) × (d ≡ cred s) × IsCredential n s

on_draw-Gives :
    (n : ℕ) (o : Option (List ℕ)) (rest : Drawn)
    → IsRead n o
    → IsAccepted o ⊎ Gives n rest
    → Gives n (on_draw o rest)
unfolding on_draw IsAccepted
on_draw-Gives n none rest r g = absurd r
on_draw-Gives n (some []) rest r g = absurd (omega (arith, r.0, r.1))
on_draw-Gives n (some (b ∷ bytes)) rest r (inl m) = (
  letters (b ∷ bytes),
  ap (λ t. if t then cred (letters (b ∷ bytes)) else rest) m,
  subst (λ k. IsCredential k (letters (b ∷ bytes))) r.0 (letters-IsCredential b bytes m),
)
on_draw-Gives n (some (b ∷ bytes)) rest r (inr g) =
    choice_of (Gives n) (is_mixed (letters (b ∷ bytes)))
      (λ m. (
        letters (b ∷ bytes),
        refl,
        subst (λ k. IsCredential k (letters (b ∷ bytes))) r.0 (letters-IsCredential b bytes m),
      ))
      (λ f. g)

-- Where every read fills a buffer of at least one byte and a read later on, the one `m` rounds after
-- the present, has a lower-case letter, an upper-case letter and a digit: every number of rounds above
-- `m` is enough for the loop to return, and it returns a credential of the length asked for, of letters
-- and digits with each of the three kinds, and with a letter first.
pub random_cred-IsCredential :
    (rand : ℕ → ℕ → Option (List ℕ)) (n : ℕ)
    → ((k : ℕ) → IsRead n (rand k n))
    → (m fuel k : ℕ) → m < fuel
    → IsAccepted (rand (k + m) n)
    → (s : Str) × (random_cred rand n fuel k ≡ cred s) × IsCredential n s
unfolding random_cred
random_cred-IsCredential rand n reads m zero k h a = absurd (omega (arith, h))
random_cred-IsCredential rand n reads zero (suc fuel) k h a =
    let e : k + 0 ≡ k = omega arith in
    on_draw-Gives n (rand k n) (random_cred rand n fuel (suc k)) (reads k)
      (inl (subst (λ j. IsAccepted (rand j n)) e a))
random_cred-IsCredential rand n reads (suc m) (suc fuel) k h a =
    let e : k + suc m ≡ suc k + m = omega arith in
    on_draw-Gives n (rand k n) (random_cred rand n fuel (suc k)) (reads k) (
      inr (
        random_cred-IsCredential rand n reads m fuel (suc k) (omega (arith, h))
          (subst (λ j. IsAccepted (rand j n)) e a)))
