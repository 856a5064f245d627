-- ===== src/Base/Runes.antt =====
-- `utf8.RuneCountInString` on the bytes of a text: a code point in UTF-8 counts once, however many
-- bytes it has, and so does each byte that belongs to none.
use Prim.Native.Nat.{ℕ, zero, suc, ◌≤◌}
use mathlib.Core.Path.{◌≡◌, refl, ap, ◌∙◌}
use mathlib.Core.Bool.{Bool, ◌&&◌}
use mathlib.Core.List.{[], ◌∷◌}
use native.Mathlib.Omega.{arith}
use conduitvpn.Base.Tests.{leb, ◌==◌, if◌then◌else◌}
use conduitvpn.Base.Lists.{length, All}
use conduitvpn.Base.Text.{Str}

abbrev within : ℕ → ℕ → ℕ → Bool
within lo hi c = leb lo c && leb c hi

-- The least and the greatest second byte behind a first byte, which three of four kinds narrow.
abbrev second_low : ℕ → ℕ
second_low c = if c == 0xE0 then 0xA0 else if c == 0xF0 then 0x90 else 0x80

abbrev second_high : ℕ → ℕ
second_high c = if c == 0xED then 0x9F else if c == 0xF4 then 0x8F else 0xBF

abbrev continues : ℕ → Bool
continues = within 0x80 0xBF

-- The bytes behind `c` that belong to the same rune.
unfoldable pub rune_rest : ℕ → Str → ℕ
rune_rest c (d ∷ e ∷ f ∷ s) =
    let second = within (second_low c) (second_high c) d in
    if within 0xC2 0xDF c && second
    then 1
    else if within 0xE0 0xEF c && second && continues e
    then 2
    else if within 0xF0 0xF4 c && second && continues e && continues f
    then 3
    else 0
rune_rest c (d ∷ e ∷ []) =
    let second = within (second_low c) (second_high c) d in
    if within 0xC2 0xDF c && second
    then 1
    else if within 0xE0 0xEF c && second && continues e
    then 2
    else 0
rune_rest c (d ∷ []) =
    if within 0xC2 0xDF c && within (second_low c) (second_high c) d then 1 else 0
rune_rest c [] = 0

-- The runes behind the first bytes, which belong to a rune that is counted.
unfoldable pub runes_after : ℕ → Str → ℕ
unfolding rune_rest
runes_after k [] = 0
runes_after zero (c ∷ s) = suc (runes_after (rune_rest c s) s)
runes_after (suc k) (c ∷ s) = runes_after k s

unfoldable pub rune_count : Str → ℕ
unfolding runes_after
rune_count s = runes_after 0 s

runes_after-le : (k : ℕ) (s : Str) → runes_after k s ≤ length s
unfolding runes_after
runes_after-le zero [] = omega arith
runes_after-le (suc k) [] = omega arith
runes_after-le zero (c ∷ s) = omega (arith, runes_after-le (rune_rest c s) s)
runes_after-le (suc k) (c ∷ s) = omega (arith, runes_after-le k s)

-- A text has no more runes than bytes, and one of ASCII as many.
pub rune_count-le : (s : Str) → rune_count s ≤ length s
unfolding rune_count
rune_count-le s = runes_after-le 0 s

rune_rest_ascii : (c : ℕ) (s : Str) → c ≤ 127 → rune_rest c s ≡ 0
unfolding rune_rest
rune_rest_ascii c [] h = refl
rune_rest_ascii c (d ∷ []) h = ground arith
rune_rest_ascii c (d ∷ e ∷ []) h = ground arith
rune_rest_ascii c (d ∷ e ∷ f ∷ s) h = ground arith

pub rune_count-ascii : (s : Str) → All (λ c. c ≤ 127) s → rune_count s ≡ length s
unfolding rune_count runes_after
rune_count-ascii [] h = refl
rune_count-ascii (c ∷ s) h =
    ap suc (ap (λ k. runes_after k s) (rune_rest_ascii c s h.0) ∙ rune_count-ascii s h.1)

-- 密码 is six bytes and two runes; a byte that begins nothing is a rune.
runes_tests :
    (rune_count (0xE5 ∷ 0xAF ∷ 0x86 ∷ 0xE7 ∷ 0xA0 ∷ 0x81 ∷ []) ≡ 2)
    × (rune_count (0xE5 ∷ 0xAF ∷ b'a' ∷ 0xFF ∷ []) ≡ 4)
unfolding rune_count
runes_tests = (refl, refl)
