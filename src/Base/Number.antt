-- ===== src/Base/Number.antt =====
-- `strconv.Atoi` on a 64-bit machine, and `fmt.Sprint` of a natural number.
use Prim.Native.Nat.{ℕ, zero, suc, ◌+◌, ◌-◌, ◌*◌, ◌/◌, ◌%◌}
use mathlib.Core.Bool.{Bool, ◌&&◌}
use mathlib.Core.Option.{Option, none, some}
use mathlib.Core.List.{[], ◌∷◌}
use conduitvpn.Base.Tests.{leb, ltb, ◌==◌, if◌then◌else◌}
use conduitvpn.Base.Text.{Str}
use conduitvpn.Base.Int.{ℤ, pos, negsuc}

abbrev pub is_digit : ℕ → Bool
is_digit c = leb b'0' c && leb c b'9'

-- The value of a run of digits, read on from `acc`.
unfoldable pub digits_value : ℕ → Str → Option ℕ
digits_value acc [] = some acc
digits_value acc (c ∷ s) =
    let rest = digits_value (acc * 10 + (c - b'0')) s in if is_digit c then rest else none

abbrev pub parse_digits : Str → Option ℕ
parse_digits [] = none
parse_digits (c ∷ s) = digits_value 0 (c ∷ s)

abbrev pub max_int : ℕ
max_int = 9223372036854775807

abbrev negate : ℕ → ℤ
negate zero = pos 0
negate (suc n) = negsuc n

abbrev in_range : Option ℕ → Option ℤ
in_range none = none
in_range (some n) = if leb n max_int then some (pos n) else none

abbrev in_range_negative : Option ℕ → Option ℤ
in_range_negative none = none
in_range_negative (some n) = if leb n (suc max_int) then some (negate n) else none

-- `none` where `Atoi` reports an error.
unfoldable pub atoi : Str → Option ℤ
unfolding digits_value
atoi [] = none
atoi (c ∷ s) =
    if c == b'-'
    then in_range_negative (parse_digits s)
    else if c == b'+'
    then in_range (parse_digits s)
    else in_range (parse_digits (c ∷ s))

-- `n, _ := strconv.Atoi(s)` where the source ignores the error; out of range `Atoi` saturates.
abbrev saturate : Option ℕ → ℤ
saturate none = pos 0
saturate (some n) = if leb n max_int then pos n else pos max_int

abbrev saturate_negative : Option ℕ → ℤ
saturate_negative none = pos 0
saturate_negative (some n) = if leb n (suc max_int) then negate n else negsuc max_int

unfoldable pub atoi_or_zero : Str → ℤ
unfolding digits_value
atoi_or_zero [] = pos 0
atoi_or_zero (c ∷ s) =
    if c == b'-'
    then saturate_negative (parse_digits s)
    else if c == b'+'
    then saturate (parse_digits s)
    else saturate (parse_digits (c ∷ s))

-- The decimal digits of a number; `n` has at most `n + 1` of them.
digits_from : ℕ → ℕ → Str → Str
digits_from zero n acc = acc
digits_from (suc fuel) n acc =
    let rest = digits_from fuel (n / 10) ((b'0' + n % 10) ∷ acc) in
    if ltb n 10 then (b'0' + n) ∷ acc else rest

unfoldable pub sprint : ℕ → Str
unfolding digits_from
sprint n = digits_from (suc n) n []
