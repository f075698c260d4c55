-- ===== src/Base/Numbers.antt =====
-- Decimal text, and rounding as Python's round() and "%.0f" do it: to the nearest, ties to even.
use Prim.Native.Nat.{ℕ, zero, suc, ◌+◌, ◌-◌, ◌*◌, ◌/◌, ◌%◌}
use mathlib.Core.Bool.{◌&&◌, ◌||◌}
use mathlib.Core.List.{[], ◌∷◌, ◌++◌}
use tug.Base.Tests.{ltb, ◌==◌, if◌then◌else◌}
use tug.Base.Text.{Text}

-- The digits of n, the last ones first computed; n digits are always enough.
unfoldable pub digits_of : ℕ → ℕ → Text
digits_of zero n = []
digits_of (suc fuel) n =
    let front = digits_of fuel (n / 10) in
    if ltb n 10 then (48 + n) ∷ [] else front ++ (48 + n % 10) ∷ []

-- str(n)
unfoldable pub decimal : ℕ → Text
unfolding digits_of
decimal n = digits_of (suc n) n

-- "%02d" % n
unfoldable pub two_digits : ℕ → Text
unfolding decimal
two_digits n = if ltb n 10 then 48 ∷ decimal n else decimal n

-- int(s) for a string of ASCII digits
unfoldable pub number_from : ℕ → Text → ℕ
number_from acc [] = acc
number_from acc (c ∷ s) = number_from (acc * 10 + (c - 48)) s

unfoldable pub number : Text → ℕ
unfolding number_from
number s = number_from 0 s

-- round(n / d), for 0 < d
unfoldable pub round_div : ℕ → ℕ → ℕ
round_div n d =
    if ltb (2 * (n % d)) d || (2 * (n % d) == d && (n / d) % 2 == 0) then n / d else n / d + 1
