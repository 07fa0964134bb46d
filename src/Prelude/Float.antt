-- ===== src/Prelude/Float.antt =====
-- A Go `float64` as its IEEE 754 bit pattern, a number below 2 ^ 64. Only comparisons and
-- copies are modelled: `==` and `<` follow the standard (NaN is unequal to all, -0 equals 0).
use Prim.Native.Nat.{ℕ, ◌+◌, ◌-◌, ◌%◌, ◌/◌, ◌^◌}
use mathlib.Core.Path.{◌≡◌, refl}
use mathlib.Core.Bool.{Bool, true, false, not, ◌&&◌, ◌||◌}
use simpleiot.Prelude.Tests.{ltb, ◌==◌, if◌then◌else◌}

-- The bits below the sign.
abbrev pub magnitude : ℕ → ℕ
magnitude x = x % 2 ^ 63

abbrev pub is_negative : ℕ → Bool
is_negative x = x / 2 ^ 63 == 1

unfoldable pub is_nan : ℕ → Bool
is_nan x = ltb 0x7ff0_0000_0000_0000 (magnitude x)

unfoldable pub f64_eq : ℕ → ℕ → Bool
unfolding is_nan
f64_eq a b = not (is_nan a) && not (is_nan b) && (a == b || (magnitude a == 0 && magnitude b == 0))

unfoldable pub f64_lt : ℕ → ℕ → Bool
unfolding is_nan
f64_lt a b =
    not (is_nan a)
    && not (is_nan b)
    && (if is_negative a
        then (if is_negative b
            then ltb (magnitude b) (magnitude a)
            else not (magnitude a == 0 && magnitude b == 0))
        else (if is_negative b then false else ltb (magnitude a) (magnitude b)))

-- `math.Mod(x, 2) == 0`: with the exponent `e` the value is the significand times 2 ^ (e - 1075).
unfoldable pub f64_is_even : ℕ → Bool
f64_is_even x =
    let e = x / 2 ^ 52 % 2048 in
    let m = x % 2 ^ 52 in
    if e == 0
    then m == 0
    else if e == 2047
    then false
    else if ltb 1075 e
    then true
    else if ltb e 1023
    then false
    else (2 ^ 52 + m) % 2 ^ (1076 - e) == 0

abbrev pub f64_zero : ℕ
f64_zero = 0

abbrev pub f64_one : ℕ
f64_one = 0x3ff0_0000_0000_0000

-- The bit pattern of 0.5, 2.0 and -1.0, in order.
comparisons :
    (f64_lt 0x3fe0_0000_0000_0000 0x4000_0000_0000_0000 ≡ true)
    × (f64_lt 0xbff0_0000_0000_0000 0x3fe0_0000_0000_0000 ≡ true)
    × (f64_eq 0x8000_0000_0000_0000 0 ≡ true)
    × (f64_eq 0x7ff8_0000_0000_0000 0x7ff8_0000_0000_0000 ≡ false)
unfolding f64_lt f64_eq
comparisons = (refl, refl, refl, refl)

-- 0, 1, 2, 3, 4, 2.5 and infinity
even_numbers :
    (f64_is_even 0 ≡ true)
    × (f64_is_even 0x3ff0_0000_0000_0000 ≡ false)
    × (f64_is_even 0x4000_0000_0000_0000 ≡ true)
    × (f64_is_even 0x4008_0000_0000_0000 ≡ false)
    × (f64_is_even 0x4010_0000_0000_0000 ≡ true)
    × (f64_is_even 0x4004_0000_0000_0000 ≡ false)
    × (f64_is_even 0x7ff0_0000_0000_0000 ≡ false)
unfolding f64_is_even
even_numbers = (refl, refl, refl, refl, refl, refl, refl)
