-- ===== src/Prelude/BitOps.antt =====
-- And, or and exclusive or of words, digit by digit.
use Prim.Native.Nat.{
  ℕ, zero, suc, ◌+◌, ◌*◌, ◌/◌, ◌%◌, ◌^◌, ◌≤◌, ◌<◌, min, max, bit_and, bit_or, bit_xor,
  bit_and-bitwise, bit_or-bitwise,
}
use mathlib.Core.Path.{◌≡◌, refl, ap, ◌∙◌}
use mathlib.Core.Logic.{◌≢◌}
use native.Mathlib.Omega.{arith}
use native.Mathlib.Nat.{pow-suc}
use simpleiot.Prelude.Digits.{lowest_digit}
use simpleiot.Prelude.Bits.{bit_xor_step}

-- The digit of weight `2 ^ k`.
abbrev pub bit : ℕ → ℕ → ℕ
bit n zero = n % 2
bit n (suc k) = bit (n / 2) k

-- The lesser and the greater of two digits, by arithmetic
both_set : (a b : ℕ) → min (a % 2) (b % 2) ≡ (a % 2 + b % 2) / 2
both_set a b = ground arith

one_set : (a b : ℕ) → max (a % 2) (b % 2) ≡ (a % 2 + b % 2 + 1) / 2
one_set a b = ground arith

pub bit_and_step : (a b : ℕ) → bit_and a b ≡ bit_and (a / 2) (b / 2) * 2 + (a % 2 + b % 2) / 2
bit_and_step a b = omega (
  arith,
  bit_and-bitwise a b,
  bit_and-bitwise (a / 2) (b / 2),
  lowest_digit (λ b. 0) min (λ c. omega arith) a b,
  both_set a b,
)

pub bit_or_step : (a b : ℕ) → bit_or a b ≡ bit_or (a / 2) (b / 2) * 2 + (a % 2 + b % 2 + 1) / 2
bit_or_step a b = omega (
  arith,
  bit_or-bitwise a b,
  bit_or-bitwise (a / 2) (b / 2),
  lowest_digit (λ b. b) max (λ c. omega arith) a b,
  one_set a b,
)

pub bit-lt : (n k : ℕ) → bit n k < 2
bit-lt n zero = omega arith
bit-lt n (suc k) = bit-lt (n / 2) k

pub bit-bit_and : (a b k : ℕ) → bit (bit_and a b) k ≡ (bit a k + bit b k) / 2
bit-bit_and a b zero = omega (arith, bit_and_step a b)
bit-bit_and a b (suc k) =
    ap (λ (t : ℕ). bit t k) (omega (arith, bit_and_step a b)) ∙ bit-bit_and (a / 2) (b / 2) k

pub bit-bit_or : (a b k : ℕ) → bit (bit_or a b) k ≡ (bit a k + bit b k + 1) / 2
bit-bit_or a b zero = omega (arith, bit_or_step a b)
bit-bit_or a b (suc k) =
    ap (λ (t : ℕ). bit t k) (omega (arith, bit_or_step a b)) ∙ bit-bit_or (a / 2) (b / 2) k

pub bit-bit_xor : (a b k : ℕ) → bit (bit_xor a b) k ≡ (bit a k + bit b k) % 2
bit-bit_xor a b zero = omega (arith, bit_xor_step a b)
bit-bit_xor a b (suc k) =
    ap (λ (t : ℕ). bit t k) (omega (arith, bit_xor_step a b)) ∙ bit-bit_xor (a / 2) (b / 2) k

half_pow : (j : ℕ) → 2 ^ suc j / 2 ≡ 2 ^ j
half_pow j = omega (arith, pow-suc 2 j)

zero-bit : (k : ℕ) → bit 0 k ≡ 0
zero-bit zero = refl
zero-bit (suc k) = zero-bit k

pub bit-pow_self : (j : ℕ) → bit (2 ^ j) j ≡ 1
bit-pow_self zero = refl
bit-pow_self (suc j) = ap (λ (t : ℕ). bit t j) (half_pow j) ∙ bit-pow_self j

pub bit-pow_other : (j k : ℕ) → j ≢ k → bit (2 ^ j) k ≡ 0
bit-pow_other zero zero n = absurd (n refl)
bit-pow_other zero (suc k) n = zero-bit k
bit-pow_other (suc j) zero n = omega (arith, pow-suc 2 j)
bit-pow_other (suc j) (suc k) n =
    ap (λ (t : ℕ). bit t k) (half_pow j) ∙ bit-pow_other j k (λ e. n (ap suc e))

-- No digit is in both numbers if one is 0.
nothing_left : (f n : ℕ) → n ≤ f → bit_and n 0 ≡ 0
nothing_left zero n p =
    let e : n ≡ 0 = omega arith in ap (λ (t : ℕ). bit_and t 0) e ∙ bit_and-bitwise 0 0
nothing_left (suc f) n p = omega (arith, bit_and_step n 0, nothing_left f (n / 2) (omega arith))

-- A word of which one digit is left.
pub bit_and-pow : (a k : ℕ) → bit_and a (2 ^ k) ≡ bit a k * 2 ^ k
bit_and-pow a zero = omega (arith, bit_and_step a 1, nothing_left (a / 2) (a / 2) (omega arith))
bit_and-pow a (suc k) = omega (
  arith,
  bit_and_step a (2 ^ suc k),
  pow-suc 2 k,
  ap (λ (t : ℕ). bit_and (a / 2) t) (half_pow k),
  bit_and-pow (a / 2) k,
  bit-lt (a / 2) k,
  ap (λ (t : ℕ). bit (a / 2) k * t) (pow-suc 2 k),
)

pub bit_or-lt : (k a b : ℕ) → a < 2 ^ k → b < 2 ^ k → bit_or a b < 2 ^ k
bit_or-lt zero a b p q =
    let e : a ≡ 0 = omega arith in let f : b ≡ 0 = omega arith in rw (e, f) (omega arith)
bit_or-lt (suc k) a b p q = omega (
  arith,
  pow-suc 2 k,
  bit_or_step a b,
  bit_or-lt k (a / 2) (b / 2) (omega (arith, pow-suc 2 k)) (omega (arith, pow-suc 2 k)),
)
