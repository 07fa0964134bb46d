-- ===== src/Prelude/Digits.antt =====
-- The native operations on binary digits, one digit at a time, for any operation on two digits.
use Prim.Native.Nat.{ℕ, zero, suc, ◌+◌, ◌*◌, ◌/◌, ◌%◌, ◌≤◌, digits}
use mathlib.Core.Path.{◌≡◌, refl, sym, ap, ◌∙◌}
use native.Mathlib.Omega.{arith}

module _ (rest : ℕ → ℕ) (op : ℕ → ℕ → ℕ) where
  run_out : (n b : ℕ) → digits rest op n 0 b ≡ rest b
  run_out zero b = refl
  run_out (suc n) b = refl

  -- The count of digits to go does not matter once it is large enough.
  enough : (a b n m : ℕ) → a ≤ n → a ≤ m → digits rest op n a b ≡ digits rest op m a b
  enough zero b n m p q = run_out n b ∙ sym (run_out m b)
  enough (suc a) b zero m p q = absurd (omega arith)
  enough (suc a) b (suc n) zero p q = absurd (omega arith)
  enough (suc a) b (suc n) (suc m) p q =
      ap (λ (t : ℕ). t * 2 + op (suc a % 2) (b % 2))
        (enough (suc a / 2) (b / 2) n m (omega arith) (omega arith))

  -- The lowest digit of the result, where `rest` has this law of its own.
  pub lowest_digit :
      ((b : ℕ) → rest b ≡ rest (b / 2) * 2 + op 0 (b % 2))
      → (a b : ℕ)
      → digits rest op a a b ≡ digits rest op (a / 2) (a / 2) (b / 2) * 2 + op (a % 2) (b % 2)
  lowest_digit law zero b = law b
  lowest_digit law (suc a) b =
      ap (λ (t : ℕ). t * 2 + op (suc a % 2) (b % 2))
        (enough (suc a / 2) (b / 2) a (suc a / 2) (omega arith) (omega arith))
