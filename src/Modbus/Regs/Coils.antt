-- ===== src/Modbus/Regs/Coils.antt =====
-- modbus/reg.go: `ReadCoil` after `WriteCoil`, for the coil itself and for the others.
use mathlib.Core.Option.{some-ne-none}
use Prim.Native.Nat.{bit_and, bit_xor}
use native.Mathlib.Nat.{pow-suc}
use simpleiot.Prelude.{
  ℕ, zero, suc, ◌+◌, ◌*◌, ◌/◌, ◌%◌, ◌^◌, ◌<◌, ◌≡◌, ◌≢◌, refl, sym, ap, ◌∙◌, Bool, true, false, not,
  List, Option, none, some, ◌==◌, ==_iff, Bool-cases, inl, inr, arith,
}
use simpleiot.Prelude.BitOps.{
  bit, bit-lt, bit_and-pow, bit-bit_and, bit-bit_or, bit-bit_xor, bit-pow_self, bit-pow_other,
}
use simpleiot.Modbus.{Try, got, failed, ModbusError}
use simpleiot.Modbus.Regs.{
  Reg, read_reg, write_reg, read_coil, write_coil, put_bit, on_got, update_with,
}
use simpleiot.Modbus.Regs.Access.{
  Wrote, stored, unchanged, write_reg-Wrote, read_reg-write_reg_other,
}

-- The word whose `n` lowest digits are 1
abbrev ones : ℕ → ℕ
ones zero = 0
ones (suc n) = ones n * 2 + 1

bit-ones : (n k : ℕ) → k < n → bit (ones n) k ≡ 1
bit-ones zero k h = absurd (omega arith)
bit-ones (suc n) zero h = omega arith
bit-ones (suc n) (suc k) h = ap (λ (t : ℕ). bit t k) (omega arith) ∙ bit-ones n k (omega arith)

all_ones : (k : ℕ) → k < 16 → bit 0xffff k ≡ 1
all_ones k h = bit-ones 16 k h

pow_pos : (k : ℕ) → 0 < 2 ^ k
pow_pos zero = omega arith
pow_pos (suc k) = omega (arith, pow-suc 2 k, pow_pos k)

abbrev digit : Bool → ℕ
digit true = 1
digit false = 0

bit-put_bit_self : (x k : ℕ) (v : Bool) → k < 16 → bit (put_bit x k v) k ≡ digit v
unfolding put_bit
bit-put_bit_self x k true h = omega (arith, bit-bit_or x (2 ^ k) k, bit-pow_self k, bit-lt x k)
bit-put_bit_self x k false h = omega (
  arith,
  bit-bit_and x (bit_xor (2 ^ k) 0xffff) k,
  bit-bit_xor (2 ^ k) 0xffff k,
  bit-pow_self k,
  all_ones k h,
  bit-lt x k,
)

bit-put_bit_other : (x j k : ℕ) (v : Bool) → j ≢ k → k < 16 → bit (put_bit x j v) k ≡ bit x k
unfolding put_bit
bit-put_bit_other x j k true n h =
    omega (arith, bit-bit_or x (2 ^ j) k, bit-pow_other j k n, bit-lt x k)
bit-put_bit_other x j k false n h = omega (
  arith,
  bit-bit_and x (bit_xor (2 ^ j) 0xffff) k,
  bit-bit_xor (2 ^ j) 0xffff k,
  bit-pow_other j k n,
  all_ones k h,
  bit-lt x k,
)

-- The test of `ReadCoil` is the digit.
coil_test : (w k : ℕ) → not (bit_and w (2 ^ k) == 0) ≡ (bit w k == 1)
coil_test w k = ap (λ (t : ℕ). not (t == 0)) (bit_and-pow w k) ∙ by_digit (bit w k) (bit-lt w k)
  where
    by_digit : (d : ℕ) → d < 2 → not ((d * 2 ^ k) == 0) ≡ (d == 1)
    by_digit zero h = ap not ((==_iff _ _).1 (omega arith))
    by_digit (suc zero) h = elim (Bool-cases ((1 * 2 ^ k) == 0)) [
      | inl t ↦ absurd (omega (arith, (==_iff _ _).0 t, pow_pos k))
      | inr f ↦ ap not f
    ]
    by_digit (suc (suc d)) h = absurd (omega arith)

-- What `WriteCoil` reads first decides what it does.
write_coil_got :
    (regs : List Reg) (n x : ℕ) (v : Bool)
    → read_reg regs (n / 16) ≡ got x
    → write_coil regs n v ≡ write_reg regs (n / 16) (put_bit x (n % 16) v)
unfolding write_coil update_with
write_coil_got regs n x v e = rw e refl

write_coil_failed :
    (regs : List Reg) (n : ℕ) (e : ModbusError) (v : Bool)
    → read_reg regs (n / 16) ≡ failed e
    → write_coil regs n v ≡ (regs, some e)
unfolding write_coil update_with
write_coil_failed regs n e v h = rw h refl

coil_of :
    (regs : List Reg) (n x : ℕ)
    → read_reg regs (n / 16) ≡ got x
    → read_coil regs n ≡ got (bit x (n % 16) == 1)
unfolding read_coil on_got
coil_of regs n x e = rw e (ap got (coil_test x (n % 16)))

same_read :
    (rs regs : List Reg) (m : ℕ)
    → read_reg rs (m / 16) ≡ read_reg regs (m / 16)
    → read_coil rs m ≡ read_coil regs m
unfolding read_coil
same_read rs regs m e = rw e refl

digit_test : (v : Bool) → (digit v == 1) ≡ v
digit_test true = refl
digit_test false = refl

-- What holds of the coil `n` and another coil `m` when `WriteCoil` has returned.
pub data CoilWritten (regs : List Reg) (n : ℕ) (v : Bool) (m : ℕ)
    (w : List Reg × Option ModbusError) : Type 0 where
  stored_coil :
      w.1 ≡ none
      → read_coil (w.0) n ≡ got v
      → read_coil (w.0) m ≡ read_coil regs m
      → CoilWritten regs n v m w
  refused_coil : w.1 ≢ none → w.0 ≡ regs → CoilWritten regs n v m w

coil_stored :
    (regs rs : List Reg) (n x : ℕ) (v : Bool)
    → n < 2 ^ 20
    → read_reg regs (n / 16) ≡ got x
    → read_reg rs (n / 16) ≡ got (put_bit x (n % 16) v)
    → ((m : ℕ) → n / 16 % 2 ^ 16 ≢ m / 16 % 2 ^ 16 → read_reg rs (m / 16) ≡ read_reg regs (m / 16))
    → (read_coil rs n ≡ got v) × ((m : ℕ) → m < 2 ^ 20 → m ≢ n → read_coil rs m ≡ read_coil regs m)
coil_stored regs rs n x v h e w other = (
  coil_of rs n (put_bit x (n % 16) v) w
      ∙ ap (λ (d : ℕ). got (d == 1)) (bit-put_bit_self x (n % 16) v (omega arith))
      ∙ ap got (digit_test v),
  λ m b k. elim (Bool-cases (m / 16 == n / 16)) [
    | inl t ↦ same_word m k ((==_iff _ _).0 t)
    | inr f ↦
        same_read rs regs m (other m (λ q. cc (f, (==_iff (m / 16) (n / 16)).1 (omega arith))))
  ],
)
  where
    same_word : (m : ℕ) → m ≢ n → m / 16 ≡ n / 16 → read_coil rs m ≡ read_coil regs m
    same_word m k q =
        coil_of rs m (put_bit x (n % 16) v) (ap (read_reg rs) q ∙ w)
        ∙ ap (λ (d : ℕ). got (d == 1))
            (bit-put_bit_other x (n % 16) (m % 16) v (λ z. k (omega arith)) (omega arith))
        ∙ sym (coil_of regs m x (ap (read_reg regs) q ∙ e))

-- `WriteCoil` of a coil below 2^20, whether or not its register has a validator: if it returns an
-- error no register has changed; if not, the coil reads back as written and every other coil below
-- 2^20 reads as before, those in the same register included.
pub write_coil-CoilWritten :
    (regs : List Reg) (n : ℕ) (v : Bool) (m : ℕ)
    → n < 2 ^ 20
    → m < 2 ^ 20
    → m ≢ n
    → CoilWritten regs n v m (write_coil regs n v)
write_coil-CoilWritten regs n v m h b ne = by_read (read_reg regs (n / 16)) refl
  where
    by_write :
        (x : ℕ)
        → read_reg regs (n / 16) ≡ got x
        → Wrote regs
            (n / 16)
            (put_bit x (n % 16) v)
            (write_reg regs (n / 16) (put_bit x (n % 16) v))
        → CoilWritten regs n v m (write_reg regs (n / 16) (put_bit x (n % 16) v))
    by_write x e (stored p q) =
        let (self, others) =
          coil_stored regs _ n x v h e q
            (λ m k. read_reg-write_reg_other regs (n / 16) (m / 16) (put_bit x (n % 16) v) k) in
        stored_coil p self (others m b ne)
    by_write x e (unchanged p q) = refused_coil p q

    by_read :
        (r : Try ℕ) → read_reg regs (n / 16) ≡ r → CoilWritten regs n v m (write_coil regs n v)
    by_read (got x) e =
        rw (write_coil_got regs n x v e)
          (by_write x e (write_reg-Wrote regs (n / 16) (put_bit x (n % 16) v)))
    by_read (failed err) e =
        rw (write_coil_failed regs n err v e) (refused_coil (some-ne-none _) refl)
