-- ===== src/Modbus/Regs/Access.antt =====
-- modbus/reg.go: what `readReg` gives after `writeReg`.
use mathlib.Core.Option.{some-ne-none}
use simpleiot.Prelude.{
  ℕ, ◌%◌, ◌^◌, ◌≡◌, ◌≢◌, refl, sym, ap, ◌∙◌, true, false, List, [], ◌∷◌, Option, none, ◌==◌, ==_iff,
  Bool-cases, inl, inr,
}
use simpleiot.Modbus.{got, ModbusError}
use simpleiot.Modbus.Regs.{Reg, read_reg, write_reg, allows}

-- Two outcomes of `writeReg`: an error with all as it was, or the value in place.
pub data Wrote (regs : List Reg) (a v : ℕ) (w : List Reg × Option ModbusError) : Type 0 where
  stored : w.1 ≡ none → read_reg (w.0) a ≡ got v → Wrote regs a v w
  unchanged : w.1 ≢ none → w.0 ≡ regs → Wrote regs a v w

-- `writeReg` either returns no error and the next `readReg` of the address gives the value, or it
-- returns an error and no register has changed.
pub write_reg-Wrote : (regs : List Reg) (a v : ℕ) → Wrote regs a v (write_reg regs a v)
unfolding write_reg read_reg
write_reg-Wrote [] a v = unchanged (some-ne-none _) refl
write_reg-Wrote (reg ∷ regs) a v = elim (Bool-cases (reg.address == a % 2 ^ 16)) [
  | inl t ↦ elim (Bool-cases (allows reg.validate v)) [
    | inl u ↦ rw (t, u) (stored refl (found (record reg { value = v }) regs t))
    | inr u ↦ rw (t, u) (unchanged (some-ne-none _) refl)
  ]
  | inr f ↦ rw f (passed (write_reg-Wrote regs a v) f)
]
  where
    found :
        (r : Reg) (rs : List Reg)
        → (r.address == a % 2 ^ 16) ≡ true
        → read_reg (r ∷ rs) a ≡ got r.value
    found r rs t = rw t refl

    passed :
        Wrote regs a v (write_reg regs a v)
        → (reg.address == a % 2 ^ 16) ≡ false
        → Wrote (reg ∷ regs) a v (reg ∷ (write_reg regs a v).0, (write_reg regs a v).1)
    passed (stored p q) f = stored p (rw f q)
    passed (unchanged p q) f = unchanged p (ap (λ rs. reg ∷ rs) q)

-- A write leaves the registers of other addresses (modulo 2^16) as they were, also if it fails.
pub read_reg-write_reg_other :
    (regs : List Reg) (a b v : ℕ)
    → a % 2 ^ 16 ≢ b % 2 ^ 16
    → read_reg ((write_reg regs a v).0) b ≡ read_reg regs b
unfolding write_reg read_reg
read_reg-write_reg_other [] a b v n = refl
read_reg-write_reg_other (reg ∷ regs) a b v n = elim (Bool-cases (reg.address == a % 2 ^ 16)) [
  | inl t ↦
      let f : (reg.address == b % 2 ^ 16) ≡ false = elim (Bool-cases (reg.address == b % 2 ^ 16)) [
        | inl s ↦ absurd (n (sym ((==_iff _ _).0 t) ∙ (==_iff _ _).0 s))
        | inr f ↦ f
      ] in
      elim (Bool-cases (allows reg.validate v)) [
        | inl u ↦ rw (t, u, f) refl
        | inr u ↦ rw (t, u) refl
      ]
  | inr g ↦ rw g (elim (Bool-cases (reg.address == b % 2 ^ 16)) [
    | inl s ↦ rw s refl
    | inr f ↦ rw f (read_reg-write_reg_other regs a b v n)
  ])
]
