-- ===== src/Modbus/Regs/Pairs.antt =====
-- modbus/reg.go: a 32-bit value in two registers, read after it has been written.
use mathlib.Core.Option.{some-ne-none}
use simpleiot.Prelude.{
  ℕ, ◌+◌, ◌%◌, ◌^◌, ◌<◌, ◌≡◌, ◌≢◌, refl, ap, ◌∙◌, List, [], ◌∷◌, Option, none, some, arith,
}
use simpleiot.Modbus.{got, ModbusError}
use simpleiot.Modbus.Words.{
  high_word, low_word, uint32_to_regs, regs_to_uint32, regs_to_uint32-uint32_to_regs,
}
use simpleiot.Modbus.Regs.{
  Reg, read_reg, write_reg, write_all, after_write, read_pair, on_got, head_or, read_reg_uint32,
  write_reg_uint32,
}
use simpleiot.Modbus.Regs.Access.{
  Wrote, stored, unchanged, write_reg-Wrote, read_reg-write_reg_other,
}

-- Two words that `write_all` has written without error are read as they were written.
read_pair-write_all :
    (regs : List Reg) (a h l : ℕ)
    → (write_all regs a (h ∷ l ∷ [])).1 ≡ none
    → read_pair ((write_all regs a (h ∷ l ∷ [])).0) a ≡ got (h ∷ l ∷ [])
unfolding write_all after_write read_pair on_got
read_pair-write_all regs a h l = first (write_reg regs a h) (write_reg-Wrote regs a h)
  where
    second :
        (rs : List Reg) (w : List Reg × Option ModbusError)
        → read_reg rs a ≡ got h
        → ((b : ℕ) → (a + 1) % 2 ^ 16 ≢ b % 2 ^ 16 → read_reg (w.0) b ≡ read_reg rs b)
        → Wrote rs (a + 1) l w
        → (after_write w (λ rs. (rs, none))).1 ≡ none
        → read_pair ((after_write w (λ rs. (rs, none))).0) a ≡ got (h ∷ l ∷ [])
    second rs (ys, none) e keep (stored p q) k = rw (keep a (λ z. absurd (omega arith)) ∙ e, q) refl
    second rs (ys, none) e keep (unchanged p q) k = absurd (p refl)
    second rs (ys, some x) e keep w k = absurd (some-ne-none _ k)

    first :
        (w : List Reg × Option ModbusError)
        → Wrote regs a h w
        → (after_write w (λ rs. write_all rs (a + 1) (l ∷ []))).1 ≡ none
        → read_pair ((after_write w (λ rs. write_all rs (a + 1) (l ∷ []))).0) a ≡ got (h ∷ l ∷ [])
    first (rs, none) (stored p q) k =
        second rs (write_reg rs (a + 1) l) q (λ b n. read_reg-write_reg_other rs (a + 1) b l n)
          (write_reg-Wrote rs (a + 1) l) k
    first (rs, none) (unchanged p q) k = absurd (p refl)
    first (rs, some x) w k = absurd (some-ne-none _ k)

-- A uint32 that `WriteRegUint32` has written without error is what `ReadRegUint32` gives for the
-- same address, also where the second register's address wraps around.
pub read_reg_uint32-write_reg_uint32 :
    (regs : List Reg) (a v : ℕ)
    → v < 2 ^ 32
    → (write_reg_uint32 regs a v).1 ≡ none
    → read_reg_uint32 ((write_reg_uint32 regs a v).0) a ≡ got v
unfolding write_reg_uint32 read_reg_uint32 uint32_to_regs
read_reg_uint32-write_reg_uint32 regs a v h k =
    ap (λ r. on_got r (λ rs. got (head_or 0 (regs_to_uint32 rs))))
      (read_pair-write_all regs a (high_word v) (low_word v) k)
    ∙ ap (λ vs. got (head_or 0 vs)) ((regs_to_uint32-uint32_to_regs (v ∷ []) (h, tt)).0)
