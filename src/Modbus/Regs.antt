-- ===== src/Modbus/Regs.antt =====
-- modbus/reg.go: the registers of a device and the coils that lie on their bits. The lock has no
-- counterpart: each operation is one step.
pub mod Added
pub mod Access
pub mod Coils
pub mod Pairs
use simpleiot.Prelude.{
  ℕ, zero, suc, ◌+◌, ◌-◌, ◌*◌, ◌/◌, ◌%◌, ◌^◌, ◌<◌, ◌≡◌, ◌≢◌, refl, sym, ap, ap₂, ◌∙◌, Bool, true,
  false, not, ◌&&◌, List, [], ◌∷◌, ◌++◌, Option, none, some, ltb, ◌==◌, if◌then◌else◌,
}
use Prim.Native.Nat.{bit_and, bit_or, bit_xor}
use simpleiot.Prelude.Options.{◌>>=◌}
use simpleiot.Modbus.{Try, got, failed, ModbusError, exc_illegal_address, exc_illegal_value}
use simpleiot.Modbus.Words.{
  regs_to_uint32, uint32_to_regs, regs_to_int32, int32_to_regs, regs_to_float32, float32_to_regs, ℤ,
}

-- `Reg`; a validator that is nil is `none`.
pub record Reg : Type 0 where
  pub address : ℕ
  pub value : ℕ
  pub validate : Option (ℕ → Bool)

unfoldable pub has_reg : List Reg → ℕ → Bool
has_reg [] adr = false
has_reg (reg ∷ regs) adr = if reg.address == adr % 2 ^ 16 then true else has_reg regs adr

-- `Regs.AddReg`, from the i-th register on
unfoldable pub add_reg_loop : List Reg → ℕ → ℕ → ℕ → List Reg
unfolding has_reg
add_reg_loop regs address i zero = regs
add_reg_loop regs address i (suc n) =
    let adr = address + i in
    let more = regs ++ (record { address = adr % 2 ^ 16; value = 0; validate = none } ∷ []) in
    add_reg_loop (if has_reg regs adr then regs else more) address (suc i) n

unfoldable pub add_reg : List Reg → ℕ → ℕ → List Reg
unfolding add_reg_loop
add_reg regs address count = add_reg_loop regs address 0 count

-- `Regs.AddRegValueValidator`; `none` is `ErrUnknownRegister`.
unfoldable pub add_reg_value_validator : List Reg → ℕ → (ℕ → Bool) → Option (List Reg)
add_reg_value_validator [] address v = none
add_reg_value_validator (reg ∷ regs) address v =
    if reg.address == address % 2 ^ 16
    then some (record reg { validate = some v } ∷ regs)
    else (add_reg_value_validator regs address v >>= λ rs. some (reg ∷ rs))

-- `Regs.readReg`, `ReadReg` and `ReadInputReg`
unfoldable pub read_reg : List Reg → ℕ → Try ℕ
read_reg [] address = failed exc_illegal_address
read_reg (reg ∷ regs) address =
    if reg.address == address % 2 ^ 16 then got reg.value else read_reg regs address

-- The validator's answer; a register without one takes every value.
unfoldable pub allows : Option (ℕ → Bool) → ℕ → Bool
allows none value = true
allows (some f) value = f value

-- `Regs.writeReg` and `WriteReg`
unfoldable pub write_reg : List Reg → ℕ → ℕ → List Reg × Option ModbusError
unfolding allows
write_reg [] address value = ([], some exc_illegal_address)
write_reg (reg ∷ regs) address value =
    let rest = write_reg regs address value in
    if reg.address == address % 2 ^ 16
    then (if allows reg.validate value
        then (record reg { value = value } ∷ regs, none)
        else (reg ∷ regs, some exc_illegal_value))
    else (reg ∷ rest.0, rest.1)

-- `Regs.AddCoil`
unfoldable pub add_coil : List Reg → ℕ → List Reg
unfolding add_reg
add_coil regs num = add_reg regs (num / 16) 1

-- A value that was read goes on to `f`, an error is returned.
unfoldable pub on_got : {A B : Type 0} → Try A → (A → Try B) → Try B
on_got (got a) f = f a
on_got (failed e) f = failed e

-- `Regs.ReadCoil` and `ReadDiscreteInput`
unfoldable pub read_coil : List Reg → ℕ → Try Bool
unfolding on_got
read_coil regs num =
    on_got (read_reg regs (num / 16)) (λ v. got (not (bit_and v (2 ^ (num % 16)) == 0)))

-- The word with its bit `pos` set or cleared; `^x` of a uint16 is the exclusive or with 0xffff.
unfoldable pub put_bit : ℕ → ℕ → Bool → ℕ
put_bit v pos true = bit_or v (2 ^ pos)
put_bit v pos false = bit_and v (bit_xor (2 ^ pos) 0xffff)

-- An update that reads first: an error of the read is returned and nothing is written.
unfoldable pub update_with :
    List Reg → Try ℕ → (ℕ → List Reg × Option ModbusError) → List Reg × Option ModbusError
update_with regs (got v) f = f v
update_with regs (failed e) f = (regs, some e)

-- `Regs.WriteCoil`
unfoldable pub write_coil : List Reg → ℕ → Bool → List Reg × Option ModbusError
unfolding update_with put_bit
write_coil regs num value =
    update_with regs (read_reg regs (num / 16))
      (λ v. write_reg regs (num / 16) (put_bit v (num % 16) value))

-- The two registers of a 32-bit value
unfoldable pub read_pair : List Reg → ℕ → Try (List ℕ)
unfolding on_got
read_pair regs address =
    on_got (read_reg regs address)
      (λ a. on_got (read_reg regs (address + 1)) (λ b. got (a ∷ b ∷ [])))

-- The first element of what was decoded; none cannot happen, and panics in Go.
unfoldable pub head_or : {A : Type 0} → A → List A → A
head_or d [] = d
head_or d (x ∷ xs) = x

-- An error ends what follows a write.
unfoldable pub after_write :
    List Reg × Option ModbusError
    → (List Reg → List Reg × Option ModbusError)
    → List Reg × Option ModbusError
after_write (rs, none) next = next rs
after_write (rs, some e) next = (rs, some e)

-- The loop of the writes, which ends with the first error.
unfoldable pub write_all : List Reg → ℕ → List ℕ → List Reg × Option ModbusError
unfolding after_write
write_all regs address [] = (regs, none)
write_all regs address (v ∷ vs) =
    after_write (write_reg regs address v) (λ rs. write_all rs (address + 1) vs)

-- `Regs.ReadRegUint32` and `WriteRegUint32`
unfoldable pub read_reg_uint32 : List Reg → ℕ → Try ℕ
unfolding on_got read_pair head_or
read_reg_uint32 regs address =
    on_got (read_pair regs address) (λ rs. got (head_or 0 (regs_to_uint32 rs)))

unfoldable pub write_reg_uint32 : List Reg → ℕ → ℕ → List Reg × Option ModbusError
unfolding write_all
write_reg_uint32 regs address value = write_all regs address (uint32_to_regs (value ∷ []))

-- `Regs.ReadRegInt32` and `WriteRegInt32`
unfoldable pub read_reg_int32 : List Reg → ℕ → Try ℤ
unfolding on_got read_pair head_or
read_reg_int32 regs address =
    on_got (read_pair regs address) (λ rs. got (head_or (ℤ.pos 0) (regs_to_int32 rs)))

unfoldable pub write_reg_int32 : List Reg → ℕ → ℤ → List Reg × Option ModbusError
unfolding write_all
write_reg_int32 regs address value = write_all regs address (int32_to_regs (value ∷ []))

-- `Regs.ReadRegFloat32` and `WriteRegFloat32`
unfoldable pub read_reg_float32 : List Reg → ℕ → Try ℕ
unfolding on_got read_pair head_or
read_reg_float32 regs address =
    on_got (read_pair regs address) (λ rs. got (head_or 0 (regs_to_float32 rs)))

unfoldable pub write_reg_float32 : List Reg → ℕ → ℕ → List Reg × Option ModbusError
unfolding write_all
write_reg_float32 regs address value = write_all regs address (float32_to_regs (value ∷ []))
