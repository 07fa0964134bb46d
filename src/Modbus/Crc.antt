-- ===== src/Modbus/Crc.antt =====
-- modbus/crc.go: the checksum of RTU packets.
use simpleiot.Prelude.{
  ℕ, zero, suc, ◌*◌, ◌/◌, ◌%◌, ◌^◌, ◌<◌, List, [], ◌∷◌, Option, none, some, ltb, ◌==◌,
  if◌then◌else◌, length, take, arith, All, ◌-◌, Bool-cases, inl, inr,
}
use Prim.Native.Nat.{bit_or, bit_xor}
use simpleiot.Prelude.Bits.{bit_xor-lt}
use simpleiot.Prelude.BitOps.{bit_or-lt}
use simpleiot.Modbus.{word_at}

crc_loop : ℕ → ℕ → ℕ
crc_loop zero c = c
crc_loop (suc n) c = crc_loop n (if c % 2 == 1 then bit_xor (c / 2) 0xa001 else c / 2)

crc_bytes : ℕ → List ℕ → ℕ
unfolding crc_loop
crc_bytes c [] = c
crc_bytes c (b ∷ bs) = crc_bytes (crc_loop 8 (bit_xor c b)) bs

-- `RtuCrc`
unfoldable pub rtu_crc : List ℕ → ℕ
unfolding crc_bytes
rtu_crc buf = let c = crc_bytes 0xffff buf in bit_or (c / 256) (c * 256 % 2 ^ 16)

-- The error of `CheckRtuCrc`
pub data CrcError : Type 0 where
  err_crc : CrcError
  err_not_enough_data : CrcError

-- The comparison of the two checksums; a packet that ended early has no second one.
unfoldable pub same_crc : ℕ → Option ℕ → Option CrcError
same_crc calc none = some err_not_enough_data
same_crc calc (some c) = if calc == c then none else some err_crc

-- `CheckRtuCrc`; `none` is no error.
unfoldable pub check_rtu_crc : List ℕ → Option CrcError
unfolding same_crc
check_rtu_crc packet =
    let n = length packet - 2 in
    if ltb (length packet) 4
    then some err_not_enough_data
    else same_crc (rtu_crc (take n packet)) (word_at packet n)

crc_loop-lt : (n c : ℕ) → c < 2 ^ 16 → crc_loop n c < 2 ^ 16
unfolding crc_loop
crc_loop-lt zero c h = h
crc_loop-lt (suc n) c h =
    crc_loop-lt n (if c % 2 == 1 then bit_xor (c / 2) 0xa001 else c / 2)
      (elim (Bool-cases (c % 2 == 1)) [
        | inl t ↦ rw t (bit_xor-lt 16 (c / 2) 0xa001 (omega arith) (omega arith))
        | inr f ↦ rw f (omega arith)
      ])

crc_bytes-lt : (c : ℕ) (bs : List ℕ) → All (λ b. b < 256) bs → c < 2 ^ 16 → crc_bytes c bs < 2 ^ 16
unfolding crc_bytes
crc_bytes-lt c [] a h = h
crc_bytes-lt c (b ∷ bs) (p, a) h =
    crc_bytes-lt (crc_loop 8 (bit_xor c b)) bs a
      (crc_loop-lt 8 (bit_xor c b) (bit_xor-lt 16 c b h (omega arith)))

pub rtu_crc-lt : (bs : List ℕ) → All (λ b. b < 256) bs → rtu_crc bs < 2 ^ 16
unfolding rtu_crc
rtu_crc-lt bs a =
    let h = crc_bytes-lt 0xffff bs a (omega arith) in bit_or-lt 16 _ _ (omega arith) (omega arith)
