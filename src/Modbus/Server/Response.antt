-- ===== src/Modbus/Server/Response.antt =====
-- modbus/pdu.go: the requests a client makes, and what it reads from a response. `none` is a panic.
use simpleiot.Prelude.{
  ℕ, zero, suc, ◌+◌, ◌*◌, ◌/◌, ◌%◌, ◌^◌, Bool, not, ◌||◌, List, [], ◌∷◌, Option, none, some, ltb,
  ◌==◌, if◌then◌else◌, length, get_elem?,
}
use simpleiot.Prelude.Options.{◌>>=◌}
use simpleiot.Modbus.{Pdu, word_at, put_uint16_array, write_coil_value_on, write_coil_value_off}

-- `ReadDiscreteInputs`, `ReadCoils`, `ReadHoldingRegs` and `ReadInputRegs`
abbrev pub read_discrete_inputs : ℕ → ℕ → Pdu
read_discrete_inputs address count = record {
  function_code = 2;
  payload = put_uint16_array (address ∷ count ∷ []);
}

abbrev pub read_coils : ℕ → ℕ → Pdu
read_coils address count = record {
  function_code = 1;
  payload = put_uint16_array (address ∷ count ∷ []);
}

abbrev pub read_holding_regs : ℕ → ℕ → Pdu
read_holding_regs address count = record {
  function_code = 3;
  payload = put_uint16_array (address ∷ count ∷ []);
}

abbrev pub read_input_regs : ℕ → ℕ → Pdu
read_input_regs address count = record {
  function_code = 4;
  payload = put_uint16_array (address ∷ count ∷ []);
}

-- `WriteSingleCoil` and `WriteSingleReg`
abbrev pub write_single_coil : ℕ → Bool → Pdu
write_single_coil address v = record {
  function_code = 5;
  payload =
      put_uint16_array (address ∷ (if v then write_coil_value_on else write_coil_value_off) ∷ []);
}

abbrev pub write_single_reg : ℕ → ℕ → Pdu
write_single_reg address value = record {
  function_code = 6;
  payload = put_uint16_array (address ∷ value ∷ []);
}

-- The values read from a response, or one of the errors
pub data Reading (A : Type 0) : Type 0 where
  reading : List A → Reading A
  short_response : Reading A
  wrong_function_code : Reading A

-- The loop of `RespReadBits`: `n` more bits, from bit `bit_index` of the byte `byte_index` on
unfoldable pub bits_loop : List ℕ → ℕ → ℕ → ℕ → Option (List Bool)
bits_loop d byte_index bit_index zero = some []
bits_loop d byte_index bit_index (suc n) = do
  b ← get_elem? d (byte_index + 1)
  rest ←
      (if ltb (bit_index + 1) 8
        then bits_loop d byte_index (bit_index + 1) n
        else bits_loop d (byte_index + 1) 0 n)
  some ((b / 2 ^ bit_index % 2 == 1) ∷ rest)

unfoldable pub as_reading : {A : Type 0} → Option (List A) → Option (Reading A)
as_reading none = none
as_reading (some xs) = some (reading xs)

-- `PDU.RespReadBits`
unfoldable pub resp_read_bits : Pdu → Option (Reading Bool)
unfolding bits_loop as_reading
resp_read_bits p =
    if ltb (length p.payload) 2
    then some short_response
    else if not (p.function_code == 1 || p.function_code == 2)
    then some wrong_function_code
    else get_elem? p.payload 0 >>= λ count. as_reading (bits_loop p.payload 0 0 count)

-- The loop of `RespReadRegs`, from the i-th register on
unfoldable pub regs_loop : List ℕ → ℕ → ℕ → Option (List ℕ)
regs_loop d i zero = some []
regs_loop d i (suc n) = do v ← word_at d (1 + i * 2); rest ← regs_loop d (suc i) n; some (v ∷ rest)

-- `PDU.RespReadRegs`
unfoldable pub resp_read_regs : Pdu → Option (Reading ℕ)
unfolding regs_loop as_reading
resp_read_regs p =
    if ltb (length p.payload) 2
    then some short_response
    else if not (p.function_code == 3 || p.function_code == 4)
    then some wrong_function_code
    else get_elem? p.payload 0 >>= λ b.
        if ltb (length p.payload) (1 + b / 2 * 2)
        then some short_response
        else as_reading (regs_loop p.payload 0 (b / 2))
