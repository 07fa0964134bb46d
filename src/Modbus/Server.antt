-- ===== src/Modbus/Server.antt =====
-- modbus/pdu.go: `ProcessRequest` for any provider of registers, and what a client reads out of the
-- replies. `none` stands for a panic: an index or a slice out of range.
pub mod Indices
pub mod Total
pub mod Bits
pub mod Reads
pub mod Writes
pub mod Listen
pub mod Response
use simpleiot.Prelude.{
  ℕ, zero, suc, ◌+◌, ◌-◌, ◌*◌, ◌/◌, ◌%◌, ◌^◌, ◌<◌, ◌≡◌, refl, Bool, true, false, not, ◌||◌, List,
  [], ◌∷◌, ◌++◌, Option, none, some, ltb, ◌==◌, if◌then◌else◌, length, get_elem?, replicate,
}
use Prim.Native.Nat.{bit_or}
use simpleiot.Prelude.Options.{◌>>=◌}
use simpleiot.Modbus.{
  Pdu, Try, got, failed, ModbusError, exception, other_error, min_request_len, word_at, put_word,
  put_uint16_array, exc_illegal_value, exc_illegal_function, exc_illegal_address,
  write_coil_value_on, write_coil_value_off,
}
use simpleiot.Modbus.Regs.{Reg, read_reg, write_reg, read_coil, write_coil}

-- `RegProvider`: the registers are a state that the writes give back, changed or not.
pub record RegProvider (S : Type 0) : Type 0 where
  pub provide_reg : S → ℕ → Try ℕ
  pub put_reg : S → ℕ → ℕ → S × Option ModbusError
  pub provide_input_reg : S → ℕ → Try ℕ
  pub provide_discrete_input : S → ℕ → Try Bool
  pub provide_coil : S → ℕ → Try Bool
  pub put_coil : S → ℕ → Bool → S × Option ModbusError

-- The provider that modbus/reg.go implements
abbrev pub regs_provider : RegProvider (List Reg)
regs_provider = record {
  provide_reg = read_reg;
  put_reg = write_reg;
  provide_input_reg = read_reg;
  provide_discrete_input = read_coil;
  provide_coil = read_coil;
  put_coil = write_coil;
}

-- What `ProcessRequest` returns: whether registers changed and the response, or the error that
-- there is not enough data.
pub data Answer : Type 0 where
  answer : Bool → Pdu → Answer
  not_enough_data : Answer

-- `PDU.handleError`
unfoldable pub handle_error : ℕ → ModbusError → Answer
handle_error f (exception c) =
    answer false (record { function_code = bit_or f 0x80; payload = c ∷ [] })
handle_error f other_error =
    answer false (record { function_code = bit_or f 0x80; payload = 4 ∷ [] })

-- `resp.Data[i] |= m`
unfoldable pub or_byte : List ℕ → ℕ → ℕ → Option (List ℕ)
or_byte [] i m = none
or_byte (x ∷ xs) zero m = some (bit_or x m ∷ xs)
or_byte (x ∷ xs) (suc i) m = or_byte xs i m >>= λ ys. some (x ∷ ys)

-- `resp.Data[0] = b`
unfoldable pub set_first : List ℕ → ℕ → Option (List ℕ)
set_first [] b = none
set_first (x ∷ xs) b = some (b ∷ xs)

-- What the loop over coils does with one coil
unfoldable pub store_bit :
    Try Bool → List ℕ → ℕ → (List ℕ → Option (Try (List ℕ))) → Option (Try (List ℕ))
store_bit (failed e) resp i next = some (failed e)
store_bit (got false) resp i next = next resp
store_bit (got true) resp i next = or_byte resp (1 + i / 8) (2 ^ (i % 8)) >>= next

-- The loop of ReadCoils and ReadDiscreteInputs, from the i-th coil on
unfoldable pub read_bits : (ℕ → Try Bool) → ℕ → ℕ → ℕ → List ℕ → Option (Try (List ℕ))
unfolding store_bit
read_bits read address i zero resp = some (got resp)
read_bits read address i (suc n) resp =
    store_bit (read (address + i)) resp i (read_bits read address (suc i) n)

unfoldable pub store_word :
    Try ℕ → List ℕ → ℕ → (List ℕ → Option (Try (List ℕ))) → Option (Try (List ℕ))
store_word (failed e) resp i next = some (failed e)
store_word (got v) resp i next = put_word resp (1 + i * 2) v >>= next

-- The loop of ReadHoldingRegisters and ReadInputRegisters, from the i-th register on
unfoldable pub read_words : (ℕ → Try ℕ) → ℕ → ℕ → ℕ → List ℕ → Option (Try (List ℕ))
unfolding store_word
read_words read address i zero resp = some (got resp)
read_words read address i (suc n) resp =
    store_word (read (address + i)) resp i (read_words read address (suc i) n)

-- The end of a request that reads: the data collected or the exception
unfoldable pub read_reply : ℕ → Try (List ℕ) → Answer
unfolding handle_error
read_reply f (got resp) = answer false (record { function_code = f; payload = resp })
read_reply f (failed e) = handle_error f e

-- `uint8((count + 7) / 8)`, the sum in uint16
unfoldable pub byte_count : ℕ → ℕ
byte_count count = (count + 7) % 2 ^ 16 / 8 % 256

module _ {S : Type 0} (regs : RegProvider S) where
  -- ReadCoils and ReadDiscreteInputs; `1+bytes` is a byte.
  unfoldable pub process_read_bits : Pdu → (ℕ → Try Bool) → Option Answer
  unfolding read_bits read_reply set_first byte_count
  process_read_bits p read = do
    address ← word_at p.payload 0
    count ← word_at p.payload 2
    resp ← set_first (replicate ((1 + byte_count count) % 256) 0) (byte_count count)
    result ← read_bits read address 0 count resp
    some (read_reply p.function_code result)

  -- ReadHoldingRegisters and ReadInputRegisters; `1+2*count` is a uint16.
  unfoldable pub process_read_words : Pdu → (ℕ → Try ℕ) → Option Answer
  unfolding read_words read_reply set_first
  process_read_words p read = do
    address ← word_at p.payload 0
    count ← word_at p.payload 2
    resp ← set_first (replicate ((1 + 2 * count) % 2 ^ 16) 0) (count * 2 % 256)
    result ← read_words read address 0 count resp
    some (read_reply p.function_code result)

  -- The end of a request that writes: the response or the exception
  unfoldable pub write_reply : Pdu → Pdu → S × Option ModbusError → S × Answer
  unfolding handle_error
  write_reply p resp (s, none) = (s, answer true resp)
  write_reply p resp (s, some e) = (s, handle_error p.function_code e)

  -- WriteSingleCoil
  unfoldable pub process_write_coil : Pdu → S → Option (S × Answer)
  unfolding write_reply handle_error
  process_write_coil p s = do
    address ← word_at p.payload 0
    v ← word_at p.payload 2
    some (
        if v == write_coil_value_off
        then write_reply p p (regs.put_coil s address false)
        else if v == write_coil_value_on
        then write_reply p p (regs.put_coil s address true)
        else (s, handle_error p.function_code exc_illegal_value))

  -- WriteSingleRegister
  unfoldable pub process_write_reg : Pdu → S → Option (S × Answer)
  unfolding write_reply
  process_write_reg p s = do
    address ← word_at p.payload 0
    v ← word_at p.payload 2
    some (write_reply p p (regs.put_reg s address v))

  -- An error ends the loop over the writes, with what was written before it in place.
  unfoldable pub go_on :
      S × Option ModbusError
      → (S → Option (S × Option ModbusError))
      → Option (S × Option ModbusError)
  go_on (s, none) next = next s
  go_on (s, some e) next = some (s, some e)

  -- The loop of WriteMultipleCoils, from the i-th coil on
  unfoldable pub write_coils : List ℕ → ℕ → ℕ → ℕ → S → Option (S × Option ModbusError)
  unfolding go_on
  write_coils d address i zero s = some (s, none)
  write_coils d address i (suc n) s = get_elem? d (5 + i / 8) >>= λ b.
      go_on (regs.put_coil s (address + i) (b / 2 ^ (i % 8) % 2 == 1))
        (write_coils d address (suc i) n)

  -- The loop of WriteMultipleRegisters, from the i-th register on
  unfoldable pub write_words : List ℕ → ℕ → ℕ → ℕ → S → Option (S × Option ModbusError)
  unfolding go_on
  write_words d address i zero s = some (s, none)
  write_words d address i (suc n) s = word_at d (5 + i * 2) >>= λ v.
      go_on (regs.put_reg s (address + i) v) (write_words d address (suc i) n)

  -- The response to a request that writes several coils or registers
  unfoldable pub range_response : ℕ → ℕ → ℕ → Pdu
  unfolding put_uint16_array
  range_response f address quantity = record {
    function_code = f;
    payload = put_uint16_array (address ∷ quantity ∷ []);
  }

  -- WriteMultipleCoils
  unfoldable pub process_write_coils : Pdu → S → Option (S × Answer)
  unfolding write_coils write_reply handle_error range_response
  process_write_coils p s = do
    address ← word_at p.payload 0
    quantity ← word_at p.payload 2
    if not (length p.payload == 5 + (quantity + 7) / 8)
        then some (s, handle_error p.function_code exc_illegal_value)
        else (do
          w ← write_coils p.payload address 0 quantity s
          some (write_reply p (range_response p.function_code address quantity) w))

  -- WriteMultipleRegisters
  unfoldable pub process_write_words : Pdu → S → Option (S × Answer)
  unfolding write_words write_reply handle_error range_response
  process_write_words p s = do
    address ← word_at p.payload 0
    quantity ← word_at p.payload 2
    if not (length p.payload == 5 + quantity * 2)
        then some (s, handle_error p.function_code exc_illegal_value)
        else (do
          w ← write_words p.payload address 0 quantity s
          some (write_reply p (range_response p.function_code address quantity) w))

  -- A read leaves the registers alone.
  unfoldable pub keep_state : S → Option Answer → Option (S × Answer)
  keep_state s a = a >>= λ r. some (s, r)

  -- `PDU.ProcessRequest`
  unfoldable pub process_request : Pdu → S → Option (S × Answer)
  unfolding process_read_bits process_read_words process_write_coil process_write_reg
      process_write_coils process_write_words keep_state handle_error min_request_len
  process_request p s =
      let f = p.function_code in
      if ltb (length p.payload + 1) (min_request_len f)
      then some (s, not_enough_data)
      else if f == 1
      then keep_state s (process_read_bits p (regs.provide_coil s))
      else if f == 2
      then keep_state s (process_read_bits p (regs.provide_discrete_input s))
      else if f == 3
      then keep_state s (process_read_words p (regs.provide_reg s))
      else if f == 4
      then keep_state s (process_read_words p (regs.provide_input_reg s))
      else if f == 5
      then process_write_coil p s
      else if f == 15
      then process_write_coils p s
      else if f == 6
      then process_write_reg p s
      else if f == 16
      then process_write_words p s
      else some (s, handle_error f exc_illegal_function)
