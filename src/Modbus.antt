-- ===== src/Modbus.antt =====
-- modbus/: the protocol data unit, codes, errors, and the reading and writing of words in byte
-- slices. A byte is a number below 256. An index or a slice out of range panics in Go; here it is
-- `none`.
pub mod Crc
pub mod Words
pub mod Rtu
pub mod Tcp
pub mod Regs
pub mod Ascii
pub mod Server
use simpleiot.Prelude.{
  ℕ, zero, suc, ◌+◌, ◌*◌, ◌/◌, ◌%◌, ◌≡◌, ◌<◌, refl, Bool, List, [], ◌∷◌, Option, none, some, ◌==◌,
  if◌then◌else◌, arith,
}
use simpleiot.Prelude.Options.{◌>>=◌}

-- `PDU`; `payload` is its field Data.
pub record Pdu : Type 0 where
  pub function_code : ℕ
  pub payload : List ℕ

-- The valid function codes.
abbrev pub func_code_read_coils : ℕ
func_code_read_coils = 1

abbrev pub func_code_read_discrete_inputs : ℕ
func_code_read_discrete_inputs = 2

abbrev pub func_code_read_holding_registers : ℕ
func_code_read_holding_registers = 3

abbrev pub func_code_read_input_registers : ℕ
func_code_read_input_registers = 4

abbrev pub func_code_write_single_coil : ℕ
func_code_write_single_coil = 5

abbrev pub func_code_write_single_register : ℕ
func_code_write_single_register = 6

abbrev pub func_code_write_multiple_coils : ℕ
func_code_write_multiple_coils = 15

abbrev pub func_code_write_multiple_registers : ℕ
func_code_write_multiple_registers = 16

-- `WriteCoilValueOn` and `WriteCoilValueOff`
abbrev pub write_coil_value_on : ℕ
write_coil_value_on = 0xff00

abbrev pub write_coil_value_off : ℕ
write_coil_value_off = 0

-- `minRequestLen`; a code that is not a key of the map gives 0.
unfoldable pub min_request_len : ℕ → ℕ
min_request_len f =
    if f == 2
    then 5
    else if f == 1
    then 5
    else if f == 5
    then 5
    else if f == 15
    then 7
    else if f == 4
    then 5
    else if f == 3
    then 5
    else if f == 6
    then 5
    else if f == 16
    then 8
    else if f == 23
    then 12
    else if f == 22
    then 7
    else if f == 24
    then 3
    else 0

-- An error is an `ExceptionCode` or any other error.
pub data ModbusError : Type 0 where
  exception : ℕ → ModbusError
  other_error : ModbusError

-- `ExcIllegalFunction`, `ExcIllegalAddress`, `ExcIllegalValue` and `ExcServerDeviceFailure`
abbrev pub exc_illegal_function : ModbusError
exc_illegal_function = exception 1

abbrev pub exc_illegal_address : ModbusError
exc_illegal_address = exception 2

abbrev pub exc_illegal_value : ModbusError
exc_illegal_value = exception 3

abbrev pub exc_server_device_failure : ModbusError
exc_server_device_failure = exception 4

-- A value or an error.
pub data Try (A : Type 0) : Type 0 where
  got : A → Try A
  failed : ModbusError → Try A

-- `binary.BigEndian.Uint16` of the slice from `i` on
unfoldable pub word_at : List ℕ → ℕ → Option ℕ
word_at [] i = none
word_at (h ∷ []) zero = none
word_at (h ∷ l ∷ xs) zero = some (h * 256 + l)
word_at (x ∷ xs) (suc i) = word_at xs i

-- `binary.BigEndian.PutUint16` into the slice from `i` on
unfoldable pub put_word : List ℕ → ℕ → ℕ → Option (List ℕ)
put_word [] i v = none
put_word (h ∷ []) zero v = none
put_word (h ∷ l ∷ xs) zero v = some ((v / 256 % 256) ∷ (v % 256) ∷ xs)
put_word (x ∷ xs) (suc i) v = put_word xs i v >>= λ ys. some (x ∷ ys)

-- `PutUint16Array`
unfoldable pub put_uint16_array : List ℕ → List ℕ
put_uint16_array [] = []
put_uint16_array (v ∷ vs) = (v / 256 % 256) ∷ (v % 256) ∷ put_uint16_array vs

-- `Uint16Array`; a last odd byte is left out.
unfoldable pub uint16_array : List ℕ → List ℕ
uint16_array [] = []
uint16_array (h ∷ []) = []
uint16_array (h ∷ l ∷ xs) = (h * 256 + l) ∷ uint16_array xs
