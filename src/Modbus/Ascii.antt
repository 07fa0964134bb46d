-- ===== src/Modbus/Ascii.antt =====
-- modbus/ascii.go: packets of Modbus over ASCII, two hexadecimal digits to a byte.
pub mod Packet
pub mod Requests
use simpleiot.Prelude.{
  ℕ, zero, suc, ◌+◌, ◌-◌, ◌*◌, ◌/◌, ◌%◌, ◌^◌, ◌<◌, ◌≡◌, refl, Bool, true, false, not, ◌&&◌, List,
  [], ◌∷◌, Option, none, some, ltb, leb, ◌==◌, if◌then◌else◌, length, take, drop,
}
use simpleiot.Prelude.Options.{◌>>=◌}

-- `ASCIIADU`; `payload` is its field Data, `ending` its field End.
pub record AsciiAdu : Type 0 where
  pub address : ℕ
  pub function_code : ℕ
  pub payload : List ℕ
  pub lrc : ℕ
  pub ending : List ℕ

pub data AsciiError : Type 0 where
  not_enough_data : AsciiError
  invalid_start : AsciiError
  wrong_ending : AsciiError
  invalid_hex : AsciiError
  lrc_failed : AsciiError

pub data Parsed (A : Type 0) : Type 0 where
  parsed : A → Parsed A
  bad : AsciiError → Parsed A

-- The result of a step goes on to `f`, an error is returned.
unfoldable pub on_parsed : {A B : Type 0} → Parsed A → (A → Parsed B) → Parsed B
on_parsed (parsed a) f = f a
on_parsed (bad e) f = bad e

-- The sum of bytes in a byte
unfoldable pub byte_sum : ℕ → List ℕ → ℕ
byte_sum sum [] = sum
byte_sum sum (b ∷ bs) = byte_sum ((sum + b) % 256) bs

-- `ASCIIADU.CheckLRC`; `byte(-int8(sum))` is the negation of the byte.
unfoldable pub check_lrc : AsciiAdu → Bool
unfolding byte_sum
check_lrc adu = (256 - byte_sum 0 (adu.address ∷ adu.function_code ∷ adu.payload)) % 256 == adu.lrc

-- Standard library: a digit of `encoding/hex`
unfoldable pub from_hex_char : ℕ → Option ℕ
from_hex_char c =
    if leb 48 c && leb c 57
    then some (c - 48)
    else if leb 97 c && leb c 102
    then some (c - 87)
    else if leb 65 c && leb c 70
    then some (c - 55)
    else none

unfoldable pub hex_pair : Option ℕ → Option ℕ → Parsed ℕ
hex_pair (some h) (some l) = parsed (h * 16 + l)
hex_pair (some h) none = bad invalid_hex
hex_pair none l = bad invalid_hex

-- Standard library: `hex.Decode`; an odd length is an error.
unfoldable pub decode_hex : List ℕ → Parsed (List ℕ)
unfolding hex_pair on_parsed
decode_hex [] = parsed []
decode_hex (c ∷ []) = bad invalid_hex
decode_hex (h ∷ l ∷ rest) =
    on_parsed (hex_pair (from_hex_char h) (from_hex_char l))
      (λ b. on_parsed (decode_hex rest) (λ bs. parsed (b ∷ bs)))

-- `DecodeASCIIByte`
unfoldable pub decode_ascii_byte : List ℕ → Parsed (ℕ × List ℕ)
unfolding hex_pair on_parsed
decode_ascii_byte [] = bad not_enough_data
decode_ascii_byte (c ∷ []) = bad not_enough_data
decode_ascii_byte (h ∷ l ∷ rest) =
    on_parsed (hex_pair (from_hex_char h) (from_hex_char l)) (λ b. parsed (b, rest))

-- The one byte of two digits, with what is left
unfoldable pub last_byte : List ℕ → List ℕ → Parsed (ℕ × List ℕ)
last_byte (b ∷ []) rest = parsed (b, rest)
last_byte _ rest = bad invalid_hex

-- `DecodeASCIIByteEnd`
unfoldable pub decode_ascii_byte_end : List ℕ → Parsed (ℕ × List ℕ)
unfolding decode_hex last_byte
decode_ascii_byte_end xs =
    let n = length xs - 2 in
    if ltb (length xs) 2
    then bad not_enough_data
    else on_parsed (decode_hex (drop n xs)) (λ bs. last_byte bs (take n xs))

unfoldable pub is_ascii_end : List ℕ → Bool
is_ascii_end (a ∷ b ∷ []) = a == 13 && b == 10
is_ascii_end _ = false

-- The last step, with all fields known
unfoldable pub check_adu : AsciiAdu → Parsed AsciiAdu
check_adu adu = if not (check_lrc adu) then bad lrc_failed else parsed adu

-- The fields between the start and the end of a packet
unfoldable pub decode_fields : List ℕ → List ℕ → Parsed AsciiAdu
unfolding decode_ascii_byte decode_ascii_byte_end check_adu
decode_fields ending xs = on_parsed (decode_ascii_byte xs) (λ a.
    on_parsed (decode_ascii_byte (a.1)) (λ f. on_parsed (decode_ascii_byte_end (f.1)) (λ l.
      on_parsed (decode_hex (l.1)) (λ bs. check_adu (record {
        address = a.0;
        function_code = f.0;
        payload = bs;
        lrc = l.0;
        ending = ending;
      })))))

unfoldable pub after_start : List ℕ → Parsed AsciiAdu
unfolding decode_fields is_ascii_end
after_start xs =
    let n = length xs - 2 in
    if not (is_ascii_end (drop n xs))
    then bad wrong_ending
    else decode_fields (drop n xs) (take n xs)

unfoldable pub check_start : List ℕ → Parsed AsciiAdu
unfolding after_start
check_start [] = bad not_enough_data
check_start (c ∷ rest) = if not (c == 58) then bad invalid_start else after_start rest

-- `DecodeASCIIPDU`
unfoldable pub decode_ascii_pdu : List ℕ → Parsed AsciiAdu
unfolding check_start
decode_ascii_pdu xs = if ltb (length xs) 9 then bad not_enough_data else check_start xs
