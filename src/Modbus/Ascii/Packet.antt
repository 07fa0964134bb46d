-- ===== src/Modbus/Ascii/Packet.antt =====
-- modbus/ascii.go: `DecodeASCIIPDU` on the packets that the protocol makes.
use simpleiot.Prelude.{
  ℕ, ◌+◌, ◌-◌, ◌*◌, ◌/◌, ◌%◌, ◌<◌, ◌≤◌, ◌≡◌, refl, ap, ap₂, ◌∙◌, not, List, [], ◌∷◌, ◌++◌, some,
  ltb, ltb-false, ==-refl, if◌then◌else◌, length, length-append, take, drop, take-append,
  drop-append, arith, All,
}
use simpleiot.Modbus.Ascii.{
  AsciiAdu, parsed, bad, wrong_ending, on_parsed, byte_sum, check_lrc, from_hex_char, hex_pair,
  decode_hex, decode_ascii_byte, last_byte, decode_ascii_byte_end, is_ascii_end, check_adu,
  decode_fields, after_start, check_start, decode_ascii_pdu,
}

-- The protocol's packet: a colon, the bytes as upper-case digits, a carriage return and a newline.
abbrev pub hex_char : ℕ → ℕ
hex_char n = if ltb n 10 then 48 + n else 55 + n

abbrev pub hex_bytes : List ℕ → List ℕ
hex_bytes [] = []
hex_bytes (b ∷ bs) = hex_char (b / 16) ∷ hex_char (b % 16) ∷ hex_bytes bs

-- The negated sum of the bytes
abbrev pub lrc_of : List ℕ → ℕ
lrc_of bs = (256 - byte_sum 0 bs) % 256

abbrev pub ascii_packet : ℕ → ℕ → List ℕ → List ℕ
ascii_packet address f payload =
    58
    ∷ (hex_bytes (address ∷ f ∷ payload ++ (lrc_of (address ∷ f ∷ payload) ∷ [])) ++ (13 ∷ 10 ∷ []))

from_hex_char-hex_char : (n : ℕ) → n < 16 → from_hex_char (hex_char n) ≡ some n
unfolding from_hex_char
from_hex_char-hex_char n h = ground arith

hex_pair_back :
    (b : ℕ)
    → b < 256
    → hex_pair (from_hex_char (hex_char (b / 16))) (from_hex_char (hex_char (b % 16))) ≡ parsed b
unfolding hex_pair
hex_pair_back b h =
    rw
      (from_hex_char-hex_char (b / 16) (omega arith), from_hex_char-hex_char (b % 16) (omega arith))
      (ap parsed (omega arith))

decode_hex-hex_bytes : (bs : List ℕ) → All (λ b. b < 256) bs → decode_hex (hex_bytes bs) ≡ parsed bs
unfolding decode_hex on_parsed
decode_hex-hex_bytes [] a = refl
decode_hex-hex_bytes (b ∷ bs) (h, a) = rw (hex_pair_back b h, decode_hex-hex_bytes bs a) refl

decode_ascii_byte-hex_bytes :
    (b : ℕ) (rest : List ℕ)
    → b < 256
    → decode_ascii_byte (hex_char (b / 16) ∷ hex_char (b % 16) ∷ rest) ≡ parsed (b, rest)
unfolding decode_ascii_byte on_parsed
decode_ascii_byte-hex_bytes b rest h = rw (hex_pair_back b h) refl

hex_bytes-append : (xs ys : List ℕ) → hex_bytes (xs ++ ys) ≡ hex_bytes xs ++ hex_bytes ys
hex_bytes-append [] ys = refl
hex_bytes-append (x ∷ xs) ys =
    ap (λ l. hex_char (x / 16) ∷ hex_char (x % 16) ∷ l) (hex_bytes-append xs ys)

-- The last two digits of a text are taken off.
byte_end_back :
    (xs : List ℕ) (l : ℕ)
    → l < 256
    → decode_ascii_byte_end (xs ++ hex_bytes (l ∷ [])) ≡ parsed (l, xs)
unfolding decode_ascii_byte_end on_parsed last_byte
byte_end_back xs l h = rw (ltb-false (length (xs ++ hex_bytes (l ∷ []))) 2 (omega (arith, len))) (
    ap
      (λ (n : ℕ).
        on_parsed (decode_hex (drop n (xs ++ hex_bytes (l ∷ []))))
          (λ bs. last_byte bs (take n (xs ++ hex_bytes (l ∷ [])))))
      at_end
    ∙ ap₂ (λ ds ts. on_parsed (decode_hex ds) (λ bs. last_byte bs ts)) (drop-append xs _)
        (take-append xs _)
    ∙ ap (λ r. on_parsed r (λ bs. last_byte bs xs)) (decode_hex-hex_bytes (l ∷ []) (h, tt)))
  where
    len : length (xs ++ hex_bytes (l ∷ [])) ≡ length xs + 2
    len = length-append xs (hex_bytes (l ∷ []))

    at_end : length (xs ++ hex_bytes (l ∷ [])) - 2 ≡ length xs
    at_end = omega (arith, len)

module _ (address f : ℕ) (payload : List ℕ) where
  abbrev pub adu : AsciiAdu
  adu = record {
    address = address;
    function_code = f;
    payload = payload;
    lrc = lrc_of (address ∷ f ∷ payload);
    ending = 13 ∷ 10 ∷ [];
  }

  abbrev digits_of : List ℕ
  digits_of = hex_bytes (address ∷ f ∷ payload ++ (lrc_of (address ∷ f ∷ payload) ∷ []))

  lrc_holds : check_adu adu ≡ parsed adu
  unfolding check_adu check_lrc
  lrc_holds = rw (==-refl (lrc_of (address ∷ f ∷ payload))) refl

  fields_back :
      All (λ b. b < 256) (address ∷ f ∷ payload)
      → decode_fields (13 ∷ 10 ∷ []) digits_of ≡ parsed adu
  unfolding decode_fields on_parsed
  fields_back (p, (q, a)) =
      let l = lrc_of (address ∷ f ∷ payload) in
      rw
        (
          decode_ascii_byte-hex_bytes address (hex_bytes (f ∷ payload ++ (l ∷ []))) p,
          decode_ascii_byte-hex_bytes f (hex_bytes (payload ++ (l ∷ []))) q,
          hex_bytes-append payload (l ∷ []),
          byte_end_back (hex_bytes payload) l (omega arith),
          decode_hex-hex_bytes payload a,
        )
        lrc_holds

  length-hex_bytes : (bs : List ℕ) → length (hex_bytes bs) ≡ length bs * 2
  length-hex_bytes [] = refl
  length-hex_bytes (b ∷ bs) = omega (arith, length-hex_bytes bs)

  start_back : after_start (digits_of ++ (13 ∷ 10 ∷ [])) ≡ decode_fields (13 ∷ 10 ∷ []) digits_of
  unfolding after_start is_ascii_end
  start_back =
      ap
        (λ (n : ℕ).
          if not (is_ascii_end (drop n (digits_of ++ (13 ∷ 10 ∷ []))))
          then bad wrong_ending
          else decode_fields (drop n (digits_of ++ (13 ∷ 10 ∷ [])))
              (take n (digits_of ++ (13 ∷ 10 ∷ []))))
        at_end
      ∙ ap₂ (λ ds ts. if not (is_ascii_end ds) then bad wrong_ending else decode_fields ds ts)
          (drop-append digits_of _) (take-append digits_of _)
    where
      at_end : length (digits_of ++ (13 ∷ 10 ∷ [])) - 2 ≡ length digits_of
      at_end = omega (arith, length-append digits_of (13 ∷ 10 ∷ []))

  long_enough : 9 ≤ length (ascii_packet address f payload)
  long_enough = omega (
    arith,
    length-append digits_of (13 ∷ 10 ∷ []),
    length-hex_bytes (payload ++ (lrc_of (address ∷ f ∷ payload) ∷ [])),
    length-append payload (lrc_of (address ∷ f ∷ payload) ∷ []),
  )

  -- `DecodeASCIIPDU` reads every packet of the protocol back: address, function code, data and
  -- checksum are those that were written, and the checksum is accepted.
  pub decode_ascii_pdu-ascii_packet :
      All (λ b. b < 256) (address ∷ f ∷ payload)
      → decode_ascii_pdu (ascii_packet address f payload) ≡ parsed adu
  unfolding decode_ascii_pdu check_start
  decode_ascii_pdu-ascii_packet a =
      rw (ltb-false (length (ascii_packet address f payload)) 9 long_enough)
        (start_back ∙ fields_back a)
