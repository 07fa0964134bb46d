-- ===== src/Modbus/Rtu.antt =====
-- modbus/rtu.go: `Encode` and `Decode` of RTU packets.
use simpleiot.Prelude.{
  ℕ, ◌+◌, ◌-◌, ◌^◌, ◌<◌, ◌≡◌, refl, ap, ap₂, ◌∙◌, List, [], ◌∷◌, ◌++◌, Option, none, some, ltb,
  ltb-false, ==-refl, if◌then◌else◌, arith, All, length, take, length-append, take-append,
}
use simpleiot.Modbus.{Pdu, put_uint16_array, word_at}
use simpleiot.Modbus.Crc.{rtu_crc, rtu_crc-lt, check_rtu_crc, same_crc, CrcError}

-- `RTU.Encode`; it never fails.
unfoldable pub encode : ℕ → Pdu → List ℕ
encode id pdu =
    let ret = id ∷ pdu.function_code ∷ pdu.payload in ret ++ put_uint16_array (rtu_crc ret ∷ [])

-- What `RTU.Decode` returns; `panicked` stands for an index out of range.
pub data Decoded : Type 0 where
  decoded : ℕ → Pdu → Decoded
  crc_error : CrcError → Decoded
  short_packet : Decoded
  panicked : Decoded

-- `RTU.Decode` after the check of the checksum
unfoldable pub split_packet : List ℕ → Decoded
split_packet [] = panicked
split_packet (id ∷ []) = panicked
split_packet (id ∷ f ∷ rest) =
    if ltb (length (id ∷ f ∷ rest)) 4
    then short_packet
    else decoded id (record { function_code = f; payload = take (length rest - 2) rest })

unfoldable pub after_check : Option CrcError → List ℕ → Decoded
after_check (some e) packet = crc_error e
after_check none packet = split_packet packet

-- `RTU.Decode`
unfoldable pub decode : List ℕ → Decoded
unfolding after_check
decode packet = after_check (check_rtu_crc packet) packet

word_at-append :
    (xs : List ℕ) (v : ℕ)
    → v < 2 ^ 16
    → word_at (xs ++ put_uint16_array (v ∷ [])) (length xs) ≡ some v
unfolding word_at put_uint16_array
word_at-append [] v h = ap some (omega arith)
word_at-append (x ∷ []) v h = ap some (omega arith)
word_at-append (x ∷ y ∷ xs) v h = word_at-append (y ∷ xs) v h

same_crc_refl : (c : ℕ) → same_crc c (some c) ≡ none
unfolding same_crc
same_crc_refl c = rw (==-refl c) refl

abbrev with_crc : List ℕ → List ℕ
with_crc xs = xs ++ put_uint16_array (rtu_crc xs ∷ [])

-- Where the checksum of `xs` is appended to it, the check passes.
check-encode :
    (xs : List ℕ) → All (λ b. b < 256) xs → 1 < length xs → check_rtu_crc (with_crc xs) ≡ none
unfolding check_rtu_crc put_uint16_array
check-encode xs a l = rw (ltb-false (length (with_crc xs)) 4 (omega (arith, len))) (
    ap (λ (n : ℕ). same_crc (rtu_crc (take n (with_crc xs))) (word_at (with_crc xs) n)) at_end
    ∙ ap₂ (λ ys o. same_crc (rtu_crc ys) o) (take-append xs _)
        (word_at-append xs (rtu_crc xs) (rtu_crc-lt xs a))
    ∙ same_crc_refl (rtu_crc xs))
  where
    len : length (with_crc xs) ≡ length xs + 2
    len = length-append xs _

    at_end : length (with_crc xs) - 2 ≡ length xs
    at_end = omega (arith, len)

abbrev with_tail : ℕ → ℕ → List ℕ → List ℕ
with_tail id f payload = payload ++ put_uint16_array (rtu_crc (id ∷ f ∷ payload) ∷ [])

-- A slave address and a PDU that are bytes come back unchanged from the packet that `Encode` makes
-- of them: the checksum is accepted and cut off.
pub decode-encode :
    (id f : ℕ) (payload : List ℕ)
    → All (λ b. b < 256) (id ∷ f ∷ payload)
    → decode (encode id (record { function_code = f; payload = payload }))
      ≡ decoded id (record { function_code = f; payload = payload })
unfolding decode encode after_check split_packet put_uint16_array
decode-encode id f payload a = rw (check-encode (id ∷ f ∷ payload) a (omega arith)) (
    rw (ltb-false (length (id ∷ f ∷ with_tail id f payload)) 4 (omega (arith, len))) (
      ap (λ ys. decoded id (record { function_code = f; payload = ys }))
        (ap (λ (n : ℕ). take n (with_tail id f payload)) at_end ∙ take-append payload _)))
  where
    len : length (with_tail id f payload) ≡ length payload + 2
    len = length-append payload _

    at_end : length (with_tail id f payload) - 2 ≡ length payload
    at_end = omega (arith, len)
