-- ===== src/Modbus/Server/Bits.antt =====
-- modbus/pdu.go: how many bits `RespReadBits` gives for a response.
use simpleiot.Prelude.{
  ℕ, zero, suc, ◌+◌, ◌*◌, ◌/◌, ◌<◌, ◌≤◌, ◌≡◌, refl, ap, Bool, true, false, List, [], ◌∷◌, some, ltb,
  ltb-false, ◌==◌, ◌||◌, length, Bool-cases, inl, inr, arith, ltb→lt,
}
use simpleiot.Prelude.Options.{get_elem?-Returns}
use simpleiot.Modbus.Server.Response.{reading, bits_loop, as_reading, resp_read_bits}

not_ltb : (a b : ℕ) → ltb a b ≡ false → b ≤ a
not_ltb a b h = ground arith

-- The bytes that `n` more bits take are there.
bits_loop-length :
    (d : List ℕ) (i k n : ℕ)
    → k < 8
    → (i * 8 + k + n + 7) / 8 < length d
    → (bs : List Bool) × (bits_loop d i k n ≡ some bs) × (length bs ≡ n)
unfolding bits_loop
bits_loop-length d i k zero h l = ([], refl, refl)
bits_loop-length d i k (suc n) h l =
    let (b, e) = get_elem?-Returns d (i + 1) (omega arith) in
    rw e (elim (Bool-cases (ltb (k + 1) 8)) [
      | inl t ↦
          let (bs, f, m) = bits_loop-length d i (k + 1) n (ltb→lt (k + 1) 8 t) (omega arith) in
          rw (t, f) (_, refl, ap suc m)
      | inr t ↦
          let (bs, f, m) =
            bits_loop-length d (i + 1) 0 n (omega arith) (omega (arith, not_ltb (k + 1) 8 t)) in
          rw (t, f) (_, refl, ap suc m)
    ])

-- A response to ReadCoils or ReadDiscreteInputs that carries n bytes, the way `ProcessRequest`
-- builds it, with n in front (n > 0), is read without a panic as n bits, and not as the 8 n bits
-- that the bytes hold: the byte count is taken for the count of bits.
pub resp_read_bits-length :
    (f n : ℕ) (bytes : List ℕ)
    → 0 < n
    → length bytes ≡ n
    → (f == 1 || f == 2) ≡ true
    → (bs : List Bool) × (resp_read_bits (record { function_code = f; payload = n ∷ bytes })
        ≡ some (reading bs))
      × (length bs ≡ n)
unfolding resp_read_bits as_reading
resp_read_bits-length f n bytes h l t =
    let (bs, e, m) = bits_loop-length (n ∷ bytes) 0 0 n (omega arith) (omega arith) in
    rw (ltb-false (length (n ∷ bytes)) 2 (omega arith), t, e) (bs, refl, m)
