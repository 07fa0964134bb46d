-- ===== src/Modbus/Server/Writes.antt =====
-- modbus/pdu.go: what WriteMultipleRegisters does, against the writes one after the other.
use simpleiot.Prelude.{
  true, false, ℕ, suc, ◌+◌, ◌*◌, ◌/◌, ◌%◌, ◌^◌, ◌<◌, ◌≡◌, refl, sym, ap, ◌∙◌, List, [], ◌∷◌, ◌++◌,
  Option, none, some, ltb-false, ==_iff, length, length-append, arith, All,
}
use simpleiot.Prelude.Options.{◌>>=◌}
use simpleiot.Modbus.{
  Pdu, ModbusError, exception, other_error, word_at, put_uint16_array, min_request_len,
}
use simpleiot.Modbus.Server.{
  RegProvider, Answer, answer, handle_error, write_words, go_on, write_reply, range_response,
  process_write_words, process_request,
}
use simpleiot.Modbus.Server.Reads.{append_assoc, word_at-append, length-put_uint16_array}

-- A request to write the words `vs` from an address on, as the protocol has it
abbrev pub write_multiple_regs : ℕ → List ℕ → Pdu
write_multiple_regs address vs = record {
  function_code = 16;
  payload =
      put_uint16_array (address ∷ length vs ∷ []) ++ ((length vs * 2 % 256) ∷ put_uint16_array vs);
}

module _ {S : Type 0} (regs : RegProvider S) where
  abbrev pub then_put :
      S × Option ModbusError → (S → S × Option ModbusError) → S × Option ModbusError
  then_put (s, none) next = next s
  then_put (s, some e) next = (s, some e)

  -- The words put into the registers one after the other, up to the first error
  abbrev pub put_words : S → ℕ → ℕ → List ℕ → S × Option ModbusError
  put_words s address i [] = (s, none)
  put_words s address i (v ∷ vs) =
      then_put (regs.put_reg s (address + i) v) (λ t. put_words t address (suc i) vs)

  go_on-then_put :
      (w : S × Option ModbusError) (next : S → Option (S × Option ModbusError))
      (spec : S → S × Option ModbusError)
      → ((t : S) → next t ≡ some (spec t))
      → go_on regs w next ≡ some (then_put w spec)
  unfolding go_on
  go_on-then_put (s, none) next spec h = h s
  go_on-then_put (s, some e) next spec h = refl

  write_words-put_words :
      (address i : ℕ) (vs xs : List ℕ) (s : S)
      → length xs ≡ 5 + i * 2
      → All (λ v. v < 2 ^ 16) vs
      → write_words regs (xs ++ put_uint16_array vs) address i (length vs) s
        ≡ some (put_words s address i vs)
  unfolding write_words put_uint16_array
  write_words-put_words address i [] xs s l a = refl
  write_words-put_words address i (v ∷ vs) xs s l (h, a) =
      rw
        (ap (λ (n : ℕ). word_at (xs ++ (two ++ put_uint16_array vs)) n) (sym l)
          ∙ word_at-append xs v (put_uint16_array vs) h)
        (go_on-then_put (regs.put_reg s (address + i) v) _ (λ t. put_words t address (suc i) vs)
          (λ t.
            ap (λ ys. write_words regs ys address (suc i) (length vs) t)
              (sym (append_assoc xs two (put_uint16_array vs)))
            ∙ write_words-put_words address (suc i) vs (xs ++ two) t
                (omega (arith, length-append xs two, l)) a))
    where
      two : List ℕ
      two = (v / 256 % 256) ∷ (v % 256) ∷ []

  -- The exception code of an error: 4, for a failure of the device, if it has none of its own
  abbrev pub exception_code : ModbusError → ℕ
  exception_code (exception c) = c
  exception_code other_error = 4

  -- What the protocol has for the end of a write of registers: the registers, whether they count as
  -- changed, and the response.
  abbrev pub written : ℕ → List ℕ → S × Option ModbusError → S × Answer
  written address vs (s, none) = (
    s,
    answer true (record {
      function_code = 16;
      payload = (address / 256) ∷ (address % 256) ∷ (length vs / 256) ∷ (length vs % 256) ∷ [];
    }),
  )
  written address vs (s, some e) =
      (s, answer false (record { function_code = 144; payload = exception_code e ∷ [] }))

  write_reply-written :
      (address : ℕ) (vs : List ℕ) (w : S × Option ModbusError)
      → address < 2 ^ 16
      → length vs < 2 ^ 16
      → write_reply regs
          (write_multiple_regs address vs)
          (range_response regs 16 address (length vs))
          w
        ≡ written address vs w
  unfolding write_reply range_response handle_error put_uint16_array
  write_reply-written address vs (s, none) h l =
      let e : address / 256 % 256 ≡ address / 256 = omega arith in
      let f : length vs / 256 % 256 ≡ length vs / 256 = omega arith in rw (e, f) refl
  write_reply-written address vs (s, some (exception c)) h l = refl
  write_reply-written address vs (s, some other_error) h l = refl

  process_request_lem :
      (address : ℕ) (vs : List ℕ) (s : S)
      → address < 2 ^ 16
      → 0 < length vs
      → length vs < 2 ^ 16
      → All (λ v. v < 2 ^ 16) vs
      → process_request regs (write_multiple_regs address vs) s
        ≡ some (
            write_reply regs
              (write_multiple_regs address vs)
              (range_response regs 16 address (length vs))
              (put_words s address 0 vs))
  unfolding process_request min_request_len process_write_words put_uint16_array word_at
  process_request_lem address vs s h n l a =
      let e : address / 256 % 256 * 256 + address % 256 ≡ address = omega arith in
      let f : length vs / 256 % 256 * 256 + length vs % 256 ≡ length vs = omega arith in
      rw
        (
          ltb-false (length d + 1) 8 (omega (arith, length-put_uint16_array vs)),
          e,
          f,
          (==_iff (length d) (5 + length vs * 2)).1 (omega (arith, length-put_uint16_array vs)),
        )
        (ap
          (λ o. o >>= λ w. some (
            write_reply regs (write_multiple_regs address vs)
              (range_response regs 16 address (length vs)) w))
          (write_words-put_words address 0 vs
            (put_uint16_array (address ∷ length vs ∷ []) ++ ((length vs * 2 % 256) ∷ [])) s refl a))
    where
      d : List ℕ
      d = (write_multiple_regs address vs).payload

  -- A well-formed WriteMultipleRegisters of at least one word puts exactly the words of the
  -- request into the registers, one after the other up to the first error, for any provider. With
  -- no error the response has the function code 16, the address and the count, and the registers
  -- count as changed; with one the response has the function code 144 and the code of the exception
  -- (4 for an error without a code), the words before it stay written, and no change is reported.
  pub process_request-put_words :
      (address : ℕ) (vs : List ℕ) (s : S)
      → address < 2 ^ 16
      → 0 < length vs
      → length vs < 2 ^ 16
      → All (λ v. v < 2 ^ 16) vs
      → process_request regs (write_multiple_regs address vs) s
        ≡ some (written address vs (put_words s address 0 vs))
  process_request-put_words address vs s h n l a =
      process_request_lem address vs s h n l a
      ∙ ap some (write_reply-written address vs (put_words s address 0 vs) h l)
