-- ===== src/Modbus/Server/Total.antt =====
-- modbus/pdu.go: which requests make `ProcessRequest` panic, and which never do.
use simpleiot.Prelude.{
  ℕ, suc, ◌+◌, ◌*◌, ◌/◌, ◌%◌, ◌^◌, ◌<◌, ◌≤◌, ◌≡◌, refl, Bool, true, false, List, Option, none, some,
  ltb, ◌==◌, ==_iff, if◌then◌else◌, length, length-replicate, Bool-cases, inl, inr, arith,
}
use simpleiot.Prelude.Options.{Returns, bind-Returns}
use simpleiot.Modbus.{Pdu, Try, word_at, put_uint16_array, min_request_len, exc_illegal_function}
use simpleiot.Modbus.Server.{
  RegProvider, Answer, not_enough_data, handle_error, set_first, read_bits, read_words, byte_count,
  process_read_bits, process_read_words, write_coils, write_words, process_write_coil,
  process_write_reg, process_write_coils, process_write_words, keep_state, process_request,
}
use simpleiot.Modbus.Server.Indices.{
  header-Returns, write_coils-Returns, write_words-Returns, read_bits-Returns, read_words-Returns,
}
use simpleiot.Modbus.Server.Response.{read_coils}

module _ {S : Type 0} (regs : RegProvider S) where
  write_coils_request :
      (p : Pdu) (s : S) → 3 < length p.payload → Returns (process_write_coils regs p s)
  unfolding process_write_coils
  write_coils_request p s h = header-Returns p.payload _ h (λ a c _.
      elim (Bool-cases (length p.payload == 5 + (c + 7) / 8)) [
        | inl t ↦ rw t (
            bind-Returns (write_coils regs p.payload a 0 c s) _
              (write_coils-Returns regs p.payload a 0 c s (omega (arith, (==_iff _ _).0 t)))
              (λ w _. (_, refl)))
        | inr f ↦ rw f (_, refl)
      ])

  write_words_request :
      (p : Pdu) (s : S) → 3 < length p.payload → Returns (process_write_words regs p s)
  unfolding process_write_words
  write_words_request p s h = header-Returns p.payload _ h (λ a c _.
      elim (Bool-cases (length p.payload == 5 + c * 2)) [
        | inl t ↦ rw t (
            bind-Returns (write_words regs p.payload a 0 c s) _
              (write_words-Returns regs p.payload a 0 c s (omega (arith, (==_iff _ _).0 t)))
              (λ w _. (_, refl)))
        | inr f ↦ rw f (_, refl)
      ])

  write_coil_request :
      (p : Pdu) (s : S) → 3 < length p.payload → Returns (process_write_coil regs p s)
  unfolding process_write_coil
  write_coil_request p s h = header-Returns p.payload _ h (λ a c _. (_, refl))

  write_reg_request :
      (p : Pdu) (s : S) → 3 < length p.payload → Returns (process_write_reg regs p s)
  unfolding process_write_reg
  write_reg_request p s h = header-Returns p.payload _ h (λ a c _. (_, refl))

  read_bits_request :
      (p : Pdu) (read : ℕ → Try Bool)
      → 3 < length p.payload
      → ((c : ℕ) → word_at p.payload 2 ≡ some c → c ≤ 2032)
      → Returns (process_read_bits regs p read)
  unfolding process_read_bits byte_count set_first
  read_bits_request p read h b = header-Returns p.payload _ h (λ a c e.
      let small = b c e in
      let width : (1 + (c + 7) % 2 ^ 16 / 8 % 256) % 256 ≡ suc ((c + 7) / 8) = omega arith in
      rw width (
        bind-Returns (read_bits read a 0 c _) _
          (read_bits-Returns read a 0 c _ (omega (arith, length-replicate {A = ℕ} ((c + 7) / 8) 0)))
          (λ r _. (_, refl))))

  read_words_request :
      (p : Pdu) (read : ℕ → Try ℕ)
      → 3 < length p.payload
      → ((c : ℕ) → word_at p.payload 2 ≡ some c → c ≤ 32767)
      → Returns (process_read_words regs p read)
  unfolding process_read_words set_first
  read_words_request p read h b = header-Returns p.payload _ h (λ a c e.
      let small = b c e in
      let width : (1 + 2 * c) % 2 ^ 16 ≡ suc (c * 2) = omega arith in
      rw width (
        bind-Returns (read_words read a 0 c _) _
          (read_words-Returns read a 0 c _ (omega (arith, length-replicate {A = ℕ} (c * 2) 0)))
          (λ r _. (_, refl))))

  keep_state-Returns : (s : S) (a : Option Answer) → Returns a → Returns (keep_state regs s a)
  unfolding keep_state
  keep_state-Returns s a r = bind-Returns a _ r (λ x _. (_, refl))

  guard-Returns :
      {A : Type 0} (b : Bool) (z : A) (y : Option A)
      → (b ≡ false → Returns y)
      → Returns (if b then some z else y)
  guard-Returns true z y h = (z, refl)
  guard-Returns false z y h = h refl

  enough_data : (n k : ℕ) → 4 < k → ltb (n + 1) k ≡ false → 3 < n
  enough_data n k l h = ground arith

  -- A request with one of the codes, after the check of its length
  on_request :
      (k : ℕ) (d : List ℕ) (s : S) (y : Option (S × Answer))
      → 4 < k
      → (3 < length d → Returns y)
      → Returns (if ltb (length d + 1) k then some (s, not_enough_data) else y)
  on_request k d s y l h =
      guard-Returns (ltb (length d + 1) k) (s, not_enough_data) y
        (λ e. h (enough_data (length d) k l e))

  -- The end of `minRequestLen`: codes that the switch does not have
  abbrev rest_len : ℕ → ℕ
  rest_len f = if f == 23 then 12 else if f == 22 then 7 else if f == 24 then 3 else 0

  -- The requests that do not read
  other_code :
      (f : ℕ) (d : List ℕ) (s : S)
      → (f == 1) ≡ false
      → (f == 2) ≡ false
      → (f == 3) ≡ false
      → (f == 4) ≡ false
      → Returns (process_request regs (record { function_code = f; payload = d }) s)
  unfolding process_request min_request_len
  other_code f d s n1 n2 n3 n4 = elim (Bool-cases (f == 5)) [
    | inl t ↦ rw ((==_iff f 5).0 t) (
        on_request 5 d s _ (omega arith)
          (write_coil_request (record { function_code = 5; payload = d }) s))
    | inr n5 ↦ elim (Bool-cases (f == 15)) [
      | inl t ↦ rw ((==_iff f 15).0 t) (
          on_request 7 d s _ (omega arith)
            (write_coils_request (record { function_code = 15; payload = d }) s))
      | inr n15 ↦ elim (Bool-cases (f == 6)) [
        | inl t ↦ rw ((==_iff f 6).0 t) (
            on_request 5 d s _ (omega arith)
              (write_reg_request (record { function_code = 6; payload = d }) s))
        | inr n6 ↦ elim (Bool-cases (f == 16)) [
          | inl t ↦ rw ((==_iff f 16).0 t) (
              on_request 8 d s _ (omega arith)
                (write_words_request (record { function_code = 16; payload = d }) s))
          | inr n16 ↦
              rw (n1, n2, n3, n4, n5, n15, n6, n16)
                (guard-Returns (ltb (length d + 1) (rest_len f)) (s, not_enough_data)
                  (some (s, handle_error f exc_illegal_function)) (λ _. (_, refl)))
        ]
      ]
    ]
  ]

  by_code :
      (f : ℕ) (d : List ℕ) (s : S)
      → ((c : ℕ) → word_at d 2 ≡ some c → (f ≤ 2 → c ≤ 2032) × (f ≤ 4 → c ≤ 32767))
      → Returns (process_request regs (record { function_code = f; payload = d }) s)
  unfolding process_request min_request_len
  by_code f d s b = elim (Bool-cases (f == 1)) [
    | inl t ↦
        let e = (==_iff f 1).0 t in
        rw e (
          on_request 5 d s _ (omega arith) (λ h. keep_state-Returns s _ (
            read_bits_request (record { function_code = 1; payload = d }) (regs.provide_coil s) h
              (λ c k. (b c k).0 (omega (arith, e))))))
    | inr n1 ↦ elim (Bool-cases (f == 2)) [
      | inl t ↦
          let e = (==_iff f 2).0 t in
          rw e (
            on_request 5 d s _ (omega arith) (λ h. keep_state-Returns s _ (
              read_bits_request (record { function_code = 2; payload = d })
                (regs.provide_discrete_input s) h (λ c k. (b c k).0 (omega (arith, e))))))
      | inr n2 ↦ elim (Bool-cases (f == 3)) [
        | inl t ↦
            let e = (==_iff f 3).0 t in
            rw e (
              on_request 5 d s _ (omega arith) (λ h. keep_state-Returns s _ (
                read_words_request (record { function_code = 3; payload = d }) (regs.provide_reg s)
                  h (λ c k. (b c k).1 (omega (arith, e))))))
        | inr n3 ↦ elim (Bool-cases (f == 4)) [
          | inl t ↦
              let e = (==_iff f 4).0 t in
              rw e (
                on_request 5 d s _ (omega arith) (λ h. keep_state-Returns s _ (
                  read_words_request (record { function_code = 4; payload = d })
                    (regs.provide_input_reg s) h (λ c k. (b c k).1 (omega (arith, e))))))
          | inr n4 ↦ other_code f d s n1 n2 n3 n4
        ]
      ]
    ]
  ]

  -- `ProcessRequest` does not panic, for any provider of registers, any function code and any
  -- data, if the count of a request that reads is small: at most 2032 coils or inputs, or at most
  -- 32767 registers.
  pub process_request-Returns :
      (p : Pdu) (s : S)
      → ((c : ℕ)
          → word_at p.payload 2 ≡ some c
          → (p.function_code ≤ 2 → c ≤ 2032) × (p.function_code ≤ 4 → c ≤ 32767))
      → Returns (process_request regs p s)
  process_request-Returns p s b = by_code p.function_code p.payload s b

-- A request for 2033 to 2040 coils makes `ProcessRequest` panic, whatever registers there are: the
-- length of the response, `1+bytes`, is a byte that wraps to 0, and its first byte is written.
pub process_request-panics :
    {S : Type 0} (regs : RegProvider S) (address count : ℕ) (s : S)
    → 2033 ≤ count
    → count ≤ 2040
    → process_request regs (read_coils address count) s ≡ none
unfolding process_request min_request_len process_read_bits put_uint16_array word_at set_first
    byte_count keep_state
process_request-panics regs address count s l h =
    let width : (1 + (count / 256 % 256 * 256 + count % 256 + 7) % 2 ^ 16 / 8 % 256) % 256 ≡ 0 =
      omega arith in
    rw width refl
