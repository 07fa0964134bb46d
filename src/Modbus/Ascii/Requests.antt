-- ===== src/Modbus/Ascii/Requests.antt =====
-- modbus/ascii.go: `DecodeFunctionData`. `none` is a panic.
use simpleiot.Prelude.{
  ℕ, zero, suc, ◌+◌, ◌*◌, ◌/◌, ◌%◌, ◌^◌, ◌<◌, ◌≤◌, ◌≡◌, refl, sym, ap, ◌∙◌, not, List, [], ◌∷◌,
  ◌++◌, Option, none, some, ltb, ltb-false, ◌==◌, ==-refl, ==_iff, if◌then◌else◌, length,
  length-append, get_elem?, drop, arith, All,
}
use simpleiot.Prelude.Options.{◌>>=◌}
use simpleiot.Modbus.{word_at, put_uint16_array}
use simpleiot.Modbus.Ascii.{AsciiAdu}
use simpleiot.Modbus.Server.Reads.{append_assoc, word_at-append, length-put_uint16_array}

-- `FuncWriteMultipleRegisterRequest`; its function code is 16.
pub record WriteRequest : Type 0 where
  pub starting_address : ℕ
  pub reg_count : ℕ
  pub byte_count : ℕ
  pub reg_values : List ℕ

-- What `DecodeFunctionData` returns
pub data FunctionData : Type 0 where
  write_request : WriteRequest → FunctionData
  not_enough_data : FunctionData
  wrong_byte_count : FunctionData
  not_enough_reg_data : FunctionData
  unhandled : FunctionData

-- The loop over the registers, from the i-th on
unfoldable pub values_loop : List ℕ → ℕ → ℕ → Option (List ℕ)
values_loop d i zero = some []
values_loop d i (suc n) = do v ← word_at d (i * 2); rest ← values_loop d (suc i) n; some (v ∷ rest)

-- After the address and the counts have been read
unfoldable pub read_values : ℕ → ℕ → ℕ → List ℕ → Option FunctionData
unfolding values_loop
read_values address count bytes reg_data =
    if not (count * 2 % 2 ^ 16 == bytes)
    then some wrong_byte_count
    else if not (length reg_data == bytes)
    then some not_enough_reg_data
    else values_loop reg_data 0 count >>= λ vs. some (
        write_request (record {
          starting_address = address;
          reg_count = count;
          byte_count = bytes;
          reg_values = vs;
        }))

-- `ASCIIADU.DecodeFunctionData`
unfoldable pub decode_function_data : AsciiAdu → Option FunctionData
unfolding read_values
decode_function_data adu =
    if not (adu.function_code == 16)
    then some unhandled
    else if ltb (length adu.payload) 5
    then some not_enough_data
    else word_at adu.payload 0 >>= λ address. word_at adu.payload 2 >>= λ count.
        get_elem? adu.payload 4 >>= λ bytes. read_values address count bytes (drop 5 adu.payload)

-- Behind `xs`, where `i` words have been read
values_loop-finds :
    (i : ℕ) (vs xs : List ℕ)
    → length xs ≡ i * 2
    → All (λ v. v < 2 ^ 16) vs
    → values_loop (xs ++ put_uint16_array vs) i (length vs) ≡ some vs
unfolding values_loop put_uint16_array
values_loop-finds i [] xs l a = refl
values_loop-finds i (v ∷ vs) xs l (h, a) =
    rw
      (ap (λ (n : ℕ). word_at (xs ++ (two ++ put_uint16_array vs)) n) (sym l)
        ∙ word_at-append xs v (put_uint16_array vs) h)
      (ap (λ o. o >>= λ rest. some (v ∷ rest))
        (ap (λ ys. values_loop ys (suc i) (length vs))
            (sym (append_assoc xs two (put_uint16_array vs)))
          ∙ values_loop-finds (suc i) vs (xs ++ two) (omega (arith, length-append xs two, l)) a))
  where
    two : List ℕ
    two = (v / 256 % 256) ∷ (v % 256) ∷ []

-- A request of the protocol to write the words `vs`
abbrev pub request : ℕ → ℕ → List ℕ → AsciiAdu
request address lrc vs = record {
  address = address;
  function_code = 16;
  payload = put_uint16_array (address ∷ length vs ∷ []) ++ ((length vs * 2) ∷ put_uint16_array vs);
  lrc = lrc;
  ending = 13 ∷ 10 ∷ [];
}

-- `DecodeFunctionData` reads a request to write up to 127 words back: the address, the counts and
-- the words in their order.
pub decode_function_data-request :
    (address lrc : ℕ) (vs : List ℕ)
    → address < 2 ^ 16
    → length vs ≤ 127
    → All (λ v. v < 2 ^ 16) vs
    → decode_function_data (request address lrc vs)
      ≡ some (
          write_request (record {
            starting_address = address;
            reg_count = length vs;
            byte_count = length vs * 2;
            reg_values = vs;
          }))
unfolding decode_function_data read_values put_uint16_array word_at
decode_function_data-request address lrc vs h l a =
    let e : address / 256 % 256 * 256 + address % 256 ≡ address = omega arith in
    let f : length vs / 256 % 256 * 256 + length vs % 256 ≡ length vs = omega arith in
    rw
      (
        ltb-false (length (request address lrc vs).payload) 5 (omega arith),
        e,
        f,
        (==_iff (length vs * 2 % 2 ^ 16) (length vs * 2)).1 (omega arith),
        (==_iff (length (put_uint16_array vs)) (length vs * 2)).1 (length-put_uint16_array vs),
        values_loop-finds 0 vs [] refl a,
      )
      refl

word_at-short : (d : List ℕ) (i : ℕ) → length d < i + 2 → word_at d i ≡ none
unfolding word_at
word_at-short [] i h = refl
word_at-short (x ∷ []) zero h = refl
word_at-short (x ∷ []) (suc i) h = refl
word_at-short (x ∷ y ∷ d) zero h = absurd (omega arith)
word_at-short (x ∷ y ∷ d) (suc i) h = word_at-short (y ∷ d) i (omega arith)

bind_none :
    {A B : Type 0} (o : Option A) (f : A → Option B) → ((a : A) → f a ≡ none) → (o >>= f) ≡ none
bind_none none f h = refl
bind_none (some a) f h = h a

-- Where the loop asks for more words than there are, it panics.
values_loop-short :
    (d : List ℕ) (i n : ℕ) → length d < (i + n) * 2 → 0 < n → values_loop d i n ≡ none
unfolding values_loop
values_loop-short d i zero h p = absurd (omega arith)
values_loop-short d i (suc zero) h p = rw (word_at-short d (i * 2) (omega arith)) refl
values_loop-short d i (suc (suc n)) h p =
    rw (values_loop-short d (suc i) (suc n) (omega arith) (omega arith))
      (bind_none (word_at d (i * 2)) _ (λ v. refl))

-- A request to write 32768 or more words whose byte count is twice that count modulo 2^16, and
-- that carries that many bytes, passes the checks of `DecodeFunctionData` and makes it panic.
pub decode_function_data-panics :
    (address count lrc : ℕ) (values ending : List ℕ)
    → 32768 ≤ count
    → count < 2 ^ 16
    → length values ≡ count * 2 % 2 ^ 16
    → decode_function_data (record {
      address = 1;
      function_code = 16;
      payload = put_uint16_array (address ∷ count ∷ []) ++ ((count * 2 % 2 ^ 16) ∷ values);
      lrc = lrc;
      ending = ending;
    })
      ≡ none
unfolding decode_function_data read_values put_uint16_array word_at
decode_function_data-panics address count lrc values ending h l e =
    let f : count / 256 % 256 * 256 + count % 256 ≡ count = omega arith in
    rw
      (
        ltb-false (suc (suc (suc (suc (suc (length values)))))) 5 (omega arith),
        f,
        ==-refl (count * 2 % 2 ^ 16),
        (==_iff (length values) (count * 2 % 2 ^ 16)).1 e,
        values_loop-short values 0 count (omega (arith, e)) (omega arith),
      )
      refl
