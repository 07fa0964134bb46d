-- ===== src/Modbus/Server/Indices.antt =====
-- modbus/pdu.go: the loops of `ProcessRequest` stay within the slices that they read and write.
use simpleiot.Prelude.{
  ℕ, zero, suc, ◌+◌, ◌*◌, ◌/◌, ◌%◌, ◌^◌, ◌<◌, ◌≡◌, refl, ap, ◌∙◌, Bool, true, false, List, [], ◌∷◌,
  Option, none, some, ◌==◌, length, get_elem?, arith,
}
use simpleiot.Prelude.Options.{◌>>=◌, Returns, bind-Returns, get_elem?-Returns}
use simpleiot.Modbus.{Try, got, failed, ModbusError, word_at, put_word}
use simpleiot.Modbus.Server.{
  RegProvider, or_byte, store_bit, store_word, read_bits, read_words, go_on, write_coils,
  write_words,
}

pub word_at-Returns : (d : List ℕ) (i : ℕ) → i + 1 < length d → Returns (word_at d i)
unfolding word_at
word_at-Returns [] i h = absurd (omega arith)
word_at-Returns (x ∷ []) zero h = absurd (omega arith)
word_at-Returns (x ∷ []) (suc i) h = absurd (omega arith)
word_at-Returns (x ∷ y ∷ d) zero h = (_, refl)
word_at-Returns (x ∷ y ∷ d) (suc i) h = word_at-Returns (y ∷ d) i (omega arith)

-- The address and the second word of a request that is long enough.
pub header-Returns :
    {A : Type 0} (d : List ℕ) (f : ℕ → ℕ → Option A)
    → 3 < length d
    → ((a c : ℕ) → word_at d 2 ≡ some c → Returns (f a c))
    → Returns (word_at d 0 >>= λ a. word_at d 2 >>= λ c. f a c)
header-Returns d f h k =
    bind-Returns (word_at d 0) _ (word_at-Returns d 0 (omega arith))
      (λ a _. bind-Returns (word_at d 2) _ (word_at-Returns d 2 (omega arith)) (λ c e. k a c e))

-- The length of the response does not change, so every index stays in range.
or_byte-Returns :
    (xs : List ℕ) (i m : ℕ)
    → i < length xs
    → (ys : List ℕ) × (or_byte xs i m ≡ some ys) × (length ys ≡ length xs)
unfolding or_byte
or_byte-Returns [] i m h = absurd (omega arith)
or_byte-Returns (x ∷ xs) zero m h = (_, refl, refl)
or_byte-Returns (x ∷ xs) (suc i) m h =
    let (ys, e, l) = or_byte-Returns xs i m (omega arith) in
    (x ∷ ys, ap (λ o. o >>= λ ys. some (x ∷ ys)) e, ap suc l)

put_word-Returns :
    (xs : List ℕ) (i v : ℕ)
    → i + 1 < length xs
    → (ys : List ℕ) × (put_word xs i v ≡ some ys) × (length ys ≡ length xs)
unfolding put_word
put_word-Returns [] i v h = absurd (omega arith)
put_word-Returns (x ∷ []) zero v h = absurd (omega arith)
put_word-Returns (x ∷ []) (suc i) v h = absurd (omega arith)
put_word-Returns (x ∷ y ∷ xs) zero v h = (_, refl, refl)
put_word-Returns (x ∷ y ∷ xs) (suc i) v h =
    let (ys, e, l) = put_word-Returns (y ∷ xs) i v (omega arith) in
    (x ∷ ys, ap (λ o. o >>= λ ys. some (x ∷ ys)) e, ap suc l)

store_bit-Returns :
    (r : Try Bool) (resp : List ℕ) (i : ℕ) (next : List ℕ → Option (Try (List ℕ)))
    → i / 8 + 1 < length resp
    → ((ys : List ℕ) → length ys ≡ length resp → Returns (next ys))
    → Returns (store_bit r resp i next)
unfolding store_bit
store_bit-Returns (failed e) resp i next h k = (_, refl)
store_bit-Returns (got false) resp i next h k = k resp refl
store_bit-Returns (got true) resp i next h k =
    let (ys, e, l) = or_byte-Returns resp (1 + i / 8) (2 ^ (i % 8)) (omega arith) in
    let (r, q) = k ys l in (r, ap (λ o. o >>= next) e ∙ q)

pub read_bits-Returns :
    (read : ℕ → Try Bool) (address i n : ℕ) (resp : List ℕ)
    → (i + n + 7) / 8 < length resp
    → Returns (read_bits read address i n resp)
unfolding read_bits
read_bits-Returns read address i zero resp h = (_, refl)
read_bits-Returns read address i (suc n) resp h =
    store_bit-Returns (read (address + i)) resp i _ (omega arith)
      (λ ys l. read_bits-Returns read address (suc i) n ys (omega (arith, l)))

store_word-Returns :
    (r : Try ℕ) (resp : List ℕ) (i : ℕ) (next : List ℕ → Option (Try (List ℕ)))
    → i * 2 + 2 < length resp
    → ((ys : List ℕ) → length ys ≡ length resp → Returns (next ys))
    → Returns (store_word r resp i next)
unfolding store_word
store_word-Returns (failed e) resp i next h k = (_, refl)
store_word-Returns (got v) resp i next h k =
    let (ys, e, l) = put_word-Returns resp (1 + i * 2) v (omega arith) in
    let (r, q) = k ys l in (r, ap (λ o. o >>= next) e ∙ q)

pub read_words-Returns :
    (read : ℕ → Try ℕ) (address i n : ℕ) (resp : List ℕ)
    → length resp ≡ 1 + (i + n) * 2
    → Returns (read_words read address i n resp)
unfolding read_words
read_words-Returns read address i zero resp h = (_, refl)
read_words-Returns read address i (suc n) resp h =
    store_word-Returns (read (address + i)) resp i _ (omega arith)
      (λ ys l. read_words-Returns read address (suc i) n ys (omega (arith, l)))

module _ {S : Type 0} (regs : RegProvider S) where
  pub go_on-Returns :
      (w : S × Option ModbusError) (next : S → Option (S × Option ModbusError))
      → ((s : S) → Returns (next s))
      → Returns (go_on regs w next)
  unfolding go_on
  go_on-Returns (s, none) next h = h s
  go_on-Returns (s, some e) next h = (_, refl)

  pub write_coils-Returns :
      (d : List ℕ) (address i n : ℕ) (s : S)
      → length d ≡ 5 + (i + n + 7) / 8
      → Returns (write_coils regs d address i n s)
  unfolding write_coils
  write_coils-Returns d address i zero s h = (_, refl)
  write_coils-Returns d address i (suc n) s h =
      bind-Returns (get_elem? d (5 + i / 8)) _ (get_elem?-Returns d (5 + i / 8) (omega arith))
        (λ b _.
          go_on-Returns (regs.put_coil s (address + i) (b / 2 ^ (i % 8) % 2 == 1))
            (write_coils regs d address (suc i) n)
            (λ t. write_coils-Returns d address (suc i) n t (omega arith)))

  pub write_words-Returns :
      (d : List ℕ) (address i n : ℕ) (s : S)
      → length d ≡ 5 + (i + n) * 2
      → Returns (write_words regs d address i n s)
  unfolding write_words
  write_words-Returns d address i zero s h = (_, refl)
  write_words-Returns d address i (suc n) s h =
      bind-Returns (word_at d (5 + i * 2)) _ (word_at-Returns d (5 + i * 2) (omega arith)) (λ v _.
        go_on-Returns (regs.put_reg s (address + i) v) (write_words regs d address (suc i) n)
          (λ t. write_words-Returns d address (suc i) n t (omega arith)))
