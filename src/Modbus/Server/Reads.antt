-- ===== src/Modbus/Server/Reads.antt =====
-- modbus/pdu.go: registers that a client reads through `ProcessRequest` and `RespReadRegs`.
use simpleiot.Prelude.{
  ℕ, zero, suc, ◌+◌, ◌*◌, ◌/◌, ◌%◌, ◌^◌, ◌<◌, ◌≤◌, ◌≡◌, refl, sym, ap, ◌∙◌, false, List, [], ◌∷◌,
  ◌++◌, Option, some, ltb-false, length, replicate, arith, All, length-append,
}
use simpleiot.Prelude.Options.{◌>>=◌}
use simpleiot.Modbus.{Pdu, Try, got, word_at, put_word, put_uint16_array, min_request_len}
use simpleiot.Modbus.Server.{
  RegProvider, Answer, answer, read_words, store_word, set_first, process_read_words, read_reply,
  keep_state, process_request,
}
use simpleiot.Modbus.Server.Response.{
  reading, regs_loop, as_reading, resp_read_regs, read_holding_regs,
}

-- The provider's registers from an address on hold these words.
abbrev pub Holds : (ℕ → Try ℕ) → ℕ → ℕ → List ℕ → Type 0
Holds read address i [] = Unit
Holds read address i (v ∷ vs) = (read (address + i) ≡ got v) × Holds read address (suc i) vs

abbrev zeros : ℕ → List ℕ
zeros zero = []
zeros (suc n) = 0 ∷ 0 ∷ zeros n

replicate-double : (n : ℕ) → replicate (n * 2) 0 ≡ zeros n
replicate-double zero = refl
replicate-double (suc n) =
    ap (λ (k : ℕ). replicate k 0) double_suc ∙ ap (λ ys. 0 ∷ 0 ∷ ys) (replicate-double n)
  where
    double_suc : suc n * 2 ≡ suc (suc (n * 2))
    double_suc = omega arith

-- A word put behind `xs`, where zeros stand
put_word-append :
    (xs : List ℕ) (v : ℕ) (ys : List ℕ)
    → put_word (xs ++ (0 ∷ 0 ∷ ys)) (length xs) v ≡ some (xs ++ ((v / 256 % 256) ∷ (v % 256) ∷ ys))
unfolding put_word
put_word-append [] v ys = refl
put_word-append (x ∷ []) v ys = refl
put_word-append (x ∷ y ∷ xs) v ys =
    ap (λ o. o >>= λ ys. some (x ∷ ys)) (put_word-append (y ∷ xs) v ys)

pub append_assoc : (xs ys zs : List ℕ) → (xs ++ ys) ++ zs ≡ xs ++ (ys ++ zs)
append_assoc [] ys zs = refl
append_assoc (x ∷ xs) ys zs = ap (λ l. x ∷ l) (append_assoc xs ys zs)

-- The loop fills the zeros with the words, high byte first.
read_words-fills :
    (read : ℕ → Try ℕ) (address i : ℕ) (vs xs : List ℕ)
    → length xs ≡ 1 + i * 2
    → Holds read address i vs
    → read_words read address i (length vs) (xs ++ zeros (length vs))
      ≡ some (got (xs ++ put_uint16_array vs))
unfolding read_words store_word put_uint16_array
read_words-fills read address i [] xs l h = refl
read_words-fills read address i (v ∷ vs) xs l (h, hs) = rw h (
    ap (λ o. o >>= read_words read address (suc i) (length vs))
      (ap (λ (n : ℕ). put_word (xs ++ (0 ∷ 0 ∷ zeros (length vs))) n v) (sym l)
        ∙ put_word-append xs v (zeros (length vs)))
    ∙ ap (λ ys. read_words read address (suc i) (length vs) ys)
        (sym (append_assoc xs two (zeros (length vs))))
    ∙ read_words-fills read address (suc i) vs (xs ++ two) (omega (arith, length-append xs two, l))
        hs
    ∙ ap (λ ys. some (got ys)) (append_assoc xs two (put_uint16_array vs)))
  where
    two : List ℕ
    two = (v / 256 % 256) ∷ (v % 256) ∷ []

pub word_at-append :
    (xs : List ℕ) (v : ℕ) (ys : List ℕ)
    → v < 2 ^ 16
    → word_at (xs ++ ((v / 256 % 256) ∷ (v % 256) ∷ ys)) (length xs) ≡ some v
unfolding word_at
word_at-append [] v ys h = ap some (omega arith)
word_at-append (x ∷ []) v ys h = ap some (omega arith)
word_at-append (x ∷ y ∷ xs) v ys h = word_at-append (y ∷ xs) v ys h

-- The client's loop finds them again.
regs_loop-finds :
    (i : ℕ) (vs xs : List ℕ)
    → length xs ≡ 1 + i * 2
    → All (λ v. v < 2 ^ 16) vs
    → regs_loop (xs ++ put_uint16_array vs) i (length vs) ≡ some vs
unfolding regs_loop put_uint16_array
regs_loop-finds i [] xs l a = refl
regs_loop-finds i (v ∷ vs) xs l (h, a) =
    rw
      (ap (λ (n : ℕ). word_at (xs ++ (two ++ put_uint16_array vs)) n) (sym l)
        ∙ word_at-append xs v (put_uint16_array vs) h)
      (ap (λ o. o >>= λ rest. some (v ∷ rest))
        (ap (λ ys. regs_loop ys (suc i) (length vs))
            (sym (append_assoc xs two (put_uint16_array vs)))
          ∙ regs_loop-finds (suc i) vs (xs ++ two) (omega (arith, length-append xs two, l)) a))
  where
    two : List ℕ
    two = (v / 256 % 256) ∷ (v % 256) ∷ []

pub length-put_uint16_array : (vs : List ℕ) → length (put_uint16_array vs) ≡ length vs * 2
unfolding put_uint16_array
length-put_uint16_array [] = refl
length-put_uint16_array (v ∷ vs) = omega (arith, length-put_uint16_array vs)

module _ {S : Type 0} (regs : RegProvider S) (s : S) (address : ℕ) (vs : List ℕ) where
  abbrev pub response : Pdu
  response = record { function_code = 3; payload = (length vs * 2) ∷ put_uint16_array vs }

  abbrev finish : Option (Try (List ℕ)) → Option (S × Answer)
  finish o = (o >>= λ result. some (read_reply 3 result)) >>= λ r. some (s, r)

  pub process_lem :
      address < 2 ^ 16
      → length vs ≤ 127
      → Holds (regs.provide_reg s) address 0 vs
      → process_request regs (read_holding_regs address (length vs)) s
        ≡ some (s, answer false response)
  unfolding process_request min_request_len process_read_words put_uint16_array word_at set_first
      keep_state read_reply
  process_lem h l holds =
      let e : address / 256 % 256 * 256 + address % 256 ≡ address = omega arith in
      let f : length vs / 256 % 256 * 256 + length vs % 256 ≡ length vs = omega arith in
      let g : (1 + 2 * length vs) % 2 ^ 16 ≡ suc (length vs * 2) = omega arith in
      let k : length vs * 2 % 256 ≡ length vs * 2 = omega arith in
      rw (e, f, g, k)
        (ap
            (λ ys.
              finish (read_words (regs.provide_reg s) address 0 (length vs) ((length vs * 2) ∷ ys)))
            (replicate-double (length vs))
          ∙ ap finish (
              read_words-fills (regs.provide_reg s) address 0 vs ((length vs * 2) ∷ []) refl holds))

  pub client_lem :
      0 < length vs → All (λ v. v < 2 ^ 16) vs → resp_read_regs response ≡ some (reading vs)
  unfolding resp_read_regs as_reading
  client_lem n a =
      let c : length vs * 2 / 2 ≡ length vs = omega arith in
      rw
        (
          ltb-false (length response.payload) 2 (omega (arith, length-put_uint16_array vs)),
          c,
          ltb-false (length response.payload) (1 + length vs * 2)
              (omega (arith, length-put_uint16_array vs)),
          regs_loop-finds 0 vs ((length vs * 2) ∷ []) refl a,
        )
        refl

  -- A request for 1 to 127 holding registers that the provider has is answered, with no change of
  -- the registers, by a response in which the client reads exactly their values, in order.
  pub resp_read_regs-process_request :
      address < 2 ^ 16
      → 0 < length vs
      → length vs ≤ 127
      → All (λ v. v < 2 ^ 16) vs
      → Holds (regs.provide_reg s) address 0 vs
      → (p : Pdu) × (process_request regs (read_holding_regs address (length vs)) s
          ≡ some (s, answer false p))
        × (resp_read_regs p ≡ some (reading vs))
  resp_read_regs-process_request h n l a holds = (response, process_lem h l holds, client_lem n a)
