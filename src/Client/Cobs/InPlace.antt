-- ===== src/Client/Cobs/InPlace.antt =====
-- client/cobs-wrapper.go: decoding over the input agrees with decoding into a list of its own.
use mathlib.Core.List.{cons-ne-nil}
use simpleiot.Prelude.{
  ℕ, zero, suc, ◌+◌, ◌%◌, ◌<◌, ◌≡◌, refl, sym, ap, ◌∙◌, false, List, [], ◌∷◌, ◌++◌, Option, none,
  some, leb, ◌==◌, if◌then◌else◌, length, get_or, set, take, drop, Bool-cases, inl, inr, arith,
}
use simpleiot.Prelude.Options.{◌>>=◌}
use simpleiot.Client.Cobs.{
  Decoded, done, decode_error, not_enough_data, Scan, scan, find_start, cobs_decode_inplace,
}

-- The decoder of the format: `off` is the length of the block, `i_off` the place in it. A block of
-- less than 255 stands for its bytes and a zero, and the zero byte ends the frame.
abbrev pub block : ℕ → ℕ → List ℕ → Option (List ℕ)
block off i_off [] = some []
block off i_off (c ∷ cs) =
    let k = (i_off + 1) % 256 in
    if k == off
    then (if c == 0
        then some []
        else if off == 255
        then block c 0 cs
        else (block c 0 cs >>= λ ys. some (0 ∷ ys)))
    else if c == 0
    then none
    else (block off k cs >>= λ ys. some (c ∷ ys))

abbrev pub frame : List ℕ → Option (List ℕ)
frame [] = some []
frame (c ∷ cs) = if c == 0 then frame cs else block c 0 cs

-- The buffer's first bytes are what came before and what the decoder gives, or both have failed.
abbrev pub Agrees : List ℕ → Decoded → Option (List ℕ) → Type 0
Agrees front (done n b) (some ys) = take n b ≡ front ++ ys
Agrees front decode_error none = Unit
Agrees front (done n b) none = ⊥
Agrees front decode_error (some ys) = ⊥
Agrees front not_enough_data o = ⊥

append_nil : (xs : List ℕ) → xs ++ [] ≡ xs
append_nil [] = refl
append_nil (x ∷ xs) = ap (λ l. x ∷ l) (append_nil xs)

append_one : (xs : List ℕ) (c : ℕ) (ys : List ℕ) → (xs ++ (c ∷ [])) ++ ys ≡ xs ++ (c ∷ ys)
append_one [] c ys = refl
append_one (x ∷ xs) c ys = ap (λ l. x ∷ l) (append_one xs c ys)

Agrees-cons :
    (front : List ℕ) (c : ℕ) (d : Decoded) (o : Option (List ℕ))
    → Agrees (front ++ (c ∷ [])) d o
    → Agrees front d (o >>= λ ys. some (c ∷ ys))
Agrees-cons front c (done n b) (some ys) h = h ∙ append_one front c ys
Agrees-cons front c (done n b) none h = h
Agrees-cons front c decode_error (some ys) h = h
Agrees-cons front c decode_error none h = h
Agrees-cons front c not_enough_data o h = absurd h

-- A write before the place that is read next
drop-set : (b : List ℕ) (j k v : ℕ) → k < j → drop j (set b k v) ≡ drop j b
drop-set b zero k v h = absurd (omega arith)
drop-set [] (suc j) k v h = refl
drop-set (x ∷ b) (suc j) zero v h = refl
drop-set (x ∷ b) (suc j) (suc k) v h = drop-set b j k v (omega arith)

take-set : (b : List ℕ) (k v : ℕ) → k < length b → take (suc k) (set b k v) ≡ take k b ++ (v ∷ [])
take-set [] k v h = absurd (omega arith)
take-set (x ∷ b) zero v h = refl
take-set (x ∷ b) (suc k) v h = ap (λ l. x ∷ l) (take-set b k v (omega arith))

drop_next :
    (b : List ℕ) (i c : ℕ) (cs : List ℕ)
    → drop i b ≡ c ∷ cs
    → (get_or b i 0 ≡ c) × (drop (suc i) b ≡ cs) × (i < length b)
drop_next [] zero c cs e = absurd (cons-ne-nil c cs (sym e))
drop_next [] (suc i) c cs e = absurd (cons-ne-nil c cs (sym e))
drop_next (x ∷ b) zero c cs e = (ap (λ l. get_or l 0 0) e, ap (drop 1) e, omega arith)
drop_next (x ∷ b) (suc i) c cs e = let (p, q, l) = drop_next b i c cs e in (p, q, omega arith)

-- What the loop holds at `i`: the rest of the input is still there.
record Reads (s : Scan) (i : ℕ) (front rest : List ℕ) : Type 0 where
  ahead : s.i_out < i
  unread : drop i s.buffer ≡ rest
  so_far : take s.i_out s.buffer ≡ front

-- After a byte has been written and one has been read
Reads-put :
    (s : Scan) (i v off i_off c : ℕ) (front cs : List ℕ)
    → Reads s i front (c ∷ cs)
    → Reads
        (record { buffer = set s.buffer s.i_out v; i_out = s.i_out + 1; off = off; i_off = i_off })
        (suc i)
        (front ++ (v ∷ []))
        cs
Reads-put s i v off i_off c front cs r =
    let (g, u, l) = drop_next s.buffer i c cs r.unread in
    let e : s.i_out + 1 ≡ suc s.i_out = omega arith in
    record {
      ahead = omega (arith, r.ahead);
      unread = drop-set s.buffer (suc i) s.i_out v (omega (arith, r.ahead)) ∙ u;
      so_far =
          ap (λ (n : ℕ). take n (set s.buffer s.i_out v)) e
          ∙ take-set s.buffer s.i_out v (omega (arith, r.ahead))
          ∙ ap (λ xs. xs ++ (v ∷ [])) r.so_far;
    }

scan_lem :
    (s : Scan) (i : ℕ) (front rest : List ℕ)
    → Reads s i front rest
    → Agrees front (scan (length rest) i s) (block s.off s.i_off rest)
unfolding scan
scan_lem s i front [] r = r.so_far ∙ sym (append_nil front)
scan_lem s i front (c ∷ cs) r =
    let (g, u, l) = drop_next s.buffer i c cs r.unread in
    rw g (elim (Bool-cases ((s.i_off + 1) % 256 == s.off)) [
      | inl t ↦ elim (Bool-cases (c == 0)) [
        | inl z ↦ rw (t, z) (r.so_far ∙ sym (append_nil front))
        | inr z ↦ elim (Bool-cases (s.off == 255)) [
          | inl w ↦
              rw (t, z, w)
                (scan_lem (record s { off = c; i_off = 0 }) (suc i) front cs
                  (record { ahead = omega (arith, r.ahead); unread = u; so_far = r.so_far }))
          | inr w ↦
              rw (t, z, w)
                (Agrees-cons front 0 _ _ (
                  scan_lem
                    (record {
                      buffer = set s.buffer s.i_out 0;
                      i_out = s.i_out + 1;
                      off = c;
                      i_off = 0;
                    })
                    (suc i) (front ++ (0 ∷ [])) cs (Reads-put s i 0 c 0 c front cs r)))
        ]
      ]
      | inr t ↦ elim (Bool-cases (c == 0)) [
        | inl z ↦ rw (t, z) tt
        | inr z ↦
            rw (t, z)
              (Agrees-cons front c _ _ (
                scan_lem
                  (record {
                    buffer = set s.buffer s.i_out c;
                    i_out = s.i_out + 1;
                    off = s.off;
                    i_off = (s.i_off + 1) % 256;
                  })
                  (suc i) (front ++ (c ∷ [])) cs
                  (Reads-put s i c s.off ((s.i_off + 1) % 256) c front cs r)))
      ]
    ])

start_lem :
    (b : List ℕ) (i : ℕ) (rest : List ℕ)
    → drop i b ≡ rest
    → Agrees [] (find_start (length rest) i b) (frame rest)
unfolding find_start
start_lem b i [] e = refl
start_lem b i (c ∷ cs) e =
    let (g, u, l) = drop_next b i c cs e in
    rw g (elim (Bool-cases (c == 0)) [
      | inl z ↦ rw z (start_lem b (suc i) cs u)
      | inr z ↦ rw z (
          scan_lem (record { buffer = b; i_out = 0; off = c; i_off = 0 }) (suc i) [] cs
            (record { ahead = omega arith; unread = u; so_far = refl }))
    ])

-- On more than two bytes `cobsDecodeInplace`, which writes its output into the buffer that it is
-- still reading, agrees with a decoder that has its input and output apart: both fail, or the
-- bytes left at the front of the buffer are that decoder's output.
pub cobs_decode_inplace-Agrees :
    (b : List ℕ) → 2 < length b → Agrees [] (cobs_decode_inplace b) (frame b)
unfolding cobs_decode_inplace
cobs_decode_inplace-Agrees b h =
    let f : leb (length b) 2 ≡ false = ground arith in rw f (start_lem b 0 b refl)
