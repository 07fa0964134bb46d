-- ===== src/Client/Cobs.antt =====
-- client/cobs-wrapper.go: `cobsDecodeInplace`, which writes its output over its input.
pub mod InPlace
use simpleiot.Prelude.{
  ℕ, zero, suc, ◌+◌, ◌%◌, Bool, true, false, List, [], ◌∷◌, leb, ◌==◌, if◌then◌else◌, length,
  get_or, set,
}

-- The length and the buffer that are left, or one of the errors
pub data Decoded : Type 0 where
  done : ℕ → List ℕ → Decoded
  decode_error : Decoded
  not_enough_data : Decoded

-- The variables of the loop, without `iIn`
pub record Scan : Type 0 where
  pub buffer : List ℕ
  pub i_out : ℕ
  pub off : ℕ
  pub i_off : ℕ

pub data Step : Type 0 where
  finished : Decoded → Step
  more : Scan → Step

-- One round of the loop with the byte `c`, after the start was found; `iOff` is a uint8.
unfoldable pub scan_step : Scan → ℕ → Step
scan_step s c =
    let k = (s.i_off + 1) % 256 in
    if k == s.off
    then (if c == 0
        then finished (done s.i_out s.buffer)
        else if s.off == 255
        then more (record s { off = c; i_off = 0 })
        else more
            (record { buffer = set s.buffer s.i_out 0; i_out = s.i_out + 1; off = c; i_off = 0 }))
    else if c == 0
    then finished decode_error
    else more (record s { buffer = set s.buffer s.i_out c; i_out = s.i_out + 1; i_off = k })

unfoldable pub on_step : Step → (Scan → Decoded) → Decoded
on_step (finished d) f = d
on_step (more s) f = f s

-- The loop from `iIn` on, with `n` bytes to go
unfoldable pub scan : ℕ → ℕ → Scan → Decoded
unfolding scan_step on_step
scan zero i s = done s.i_out s.buffer
scan (suc n) i s = on_step (scan_step s (get_or s.buffer i 0)) (scan n (suc i))

-- The loop while `foundStart` is false
unfoldable pub find_start : ℕ → ℕ → List ℕ → Decoded
unfolding scan
find_start zero i b = done 0 b
find_start (suc n) i b =
    let c = get_or b i 0 in
    let rest = find_start n (suc i) b in
    if c == 0 then rest else scan n (suc i) (record { buffer = b; i_out = 0; off = c; i_off = 0 })

-- `cobsDecodeInplace`
unfoldable pub cobs_decode_inplace : List ℕ → Decoded
unfolding find_start
cobs_decode_inplace b = if leb (length b) 2 then not_enough_data else find_start (length b) 0 b
