-- ===== src/Modbus/Words.antt =====
-- modbus/data.go: registers joined to 32-bit values and back. A float32 is its IEEE bits, so
-- `math.Float32bits` and `math.Float32frombits` change nothing.
pub use simpleiot.Prelude.Int.{ℤ, pos, negsuc}
use simpleiot.Prelude.{
  ℕ, ◌+◌, ◌-◌, ◌*◌, ◌/◌, ◌%◌, ◌^◌, ◌<◌, ◌≡◌, refl, ap, ap₂, ◌∙◌, List, [], ◌∷◌, map, ltb, lt→ltb,
  ltb-false, if◌then◌else◌, arith, All,
}

-- `binary.BigEndian.Uint32` of four bytes
unfoldable pub be_uint32 : ℕ → ℕ → ℕ → ℕ → ℕ
be_uint32 a b c d = a * 2 ^ 24 + b * 2 ^ 16 + c * 2 ^ 8 + d

-- The two words that `binary.BigEndian.PutUint32` writes, each read by `Uint16`.
unfoldable pub high_word : ℕ → ℕ
high_word v = v / 2 ^ 24 % 256 * 256 + v / 2 ^ 16 % 256

unfoldable pub low_word : ℕ → ℕ
low_word v = v / 2 ^ 8 % 256 * 256 + v % 256

-- `buf` after the high and the low word have been put into it, read as one value.
unfoldable pub join_words : ℕ → ℕ → ℕ
unfolding be_uint32
join_words h l = be_uint32 (h / 256 % 256) (h % 256) (l / 256 % 256) (l % 256)

-- `RegsToUint32`; a last odd register is left out.
unfoldable pub regs_to_uint32 : List ℕ → List ℕ
regs_to_uint32 [] = []
regs_to_uint32 (a ∷ []) = []
regs_to_uint32 (a ∷ b ∷ rs) = join_words a b ∷ regs_to_uint32 rs

-- `RegsToUint32SwapWords`
unfoldable pub regs_to_uint32_swap_words : List ℕ → List ℕ
regs_to_uint32_swap_words [] = []
regs_to_uint32_swap_words (a ∷ []) = []
regs_to_uint32_swap_words (a ∷ b ∷ rs) = join_words b a ∷ regs_to_uint32_swap_words rs

-- `Uint32ToRegs`
unfoldable pub uint32_to_regs : List ℕ → List ℕ
uint32_to_regs [] = []
uint32_to_regs (v ∷ vs) = high_word v ∷ low_word v ∷ uint32_to_regs vs

-- `Uint32ToRegsSwapRegs`
unfoldable pub uint32_to_regs_swap_regs : List ℕ → List ℕ
uint32_to_regs_swap_regs [] = []
uint32_to_regs_swap_regs (v ∷ vs) = low_word v ∷ high_word v ∷ uint32_to_regs_swap_regs vs

-- Go's `int32(u)` of a uint32, `int16(u)` of a uint16 (`half` is 2^31 or 2^15), and `uint32(v)`
unfoldable pub to_signed : ℕ → ℕ → ℤ
to_signed half u = if ltb u half then pos u else negsuc (2 * half - 1 - u)

unfoldable pub to_uint32 : ℤ → ℕ
to_uint32 (pos n) = n % 2 ^ 32
to_uint32 (negsuc n) = 2 ^ 32 - 1 - n % 2 ^ 32

-- `RegsToInt16`
unfoldable pub regs_to_int16 : List ℕ → List ℤ
regs_to_int16 rs = map (to_signed (2 ^ 15)) rs

-- `RegsToInt32` and `RegsToInt32SwapWords`
unfoldable pub regs_to_int32 : List ℕ → List ℤ
regs_to_int32 rs = map (to_signed (2 ^ 31)) (regs_to_uint32 rs)

unfoldable pub regs_to_int32_swap_words : List ℕ → List ℤ
regs_to_int32_swap_words rs = map (to_signed (2 ^ 31)) (regs_to_uint32_swap_words rs)

-- `Int32ToRegs` and `Int32ToRegsSwapWords`
unfoldable pub int32_to_regs : List ℤ → List ℕ
int32_to_regs vs = uint32_to_regs (map to_uint32 vs)

unfoldable pub int32_to_regs_swap_words : List ℤ → List ℕ
int32_to_regs_swap_words vs = uint32_to_regs_swap_regs (map to_uint32 vs)

-- `RegsToFloat32`, `RegsToFloat32SwapWords`, `Float32ToRegs` and `Float32ToRegsSwapWords`
unfoldable pub regs_to_float32 : List ℕ → List ℕ
regs_to_float32 rs = regs_to_uint32 rs

unfoldable pub regs_to_float32_swap_words : List ℕ → List ℕ
regs_to_float32_swap_words rs = regs_to_uint32_swap_words rs

unfoldable pub float32_to_regs : List ℕ → List ℕ
float32_to_regs vs = uint32_to_regs vs

unfoldable pub float32_to_regs_swap_words : List ℕ → List ℕ
float32_to_regs_swap_words vs = uint32_to_regs_swap_regs vs

pub join-split : (v : ℕ) → v < 2 ^ 32 → join_words (high_word v) (low_word v) ≡ v
unfolding join_words high_word low_word be_uint32
join-split v h = omega arith

-- A list of uint32 values put into registers and read back in the same word order is the list, and
-- so are float32 values; the same holds with the words swapped on both sides.
pub regs_to_uint32-uint32_to_regs :
    (vs : List ℕ)
    → All (λ v. v < 2 ^ 32) vs
    → (regs_to_uint32 (uint32_to_regs vs) ≡ vs)
      × (regs_to_uint32_swap_words (uint32_to_regs_swap_regs vs) ≡ vs)
      × (regs_to_float32 (float32_to_regs vs) ≡ vs)
      × (regs_to_float32_swap_words (float32_to_regs_swap_words vs) ≡ vs)
unfolding regs_to_uint32 uint32_to_regs regs_to_uint32_swap_words uint32_to_regs_swap_regs
    regs_to_float32 float32_to_regs regs_to_float32_swap_words float32_to_regs_swap_words
regs_to_uint32-uint32_to_regs [] a = (refl, refl, refl, refl)
regs_to_uint32-uint32_to_regs (v ∷ vs) (h, a) =
    let (p, q, r, s) = regs_to_uint32-uint32_to_regs vs a in
    let e = join-split v h in
    (
      ap₂ (λ (x : ℕ) ys. x ∷ ys) e p,
      ap₂ (λ (x : ℕ) ys. x ∷ ys) e q,
      ap₂ (λ (x : ℕ) ys. x ∷ ys) e r,
      ap₂ (λ (x : ℕ) ys. x ∷ ys) e s,
    )

-- The values of an int32.
abbrev pub IsInt32 : ℤ → Type 0
IsInt32 (pos n) = n < 2 ^ 31
IsInt32 (negsuc n) = n < 2 ^ 31

to_signed-to_uint32 : (v : ℤ) → IsInt32 v → to_signed (2 ^ 31) (to_uint32 v) ≡ v
unfolding to_signed to_uint32
to_signed-to_uint32 (pos n) h =
    rw (lt→ltb (n % 2 ^ 32) (2 ^ 31) (omega arith)) (ap pos (omega arith))
to_signed-to_uint32 (negsuc n) h =
    rw (ltb-false (2 ^ 32 - 1 - n % 2 ^ 32) (2 ^ 31) (omega arith)) (ap negsuc (omega arith))

to_uint32-lt : (v : ℤ) → to_uint32 v < 2 ^ 32
unfolding to_uint32
to_uint32-lt (pos n) = omega arith
to_uint32-lt (negsuc n) = omega arith

All-uint32 : (vs : List ℤ) → All (λ v. v < 2 ^ 32) (map to_uint32 vs)
All-uint32 [] = tt
All-uint32 (v ∷ vs) = (to_uint32-lt v, All-uint32 vs)

signed_back : (vs : List ℤ) → All IsInt32 vs → map (to_signed (2 ^ 31)) (map to_uint32 vs) ≡ vs
signed_back [] a = refl
signed_back (v ∷ vs) (h, a) = ap₂ (λ x ys. x ∷ ys) (to_signed-to_uint32 v h) (signed_back vs a)

-- A list of int32 values put into registers and read back in the same word order is the list, its
-- negative values included.
regs_to_int32-int32_to_regs :
    (vs : List ℤ)
    → All IsInt32 vs
    → (regs_to_int32 (int32_to_regs vs) ≡ vs)
      × (regs_to_int32_swap_words (int32_to_regs_swap_words vs) ≡ vs)
unfolding regs_to_int32 int32_to_regs regs_to_int32_swap_words int32_to_regs_swap_words
regs_to_int32-int32_to_regs vs a =
    let (p, q, r, s) = regs_to_uint32-uint32_to_regs (map to_uint32 vs) (All-uint32 vs) in
    (
      ap (map (to_signed (2 ^ 31))) p ∙ signed_back vs a,
      ap (map (to_signed (2 ^ 31))) q ∙ signed_back vs a,
    )
