-- ===== src/Modbus/Regs/Added.antt =====
-- modbus/reg.go: what `AddReg` adds and what it leaves.
use simpleiot.Prelude.{
  ℕ, zero, suc, ◌+◌, ◌%◌, ◌^◌, ◌<◌, ◌≤◌, ◌≡◌, refl, sym, ap, ◌∙◌, Bool, true, false, List, [], ◌∷◌,
  ◌++◌, none, ◌==◌, ==_iff, Bool-cases, inl, inr, if◌then◌else◌, arith,
}
use simpleiot.Modbus.Regs.{Reg, has_reg, add_reg, add_reg_loop, read_reg}

-- A later list serves an address as an earlier one does.
abbrev Keeps : List Reg → List Reg → ℕ → Type 0
Keeps regs more b = (has_reg more b ≡ true) × (read_reg more b ≡ read_reg regs b)

Keeps-append : (regs more : List Reg) (b : ℕ) → has_reg regs b ≡ true → Keeps regs (regs ++ more) b
unfolding has_reg read_reg
Keeps-append [] more b h = cc h
Keeps-append (reg ∷ regs) more b h =
    first (reg.address == b % 2 ^ 16) refl h (Keeps-append regs more b)
  where
    first :
        (t : Bool)
        → (reg.address == b % 2 ^ 16) ≡ t
        → (if t then true else has_reg regs b) ≡ true
        → (has_reg regs b ≡ true → Keeps regs (regs ++ more) b)
        → Keeps (reg ∷ regs) (reg ∷ (regs ++ more)) b
    first true e k rest = rw e (refl, refl)
    first false e k rest = rw e (rest k)

has_reg-new :
    (regs : List Reg) (a : ℕ) (reg : Reg)
    → reg.address ≡ a % 2 ^ 16
    → has_reg (regs ++ (reg ∷ [])) a ≡ true
unfolding has_reg
has_reg-new [] a reg e = rw ((==_iff reg.address (a % 2 ^ 16)).1 e) refl
has_reg-new (r ∷ regs) a reg e = elim (Bool-cases (r.address == a % 2 ^ 16)) [
  | inl t ↦ rw t refl
  | inr f ↦ rw f (has_reg-new regs a reg e)
]

-- One round of the loop
abbrev next : List Reg → ℕ → List Reg
next regs a =
    if has_reg regs a
    then regs
    else regs ++ (record { address = a % 2 ^ 16; value = 0; validate = none } ∷ [])

Keeps-next : (regs : List Reg) (a b : ℕ) → has_reg regs b ≡ true → Keeps regs (next regs a) b
Keeps-next regs a b h = elim (Bool-cases (has_reg regs a)) [
  | inl t ↦ rw t (h, refl)
  | inr f ↦ rw f (Keeps-append regs _ b h)
]

has_reg-next : (regs : List Reg) (a : ℕ) → has_reg (next regs a) a ≡ true
has_reg-next regs a = elim (Bool-cases (has_reg regs a)) [
  | inl t ↦ rw t t
  | inr f ↦ rw f (has_reg-new regs a _ refl)
]

Keeps-loop :
    (regs : List Reg) (address i n b : ℕ)
    → has_reg regs b ≡ true
    → Keeps regs (add_reg_loop regs address i n) b
unfolding add_reg_loop
Keeps-loop regs address i zero b h = (h, refl)
Keeps-loop regs address i (suc n) b h =
    let (k, e) = Keeps-next regs (address + i) b h in
    let (m, f) = Keeps-loop (next regs (address + i)) address (suc i) n b k in (m, f ∙ e)

has_reg-loop :
    (regs : List Reg) (address i n j : ℕ)
    → i ≤ j
    → j < i + n
    → has_reg (add_reg_loop regs address i n) (address + j) ≡ true
unfolding add_reg_loop
has_reg-loop regs address i zero j l h = absurd (omega arith)
has_reg-loop regs address i (suc n) j l h = elim (Bool-cases (i == j)) [
  | inl t ↦
      let e : i ≡ j = (==_iff i j).0 t in
      (Keeps-loop (next regs (address + i)) address (suc i) n (address + j) (
        ap (λ (x : ℕ). has_reg (next regs (address + i)) (address + x)) (sym e)
        ∙ has_reg-next regs (address + i))).0
  | inr f ↦ has_reg-loop (next regs (address + i)) address (suc i) n j (later i j l f) (omega arith)
]
  where
    later : (i j : ℕ) → i ≤ j → (i == j) ≡ false → suc i ≤ j
    later i j l f = ground arith

-- After `AddReg` every one of the `count` addresses has a register, and an address that had one
-- before reads as it did.
has_reg-add_reg :
    (regs : List Reg) (address count i b : ℕ)
    → i < count
    → has_reg regs b ≡ true
    → (has_reg (add_reg regs address count) (address + i) ≡ true)
      × (read_reg (add_reg regs address count) b ≡ read_reg regs b)
unfolding add_reg
has_reg-add_reg regs address count i b h k = (
  has_reg-loop regs address 0 count i (omega arith) (omega arith),
  (Keeps-loop regs address 0 count b k).1,
)
