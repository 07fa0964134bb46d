-- ===== src/Prelude/Options.antt =====
-- Results that may be missing, chained by `do` blocks.
use Prim.Native.Nat.{ℕ, zero, suc, ◌<◌}
use mathlib.Core.Path.{◌≡◌, refl, ap, ◌∙◌}
use mathlib.Core.List.{List, [], ◌∷◌}
use mathlib.Core.Logic.{◌⊎◌, inl, inr}
use mathlib.Core.Bool.{Bool, true, false}
use simpleiot.Prelude.Tests.{if◌then◌else◌}
use native.Mathlib.Omega.{arith}
use simpleiot.Prelude.Lists.{length, get_elem?}
use mathlib.Core.Option.{Option, none, some}

infixl 5 ◌>>=◌
abbrev pub ◌>>=◌ {ℓ κ} : {A : Type ℓ} {B : Type κ} → Option A → (A → Option B) → Option B
none >>= f = none
some a >>= f = f a

-- The computation returns.
abbrev pub Returns {ℓ} : {A : Type ℓ} → Option A → Type ℓ
Returns {A = A} o = (a : A) × o ≡ some a

pub bind-Returns {ℓ κ} :
    {A : Type ℓ} {B : Type κ} (o : Option A) (f : A → Option B)
    → Returns o
    → ((a : A) → o ≡ some a → Returns (f a))
    → Returns (o >>= f)
bind-Returns o f (a, e) h = let (b, k) = h a e in (b, ap (λ o. o >>= f) e ∙ k)

pub get_elem?-Returns {ℓ} :
    {A : Type ℓ} (xs : List A) (i : ℕ) → i < length xs → Returns (get_elem? xs i)
get_elem?-Returns [] i h = absurd (omega arith)
get_elem?-Returns (x ∷ xs) zero h = (x, refl)
get_elem?-Returns (x ∷ xs) (suc i) h = get_elem?-Returns xs i (omega arith)

pub Option-cases {ℓ} : {A : Type ℓ} (o : Option A) → (o ≡ none) ⊎ ((a : A) × (o ≡ some a))
Option-cases none = inl refl
Option-cases (some a) = inr (a, refl)

-- The computation returns, and what it returns has the property.
abbrev pub Ensures {ℓ} : {A : Type ℓ} → (A → Type 0) → Option A → Type 0
Ensures P none = ⊥
Ensures P (some a) = P a

pub bind-Ensures {ℓ κ} :
    {A : Type ℓ} {B : Type κ} (P : A → Type 0) (Q : B → Type 0) (o : Option A) (f : A → Option B)
    → Ensures P o
    → ((a : A) → P a → Ensures Q (f a))
    → Ensures Q (o >>= f)
bind-Ensures P Q none f h k = absurd h
bind-Ensures P Q (some a) f h k = k a h

-- A property of both branches is one of the conditional.
pub if_Ensures {ℓ} :
    {A : Type ℓ} (P : A → Type 0) (b : Bool) (o q : Option A)
    → Ensures P o
    → Ensures P q
    → Ensures P (if b then o else q)
if_Ensures P true o q h k = h
if_Ensures P false o q h k = k

pub Ensures-Returns {ℓ} :
    {A : Type ℓ} (P : A → Type 0) (o : Option A) → Ensures P o → (a : A) × (o ≡ some a) × P a
Ensures-Returns P none h = absurd h
Ensures-Returns P (some a) h = (a, refl, h)

-- If the computation returns, what it returns has the property.
abbrev pub Whenever {ℓ} : {A : Type ℓ} → (A → Type 0) → Option A → Type 0
Whenever P none = Unit
Whenever P (some a) = P a

pub bind-Whenever {ℓ} :
    {A : Type ℓ} {B : Type ℓ} (P : A → Type 0) (Q : B → Type 0) (o : Option A) (f : A → Option B)
    → Whenever P o
    → ((a : A) → P a → Whenever Q (f a))
    → Whenever Q (o >>= f)
bind-Whenever P Q none f h k = tt
bind-Whenever P Q (some a) f h k = k a h

pub bind_any-Whenever {ℓ} :
    {A B : Type ℓ} (Q : B → Type 0) (o : Option A) (f : A → Option B)
    → ((a : A) → Whenever Q (f a))
    → Whenever Q (o >>= f)
bind_any-Whenever Q none f k = tt
bind_any-Whenever Q (some a) f k = k a

pub if_Whenever {ℓ} :
    {A : Type ℓ} (P : A → Type 0) (b : Bool) (o q : Option A)
    → Whenever P o
    → Whenever P q
    → Whenever P (if b then o else q)
if_Whenever P true o q h k = h
if_Whenever P false o q h k = k

pub Whenever-some {ℓ} :
    {A : Type ℓ} (P : A → Type 0) (o : Option A) (a : A) → o ≡ some a → Whenever P o → P a
Whenever-some P none a e h = cc
Whenever-some P (some b) a e h = rw (← e') h
  where
    e' : b ≡ a
    e' = cc
