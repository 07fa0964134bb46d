-- ===== src/Prelude/Perms.antt =====
-- Predicates of all items, and of all pairs of items, of a list; permutations keep them.
use mathlib.Core.Path.{◌≡◌, ◌∙◌, sym, ap, subst}
use mathlib.Core.Logic.{◌≢◌}
use mathlib.Core.List.{List, [], ◌∷◌, Memᴰ, Permᴰ}
use simpleiot.Prelude.Lists.{All}

module _ {ℓ κ} {A : Type ℓ} (R : A → A → Type κ) where
  -- Every item is related to each one behind it.
  abbrev pub AllPairs : List A → Type κ
  AllPairs [] = Unit
  AllPairs (x ∷ xs) = All (R x) xs × AllPairs xs

module _ {ℓ κ} {A : Type ℓ} (P : A → Type κ) where
  pub All-perm : {xs ys : List A} → Permᴰ xs ys → All P xs → All P ys
  All-perm Permᴰ.nil h = h
  All-perm (Permᴰ.cons e p) h = (subst P e h.0, All-perm p h.1)
  All-perm (Permᴰ.swap e f) h = (subst P f h.1.0, (subst P e h.0, h.1.1))
  All-perm (Permᴰ.trans p q) h = All-perm q (All-perm p h)

  pub All-mem : (xs : List A) (a : A) → All P xs → Memᴰ a xs → P a
  All-mem [] a h m = elim m [ ]
  All-mem (x ∷ xs) a h (Memᴰ.head e) = subst P (sym e) h.0
  All-mem (x ∷ xs) a h (Memᴰ.tail m) = All-mem xs a h.1 m

  pub All-map {λ'} : {Q : A → Type λ'} → ((x : A) → P x → Q x) → (xs : List A) → All P xs → All Q xs
  All-map f [] h = tt
  All-map f (x ∷ xs) h = (f x h.0, All-map f xs h.1)

module _ {ℓ κ} {A : Type ℓ} (R : A → A → Type κ) (R_sym : (a b : A) → R a b → R b a) where
  All-along : {a b : A} (xs : List A) → a ≡ b → All (R a) xs → All (R b) xs
  All-along xs e h = subst (λ c. All (R c) xs) e h

  -- A symmetric relation of all pairs does not depend on the order.
  pub AllPairs-perm : {xs ys : List A} → Permᴰ xs ys → AllPairs R xs → AllPairs R ys
  AllPairs-perm Permᴰ.nil h = h
  AllPairs-perm (Permᴰ.cons {b = b} {l₂ = ys} e p) h =
      (All-along ys e (All-perm (R _) p h.0), AllPairs-perm p h.1)
  AllPairs-perm (Permᴰ.swap {a = a} {b = b} {a' = a'} {b' = b'} {l = l} e f) h = (
    (subst (λ c. R a' c) e (subst (λ c. R c a) f (R_sym a b h.0.0)), All-along l f h.1.0),
    (All-along l e h.0.1, h.1.1),
  )
  AllPairs-perm (Permᴰ.trans p q) h = AllPairs-perm q (AllPairs-perm p h)

module _ {ℓ} {A : Type ℓ} where
  pub mem-perm : {r : A} {xs ys : List A} → Permᴰ xs ys → Memᴰ r xs → Memᴰ r ys
  mem-perm Permᴰ.nil h = h
  mem-perm (Permᴰ.cons e p) (Memᴰ.head f) = Memᴰ.head (f ∙ e)
  mem-perm (Permᴰ.cons e p) (Memᴰ.tail h) = Memᴰ.tail (mem-perm p h)
  mem-perm (Permᴰ.swap e f) (Memᴰ.head g) = Memᴰ.tail (Memᴰ.head (g ∙ e))
  mem-perm (Permᴰ.swap e f) (Memᴰ.tail (Memᴰ.head g)) = Memᴰ.head (g ∙ f)
  mem-perm (Permᴰ.swap e f) (Memᴰ.tail (Memᴰ.tail h)) = Memᴰ.tail (Memᴰ.tail h)
  mem-perm (Permᴰ.trans p q) h = mem-perm q (mem-perm p h)

module _ {ℓ κ} {A : Type ℓ} {K : Type κ} (key : A → K) where
  -- Where keys are unique, items with one key are one item.
  pub unique_by_key :
      (xs : List A) (a b : A)
      → AllPairs (λ x y. key x ≢ key y) xs
      → Memᴰ a xs
      → Memᴰ b xs
      → key a ≡ key b
      → a ≡ b
  unique_by_key [] a b h m n e = elim m [ ]
  unique_by_key (x ∷ xs) a b h (Memᴰ.head p) (Memᴰ.head q) e = p ∙ sym q
  unique_by_key (x ∷ xs) a b h (Memᴰ.head p) (Memᴰ.tail n) e =
      absurd (All-mem (λ y. key x ≢ key y) xs b h.0 n (ap key (sym p) ∙ e))
  unique_by_key (x ∷ xs) a b h (Memᴰ.tail m) (Memᴰ.head q) e =
      absurd (All-mem (λ y. key x ≢ key y) xs a h.0 m (ap key (sym q) ∙ sym e))
  unique_by_key (x ∷ xs) a b h (Memᴰ.tail m) (Memᴰ.tail n) e = unique_by_key xs a b h.1 m n e
