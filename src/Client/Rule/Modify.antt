-- ===== src/Client/Rule/Modify.antt =====
-- client/rule.go: loops by index over the items of a rule, as maps.
use simpleiot.Prelude.{
  ℕ, zero, suc, ◌≡◌, refl, sym, ap, ◌∙◌, List, [], ◌∷◌, map, none, some, length, get_elem?,
}
use simpleiot.Client.Rule.{modify}
use simpleiot.Client.Rule.Conditions.{each_index}

module _ {A : Type 0} (f : A → A) where
  each_index-cons :
      (n i : ℕ) (x : A) (xs : List A)
      → each_index (modify f) n (suc i) (x ∷ xs) ≡ x ∷ each_index (modify f) n i xs
  unfolding each_index modify
  each_index-cons zero i x xs = refl
  each_index-cons (suc n) i x xs = each_index-cons n (suc i) x (modify f i xs)

  -- To change the item at each index is to map.
  pub each_index-modify : (xs : List A) → each_index (modify f) (length xs) 0 xs ≡ map f xs
  unfolding each_index modify
  each_index-modify [] = refl
  each_index-modify (x ∷ xs) =
      each_index-cons (length xs) 0 (f x) xs ∙ ap (λ l. f x ∷ l) (each_index-modify xs)

  -- A change that does nothing to the item at the index
  pub modify_id :
      (i : ℕ) (xs : List A) (x : A) → get_elem? xs i ≡ some x → f x ≡ x → modify f i xs ≡ xs
  unfolding modify
  modify_id i [] x e h = refl
  modify_id zero (y ∷ ys) x e h = ap (λ z. z ∷ ys) (ap f e' ∙ h ∙ sym e')
    where
      e' : y ≡ x
      e' = cc
  modify_id (suc i) (y ∷ ys) x e h = ap (λ l. y ∷ l) (modify_id i ys x e h)

  pub modify-none : (i : ℕ) (xs : List A) → get_elem? xs i ≡ none → modify f i xs ≡ xs
  unfolding modify
  modify-none i [] e = refl
  modify-none zero (y ∷ ys) e = absurd (cc)
  modify-none (suc i) (y ∷ ys) e = ap (λ l. y ∷ l) (modify-none i ys e)

  pub length-modify : (i : ℕ) (xs : List A) → length (modify f i xs) ≡ length xs
  unfolding modify
  length-modify i [] = refl
  length-modify zero (y ∷ ys) = refl
  length-modify (suc i) (y ∷ ys) = ap suc (length-modify i ys)

module _ {A B : Type 0} (f : A → A) (g : A → B) where
  -- A change that a view does not see
  pub map-modify_same :
      (i : ℕ) (xs : List A) → ((x : A) → g (f x) ≡ g x) → map g (modify f i xs) ≡ map g xs
  unfolding modify
  map-modify_same i [] h = refl
  map-modify_same zero (x ∷ xs) h = ap (λ y. y ∷ map g xs) (h x)
  map-modify_same (suc i) (x ∷ xs) h = ap (λ l. g x ∷ l) (map-modify_same i xs h)

module _ {A B : Type 0} (f : A → A) (g : A → B) (f' : B → B) where
  -- A change seen through a view
  pub map-modify :
      (i : ℕ) (xs : List A)
      → ((x : A) → g (f x) ≡ f' (g x))
      → map g (modify f i xs) ≡ modify f' i (map g xs)
  unfolding modify
  map-modify i [] h = refl
  map-modify zero (x ∷ xs) h = ap (λ y. y ∷ map g xs) (h x)
  map-modify (suc i) (x ∷ xs) h = ap (λ l. g x ∷ l) (map-modify i xs h)

pub get_elem?-map :
    {A B : Type 0} (g : A → B) (xs : List A) (i : ℕ) (x : A)
    → get_elem? xs i ≡ some x
    → get_elem? (map g xs) i ≡ some (g x)
get_elem?-map g [] i x e = absurd (cc)
get_elem?-map g (y ∷ ys) zero x e = ap (λ o. elim o [ none ↦ none | some z ↦ some (g z) ]) e
get_elem?-map g (y ∷ ys) (suc i) x e = get_elem?-map g ys i x e

pub get_elem?-map-none :
    {A B : Type 0} (g : A → B) (xs : List A) (i : ℕ)
    → get_elem? xs i ≡ none
    → get_elem? (map g xs) i ≡ none
get_elem?-map-none g [] i e = refl
get_elem?-map-none g (y ∷ ys) zero e = absurd (cc)
get_elem?-map-none g (y ∷ ys) (suc i) e = get_elem?-map-none g ys i e

-- A loop whose rounds change one item of a view
pub each_index-view :
    {S B : Type 0} (step : ℕ → S → S) (view : S → List B) (f : B → B)
    → ((i : ℕ) (s : S) → view (step i s) ≡ modify f i (view s))
    → (n i : ℕ) (s : S) → view (each_index step n i s) ≡ each_index (modify f) n i (view s)
unfolding each_index
each_index-view step view f h zero i s = refl
each_index-view step view f h (suc n) i s =
    each_index-view step view f h n (suc i) (step i s)
    ∙ ap (each_index (modify f) n (suc i)) (h i s)

pub modify_ext :
    {A : Type 0} (f g : A → A) (i : ℕ) (xs : List A) (x : A)
    → get_elem? xs i ≡ some x
    → f x ≡ g x
    → modify f i xs ≡ modify g i xs
unfolding modify
modify_ext f g i [] x e h = refl
modify_ext f g zero (y ∷ ys) x e h = ap (λ z. z ∷ ys) (ap f e' ∙ h ∙ sym (ap g e'))
  where
    e' : y ≡ x
    e' = cc
modify_ext f g (suc i) (y ∷ ys) x e h = ap (λ l. y ∷ l) (modify_ext f g i ys x e h)

pub map-id : {A : Type 0} (xs : List A) → map (λ x. x) xs ≡ xs
map-id [] = refl
map-id (x ∷ xs) = ap (λ l. x ∷ l) (map-id xs)

pub map-map :
    {A B C : Type 0} (g : B → C) (f : A → B) (xs : List A)
    → map g (map f xs) ≡ map (λ x. g (f x)) xs
map-map g f [] = refl
map-map g f (x ∷ xs) = ap (λ l. g (f x) ∷ l) (map-map g f xs)

pub length-map : {A B : Type 0} (f : A → B) (xs : List A) → length (map f xs) ≡ length xs
length-map f [] = refl
length-map f (x ∷ xs) = ap suc (length-map f xs)
