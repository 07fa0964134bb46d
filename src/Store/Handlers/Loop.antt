-- ===== src/Store/Handlers/Loop.antt =====
-- store/store.go: the loop over the nodes above, and where its messages come from.
use mathlib.Core.List.{Memᴰ}
use mathlib.Core.Path.{subst}
use simpleiot.Prelude.{
  ◌≡◌, refl, sym, ap, ◌∙◌, String, ◌⊎◌, inl, inr, List, [], ◌∷◌, ◌++◌, Option, none, some,
}
use simpleiot.Prelude.Options.{◌>>=◌}
use simpleiot.Store.Handlers.{Message, each_up}

pub Memᴰ-cons : {A : Type 0} {x y : A} {xs : List A} → Memᴰ x (y ∷ xs) → (x ≡ y) ⊎ Memᴰ x xs
Memᴰ-cons (Memᴰ.head e) = inl e
Memᴰ-cons (Memᴰ.tail m) = inr m

-- What is in two lists is in the first or in the second.
Memᴰ-append : {A : Type 0} (x : A) (xs ys : List A) → Memᴰ x (xs ++ ys) → Memᴰ x xs ⊎ Memᴰ x ys
Memᴰ-append x [] ys m = inr m
Memᴰ-append x (z ∷ xs) ys (Memᴰ.head e) = inl (Memᴰ.head e)
Memᴰ-append x (z ∷ xs) ys (Memᴰ.tail m) = elim (Memᴰ-append x xs ys m) [
  | inl l ↦ inl (Memᴰ.tail l)
  | inr r ↦ inr r
]

Memᴰ-append_left : {A : Type 0} (x : A) (xs ys : List A) → Memᴰ x xs → Memᴰ x (xs ++ ys)
Memᴰ-append_left x [] ys m = elim m [ ]
Memᴰ-append_left x (z ∷ xs) ys (Memᴰ.head e) = Memᴰ.head e
Memᴰ-append_left x (z ∷ xs) ys (Memᴰ.tail m) = Memᴰ.tail (Memᴰ-append_left x xs ys m)

Memᴰ-append_right : {A : Type 0} (x : A) (xs ys : List A) → Memᴰ x ys → Memᴰ x (xs ++ ys)
Memᴰ-append_right x [] ys m = m
Memᴰ-append_right x (z ∷ xs) ys m = Memᴰ.tail (Memᴰ-append_right x xs ys m)

module _ (walk : String → Option (List Message)) where
  -- Both parts of the loop over the nodes above have returned.
  pub each_up-cons :
      (u : String) (us : List String) (out : List Message)
      → each_up walk (u ∷ us) ≡ some out
      → (sent : List Message) × (rest : List Message) × (walk u ≡ some sent)
        × (each_up walk us ≡ some rest)
        × (out ≡ sent ++ rest)
  unfolding each_up
  each_up-cons u us out h = split (walk u) (each_up walk us) refl refl h
    where
      split :
          (o os : Option (List Message))
          → walk u ≡ o
          → each_up walk us ≡ os
          → (o >>= λ sent. os >>= λ rest. some (sent ++ rest)) ≡ some out
          → (sent : List Message) × (rest : List Message) × (walk u ≡ some sent)
            × (each_up walk us ≡ some rest)
            × (out ≡ sent ++ rest)
      split none os e e' k = absurd (cc)
      split (some sent) none e e' k = absurd (cc)
      split (some sent) (some rest) e e' k = (sent, rest, e, e', cc)

  -- Where a message of the loop comes from
  pub each_up-from :
      (us : List String) (out : List Message) (m : Message)
      → each_up walk us ≡ some out
      → Memᴰ m out
      → (b : String) × (sent : List Message) × Memᴰ b us × (walk b ≡ some sent) × Memᴰ m sent
  unfolding each_up
  each_up-from [] [] m h i = elim i [ ]
  each_up-from [] (x ∷ out) m h i = absurd (cc)
  each_up-from (u ∷ us) out m h i =
      let (sent, rest, e, e', k) = each_up-cons u us out h in
      elim (Memᴰ-append m sent rest (subst (λ (l : List Message). Memᴰ m l) k i)) [
        | inl j ↦ (u, sent, Memᴰ.head refl, e, j)
        | inr j ↦
            let (b, sent', l, e'', j') = each_up-from us rest m e' j in
            (b, sent', Memᴰ.tail l, e'', j')
      ]

  -- The messages of a node above are among those of the loop.
  pub each_up-has :
      (us : List String) (out : List Message) (b : String)
      → each_up walk us ≡ some out
      → Memᴰ b us
      → (sent : List Message) × (walk b ≡ some sent) × ((m : Message) → Memᴰ m sent → Memᴰ m out)
  each_up-has [] out b h i = elim i [ ]
  each_up-has (u ∷ us) out b h (Memᴰ.head e0) =
      let (sent, rest, e, e', k) = each_up-cons u us out h in
      (
        sent,
        ap walk e0 ∙ e,
        λ m j. subst (λ (l : List Message). Memᴰ m l) (sym k) (Memᴰ-append_left m sent rest j),
      )
  each_up-has (u ∷ us) out b h (Memᴰ.tail i) =
      let (sent, rest, e, e', k) = each_up-cons u us out h in
      let (sent', e'', has) = each_up-has us rest b e' i in
      (
        sent',
        e'',
        λ m j.
            subst (λ (l : List Message). Memᴰ m l) (sym k)
              (Memᴰ-append_right m sent rest (has m j)),
      )
