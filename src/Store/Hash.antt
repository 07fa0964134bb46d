-- ===== src/Store/Hash.antt =====
-- store/sqlite.go, `updateHash`: the walk that keeps the hashes of the edges.
-- `Balanced` is the invariant of the walk: the hash of an edge and what the walk still owes it
-- make up the hash of its points and of its children.
use mathlib.Core.List.{Memᴰ}
use mathlib.Core.Path.{subst}
use simpleiot.Prelude.{
  ℕ, String, ◌≡◌, ◌≢◌, refl, sym, ap, ap₂, ◌∙◌, Bool, List, [], ◌∷◌, some, str_eq, eq_iff,
  if◌then◌else◌, arith, All, Bool-cases, eq_refl, ne→str_eq, inl, inr,
}
use simpleiot.Prelude.Bits.{
  ◌⊕◌, bit_xor-zero, bit_xor_self, bit_xor_assoc, xor_exchange, xor_right_comm,
}
use simpleiot.Prelude.Perms.{AllPairs, All-mem, unique_by_key}
use simpleiot.Store.{EdgeRow, Cache, cached, cache_put, current, bump}

abbrev pub mark : ℕ → Bool → ℕ
mark u b = if b then u else 0

-- The exclusive or of `f` over the edges below the node `x`.
unfoldable pub children_hash : (EdgeRow → ℕ) → String → List EdgeRow → ℕ
children_hash f x [] = 0
children_hash f x (e ∷ es) = (if str_eq e.up x then f e else 0) ⊕ children_hash f x es

cached-cache_put :
    (c : Cache) (k j : String) (v : ℕ)
    → cached (cache_put c k v) j ≡ (if str_eq k j then some v else cached c j)
unfolding cached cache_put
cached-cache_put [] k j v = refl
cached-cache_put ((i, w) ∷ c) k j v =
    ground (arith, eq_iff i k, eq_iff i j, eq_iff k j, cached-cache_put c k j v)

current-bump :
    (u : ℕ) (c : Cache) (a e : EdgeRow)
    → (a.id ≡ e.id → e ≡ a)
    → current (bump u c a) e ≡ current c e ⊕ mark u (str_eq a.id e.id)
unfolding current bump
current-bump u c a e h = rw cached-cache_put (elim (Bool-cases (str_eq a.id e.id)) [
  | inl t ↦ rw t (ap (λ x. current c x ⊕ u) (sym (h ((eq_iff _ _).0 t))))
  | inr t ↦ rw t (sym (bit_xor-zero _))
])

abbrev pub HasUniqueIds : List EdgeRow → Type 0
HasUniqueIds = AllPairs (λ a b. a.id ≢ b.id)

pub unique_by_id :
    (es : List EdgeRow) (a b : EdgeRow)
    → HasUniqueIds es
    → Memᴰ a es
    → Memᴰ b es
    → a.id ≡ b.id
    → a ≡ b
unique_by_id = unique_by_key (λ e. e.id)

current-other :
    (u : ℕ) (c : Cache) (a e : EdgeRow) → a.id ≢ e.id → current (bump u c a) e ≡ current c e
current-other u c a e h =
    current-bump u c a e (λ q. absurd (h q))
    ∙ rw (ne→str_eq a.id e.id h) (bit_xor-zero (current c e))

current_self : (u : ℕ) (c : Cache) (a : EdgeRow) → current (bump u c a) a ≡ current c a ⊕ u
current_self u c a = current-bump u c a a (λ q. refl) ∙ rw (eq_refl a.id) refl

children-other :
    (u : ℕ) (c : Cache) (a : EdgeRow) (x : String) (es : List EdgeRow)
    → All (λ e. a.id ≢ e.id) es
    → children_hash (current (bump u c a)) x es ≡ children_hash (current c) x es
unfolding children_hash
children-other u c a x [] h = refl
children-other u c a x (e ∷ es) h =
    ap₂ (λ (s t : ℕ). (if str_eq e.up x then s else 0) ⊕ t) (current-other u c a e h.0)
      (children-other u c a x es h.1)

children-head :
    (u : ℕ) (c : Cache) (a : EdgeRow) (x : String) (es : List EdgeRow)
    → All (λ e. a.id ≢ e.id) es
    → children_hash (current (bump u c a)) x (a ∷ es)
      ≡ children_hash (current c) x (a ∷ es) ⊕ mark u (str_eq a.up x)
unfolding children_hash
children-head u c a x es h =
    rw (children-other u c a x es h, current_self u c a)
      (elim (Bool-cases (str_eq a.up x)) [
        | inl t ↦ rw t (xor_right_comm (current c a) u (children_hash (current c) x es))
        | inr t ↦ rw t (sym (bit_xor-zero _))
      ])

-- Along the walk only the node above the bumped edge sees its children change.
pub children-bump :
    (u : ℕ) (c : Cache) (a : EdgeRow) (x : String) (es : List EdgeRow)
    → HasUniqueIds es
    → Memᴰ a es
    → children_hash (current (bump u c a)) x es
      ≡ children_hash (current c) x es ⊕ mark u (str_eq a.up x)
unfolding children_hash
children-bump u c a x [] h m = elim m [ ]
children-bump u c a x (e ∷ es) h (Memᴰ.head p) =
    subst
      (λ b.
        children_hash (current (bump u c a)) x (b ∷ es)
        ≡ children_hash (current c) x (b ∷ es) ⊕ mark u (str_eq a.up x))
      p (children-head u c a x es (subst (λ b. All (λ r. b.id ≢ r.id) es) (sym p) h.0))
children-bump u c a x (e ∷ es) h (Memᴰ.tail m) =
    rw
      (
        children-bump u c a x es h.1 m,
        current-other u c a e (λ q. All-mem (λ r. e.id ≢ r.id) es a h.0 m (sym q)),
      )
      (sym (bit_xor_assoc _ _ _))

-- What the walk owes: with `debt` added to its hash, each edge agrees with its points and children.
abbrev pub Balanced : (EdgeRow → ℕ) → List EdgeRow → Cache → (EdgeRow → ℕ) → Type 0
Balanced base edges c debt =
    (e : EdgeRow)
    → Memᴰ e edges
    → current c e ⊕ debt e ≡ base e ⊕ children_hash (current c) e.down edges

settle : (x d b k p q : ℕ) → x ⊕ d ≡ b ⊕ k → (x ⊕ p) ⊕ ((d ⊕ p) ⊕ q) ≡ b ⊕ (k ⊕ q)
settle x d b k p q h =
    sym (bit_xor_assoc (x ⊕ p) (d ⊕ p) q)
    ∙ ap (λ (t : ℕ). t ⊕ q)
        (xor_exchange x p d p
          ∙ ap (λ (t : ℕ). (x ⊕ d) ⊕ t) (bit_xor_self p)
          ∙ bit_xor-zero (x ⊕ d)
          ∙ h)
    ∙ bit_xor_assoc b k q

module _ (base : EdgeRow → ℕ) (edges : List EdgeRow) (unique : HasUniqueIds edges) (u : ℕ) where
  pub Balanced-bump :
      (c : Cache) (debt : EdgeRow → ℕ) (a : EdgeRow)
      → Memᴰ a edges
      → Balanced base edges c debt
      → Balanced base edges
          (bump u c a)
          (λ e. (debt e ⊕ mark u (str_eq a.id e.id)) ⊕ mark u (str_eq a.up e.down))
  Balanced-bump c debt a m h e n =
      rw
        (
          current-bump u c a e (λ q. unique_by_id edges e a unique n m (sym q)),
          children-bump u c a e.down edges unique m,
        )
        (settle (current c e) (debt e) (base e) (children_hash (current c) e.down edges) _ _
          (h e n))
