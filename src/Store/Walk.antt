-- ===== src/Store/Walk.antt =====
-- store/sqlite.go, `updateHash`: on a graph with no cycle the walk ends, and afterwards every
-- hash is the one that a full computation gives.
use mathlib.Core.List.{Memᴰ}
use mathlib.Core.Path.{subst}
use simpleiot.Prelude.{
  ℕ, zero, suc, ◌<◌, String, ◌≡◌, ◌≢◌, refl, sym, ap, ◌∙◌, true, false, List, [], ◌∷◌, Option, some,
  str_eq, eq_iff, arith, All, Bool-cases, inl, inr, eq_refl, ne→str_eq,
}
use simpleiot.Prelude.Bits.{
  ◌⊕◌, zero-bit_xor, bit_xor-zero, bit_xor_self, bit_xor_assoc, xor_right_comm,
}
use simpleiot.Prelude.Perms.{All-mem}
use simpleiot.Store.{
  EdgeRow, Cache, current, bump, walk_edges, climb, update_hash_helper, edges_down,
}
use simpleiot.Store.Hash.{mark, HasUniqueIds, Balanced, Balanced-bump}

-- The edges form a graph with no cycle: IDs are unique, the up side of an edge has a smaller
-- rank than its down side, and no node is called "none".
pub record IsGraph (rank : String → ℕ) (edges : List EdgeRow) : Type 0 where
  pub unique : HasUniqueIds edges
  pub acyclic : All (λ e. rank e.up < rank e.down) edges
  pub named : All (λ e. "none" ≢ e.down) edges

-- What is owed to an edge while the edges `rest` have still to be visited.
abbrev pending : ℕ → List EdgeRow → EdgeRow → ℕ
pending u [] e = 0
pending u (r ∷ rs) e = mark u (str_eq r.id e.id) ⊕ pending u rs e

select-mem :
    (id : String) (es : List EdgeRow) (P : EdgeRow → Type 0)
    → ((e : EdgeRow) → Memᴰ e es → e.down ≡ id → P e)
    → All P (edges_down id es)
unfolding edges_down
select-mem id [] P f = tt
select-mem id (e ∷ es) P f = elim (Bool-cases (str_eq e.down id)) [
  | inl t ↦
      rw t (f e (Memᴰ.head refl) ((eq_iff _ _).0 t), select-mem id es P (λ a m. f a (Memᴰ.tail m)))
  | inr t ↦ rw t (select-mem id es P (λ a m. f a (Memᴰ.tail m)))
]

pending-fresh :
    (u : ℕ) (id : String) (e : EdgeRow) (es : List EdgeRow)
    → All (λ r. e.id ≢ r.id) es
    → pending u (edges_down id es) e ≡ 0
unfolding edges_down
pending-fresh u id e [] h = refl
pending-fresh u id e (r ∷ rs) h = elim (Bool-cases (str_eq r.down id)) [
  | inl t ↦
      rw t
        (rw (ne→str_eq r.id e.id (λ q. h.0 (sym q)), pending-fresh u id e rs h.1) (zero-bit_xor 0))
  | inr t ↦ rw t (pending-fresh u id e rs h.1)
]

pending-head :
    (u : ℕ) (id : String) (e : EdgeRow) (es : List EdgeRow)
    → All (λ r. e.id ≢ r.id) es
    → pending u (edges_down id (e ∷ es)) e ≡ mark u (str_eq id e.down)
unfolding edges_down
pending-head u id e es h = elim (Bool-cases (str_eq e.down id)) [
  | inl t ↦ rw t (
      rw (eq_refl e.id, pending-fresh u id e es h, (eq_iff id e.down).1 (sym ((eq_iff _ _).0 t)))
        (bit_xor-zero u))
  | inr t ↦ rw t (
      rw (ne→str_eq id e.down (λ q. cc (t, (eq_iff e.down id).1 (sym q))))
        (pending-fresh u id e es h))
]

-- At the start of a visit of the node `id`, each of its edges is owed the update once.
pending-select :
    (u : ℕ) (id : String) (e : EdgeRow) (es : List EdgeRow)
    → HasUniqueIds es
    → Memᴰ e es
    → pending u (edges_down id es) e ≡ mark u (str_eq id e.down)
unfolding edges_down
pending-select u id e [] h m = elim m [ ]
pending-select u id e (r ∷ rs) h (Memᴰ.head p) =
    subst (λ b. pending u (edges_down id (b ∷ rs)) e ≡ mark u (str_eq id e.down)) p
      (pending-head u id e rs (subst (λ b. All (λ r. b.id ≢ r.id) rs) (sym p) h.0))
pending-select u id e (r ∷ rs) h (Memᴰ.tail m) = elim (Bool-cases (str_eq r.down id)) [
  | inl t ↦ rw t (
      rw (ne→str_eq r.id e.id (All-mem (λ s. r.id ≢ s.id) rs e h.0 m))
        (zero-bit_xor _ ∙ pending-select u id e rs h.1 m))
  | inr t ↦ rw t (pending-select u id e rs h.1 m)
]

climb_none :
    (walk : String → Cache → Option Cache) (r : EdgeRow) (c : Cache)
    → str_eq r.up "none" ≡ true
    → climb walk r c ≡ some c
unfolding climb
climb_none walk r c t = rw t refl

climb_up :
    (walk : String → Cache → Option Cache) (r : EdgeRow) (c : Cache)
    → str_eq r.up "none" ≡ false
    → climb walk r c ≡ walk r.up c
unfolding climb
climb_up walk r c t = rw t refl

-- `pay` moves the debt of the first pending edge to the edges above it.
pay : (d m r q : ℕ) → (((d ⊕ (m ⊕ r)) ⊕ m) ⊕ q) ≡ ((d ⊕ r) ⊕ q)
pay d m r q =
    ap (λ (t : ℕ). t ⊕ q)
      (xor_right_comm d (m ⊕ r) m
        ∙ bit_xor_assoc d m (m ⊕ r)
        ∙ ap (λ (t : ℕ). d ⊕ t)
            (sym (bit_xor_assoc m m r) ∙ ap (λ (t : ℕ). t ⊕ r) (bit_xor_self m) ∙ zero-bit_xor r))

module _ (base : EdgeRow → ℕ) (edges : List EdgeRow) (rank : String → ℕ)
    (graph : IsGraph rank edges) (u : ℕ) where
  abbrev pub Walks : ℕ → Type 0
  Walks f =
      (id : String) (c : Cache) (debt : EdgeRow → ℕ)
      → rank id < f
      → Balanced base edges c (λ e. debt e ⊕ mark u (str_eq id e.down))
      → (c' : Cache) × (update_hash_helper f edges id u c ≡ some c') × Balanced base edges c' debt

  pub convert :
      (c : Cache) (debt debt' : EdgeRow → ℕ)
      → ((e : EdgeRow) → Memᴰ e edges → debt e ≡ debt' e)
      → Balanced base edges c debt
      → Balanced base edges c debt'
  convert c debt debt' eq h e m = ap (λ (t : ℕ). current c e ⊕ t) (sym (eq e m)) ∙ h e m

  -- After the first edge is bumped, the rest is still pending and the node above is owed.
  after_bump :
      (c : Cache) (debt : EdgeRow → ℕ) (r : EdgeRow) (rs : List EdgeRow)
      → Memᴰ r edges
      → Balanced base edges c (λ e. debt e ⊕ pending u (r ∷ rs) e)
      → Balanced base edges
          (bump u c r)
          (λ e. (debt e ⊕ pending u rs e) ⊕ mark u (str_eq r.up e.down))
  after_bump c debt r rs m h =
      convert (bump u c r) _ _ (λ e n. pay (debt e) _ (pending u rs e) _)
        (Balanced-bump base edges graph.unique u c (λ e. debt e ⊕ pending u (r ∷ rs) e) r m h)

  walk_edges_lem :
      (f : ℕ)
      → Walks f
      → (rest : List EdgeRow) (c : Cache) (debt : EdgeRow → ℕ) → All (λ r. Memᴰ r edges) rest
      → All (λ r. rank r.up < f) rest
      → Balanced base edges c (λ e. debt e ⊕ pending u rest e)
      → (c' : Cache) × (walk_edges (λ id d. update_hash_helper f edges id u d) u rest c ≡ some c')
        × Balanced base edges c' debt
  unfolding walk_edges
  walk_edges_lem f walks [] c debt i k h =
      (c, refl, convert c _ debt (λ e m. bit_xor-zero (debt e)) h)
  walk_edges_lem f walks (r ∷ rs) c debt i k h = elim (Bool-cases (str_eq r.up "none")) [
    | inl t ↦
        let (c', e, b) =
          walk_edges_lem f walks rs (bump u c r) debt i.1 k.1
            (convert (bump u c r) _ _ (unowed r t) (after_bump c debt r rs i.0 h)) in
        (c', rw (climb_none _ r (bump u c r) t) e, b)
    | inr t ↦
        let (c1, e1, b1) =
          walks r.up (bump u c r) (λ e. debt e ⊕ pending u rs e) k.0
            (after_bump c debt r rs i.0 h) in
        let (c2, e2, b2) = walk_edges_lem f walks rs c1 debt i.1 k.1 b1 in
        (c2, rw (climb_up _ r (bump u c r) t) (rw e1 e2), b2)
  ]
    where
      unowed :
          (r : EdgeRow)
          → str_eq r.up "none" ≡ true
          → (e : EdgeRow) → Memᴰ e edges
          → ((debt e ⊕ pending u rs e) ⊕ mark u (str_eq r.up e.down)) ≡ (debt e ⊕ pending u rs e)
      unowed r t e m =
          rw
            (
              (eq_iff r.up "none").0 t,
              ne→str_eq "none" e.down (All-mem (λ a. "none" ≢ a.down) edges e graph.named m),
            )
            (bit_xor-zero _)

  below :
      (id : String) (f : ℕ) (e : EdgeRow)
      → e.down ≡ id
      → rank e.up < rank e.down
      → rank id < suc f
      → rank e.up < f
  below id f e p h k = omega (arith, ap rank p)

  -- With fuel above the rank of the node the walk ends, and pays what was owed to its edges.
  pub walks : (f : ℕ) → Walks f
  unfolding update_hash_helper
  walks zero id c debt k h = absurd (omega arith)
  walks (suc f) id c debt k h =
      walk_edges_lem f (walks f) (edges_down id edges) c debt
        (select-mem id edges (λ r. Memᴰ r edges) (λ e m p. m))
        (select-mem id edges (λ r. rank r.up < f)
          (λ e m p.
            below id f e p (All-mem (λ a. rank a.up < rank a.down) edges e graph.acyclic m) k))
        (convert c _ _
          (λ e m. ap (λ (t : ℕ). debt e ⊕ t) (sym (pending-select u id e edges graph.unique m))) h)
