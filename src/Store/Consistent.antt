-- ===== src/Store/Consistent.antt =====
-- store/sqlite.go, `updateHash` over the whole table of edges.
use mathlib.Core.List.{Memᴰ}
use mathlib.Core.Path.{subst}
use simpleiot.Prelude.{
  ℕ, ◌<◌, String, ◌≡◌, ◌≢◌, refl, sym, ap, ◌∙◌, List, [], ◌∷◌, map, Option, none, some, str_eq,
  if◌then◌else◌, All,
}
use simpleiot.Prelude.Options.{◌>>=◌}
use simpleiot.Prelude.Bits.{◌⊕◌, zero-bit_xor, bit_xor-zero, xor_right_comm}
use simpleiot.Store.{EdgeRow, Cache, cached, current, update_hash_helper, write_back, update_hash}
use simpleiot.Store.Hash.{mark, children_hash, HasUniqueIds, Balanced}
use simpleiot.Store.Walk.{IsGraph, walks}

-- Every edge has the hash of a full computation: the exclusive or of the points of its node, of
-- its own points and of the hashes of the edges below the node.
abbrev pub IsHashed : (String → ℕ) → (String → ℕ) → List EdgeRow → Type 0
IsHashed node own edges =
    (e : EdgeRow)
    → Memᴰ e edges
    → e.hash ≡ (node e.down ⊕ own e.id) ⊕ children_hash (λ c. c.hash) e.down edges

-- The hashes of the nodes once that of the node `id` has changed by `u`.
abbrev pub changed : (String → ℕ) → String → ℕ → String → ℕ
changed node id u n = node n ⊕ mark u (str_eq id n)

children-write_back :
    (c : Cache) (x : String) (es : List EdgeRow)
    → children_hash (λ e. e.hash) x (write_back c es) ≡ children_hash (current c) x es
unfolding children_hash write_back
children-write_back c x [] = refl
children-write_back c x (e ∷ es) =
    ap (λ (t : ℕ). (if str_eq e.up x then current c e else 0) ⊕ t) (children-write_back c x es)

mem-write_back :
    (c : Cache) (es : List EdgeRow) (e' : EdgeRow)
    → Memᴰ e' (write_back c es)
    → (e : EdgeRow) × Memᴰ e es × (e' ≡ record e { hash = current c e })
unfolding write_back
mem-write_back c [] e' m = elim m [ ]
mem-write_back c (e ∷ es) e' (Memᴰ.head p) = (e, Memᴰ.head refl, p)
mem-write_back c (e ∷ es) e' (Memᴰ.tail m) =
    let (a, n, p) = mem-write_back c es e' m in (a, Memᴰ.tail n, p)

module _ (P : EdgeRow → Type 0)
    (keeps : (e : EdgeRow) (h : ℕ) → P e → P (record e { hash = h })) where
  All-write_back : (c : Cache) (es : List EdgeRow) → All P es → All P (write_back c es)
  unfolding write_back
  All-write_back c [] h = tt
  All-write_back c (e ∷ es) h = (keeps e (current c e) h.0, All-write_back c es h.1)

HasUniqueIds-write_back :
    (c : Cache) (es : List EdgeRow) → HasUniqueIds es → HasUniqueIds (write_back c es)
unfolding write_back
HasUniqueIds-write_back c [] h = tt
HasUniqueIds-write_back c (e ∷ es) h =
    (All-write_back (λ r. e.id ≢ r.id) (λ r k n. n) c es h.0, HasUniqueIds-write_back c es h.1)

-- Writing hashes back leaves the graph as it is.
pub IsGraph-write_back :
    (rank : String → ℕ) (c : Cache) (es : List EdgeRow)
    → IsGraph rank es
    → IsGraph rank (write_back c es)
IsGraph-write_back rank c es g = record {
  unique = HasUniqueIds-write_back c es g.unique;
  acyclic = All-write_back (λ e. rank e.up < rank e.down) (λ e k n. n) c es g.acyclic;
  named = All-write_back (λ e. "none" ≢ e.down) (λ e k n. n) c es g.named;
}

IsHashed-write_back :
    (node own : String → ℕ) (c : Cache) (es : List EdgeRow)
    → Balanced (λ e. node e.down ⊕ own e.id) es c (λ e. 0)
    → IsHashed node own (write_back c es)
IsHashed-write_back node own c es b e' m =
    let (e, n, p) = mem-write_back c es e' m in
    subst
      (λ a.
        a.hash ≡ (node a.down ⊕ own a.id) ⊕ children_hash (λ r. r.hash) a.down (write_back c es))
      (sym p)
      (sym (bit_xor-zero (current c e))
        ∙ b e n
        ∙ ap (λ (t : ℕ). (node e.down ⊕ own e.id) ⊕ t) (sym (children-write_back c e.down es)))

owed_at_start :
    (node own : String → ℕ) (edges : List EdgeRow) (id : String) (u : ℕ)
    → IsHashed node own edges
    → Balanced
        (λ e. changed node id u e.down ⊕ own e.id)
        edges
        []
        (λ e. 0 ⊕ mark u (str_eq id e.down))
unfolding current cached
owed_at_start node own edges id u h e m =
    ap (λ (t : ℕ). e.hash ⊕ t) (zero-bit_xor _)
    ∙ ap (λ (t : ℕ). t ⊕ mark u (str_eq id e.down)) (h e m)
    ∙ xor_right_comm (node e.down ⊕ own e.id) _ _
    ∙ ap (λ (t : ℕ). t ⊕ children_hash (λ c. c.hash) e.down edges)
        (xor_right_comm (node e.down) (own e.id) (mark u (str_eq id e.down)))
    ∙ ap (λ (t : ℕ). (changed node id u e.down ⊕ own e.id) ⊕ t) (hash_current edges)
  where
    hash_current :
        (es : List EdgeRow)
        → children_hash (λ c. c.hash) e.down es ≡ children_hash (current []) e.down es
    hash_current es = refl

-- A row without its hash
abbrev pub unhashed : EdgeRow → EdgeRow
unhashed e = record e { hash = 0 }

unhashed-write_back :
    (c : Cache) (es : List EdgeRow) → map unhashed (write_back c es) ≡ map unhashed es
unfolding write_back
unhashed-write_back c [] = refl
unhashed-write_back c (e ∷ es) =
    ap (λ (l : List EdgeRow). unhashed e ∷ l) (unhashed-write_back c es)

-- On a graph with no cycle, and with fuel above the rank of the node, `updateHash` returns; where
-- every hash was that of a full computation and the points of the node changed by `u`, so is
-- every hash afterwards, all the way up along all paths; and but for the hashes the rows are the
-- same, in the same order, so the graph still has no cycle.
pub update_hash-IsHashed :
    (rank node own : String → ℕ) (edges : List EdgeRow) (id : String) (u fuel : ℕ)
    → IsGraph rank edges
    → rank id < fuel
    → IsHashed node own edges
    → (edges' : List EdgeRow) × (update_hash fuel edges id u ≡ some edges')
      × IsHashed (changed node id u) own edges'
      × IsGraph rank edges'
      × (map unhashed edges' ≡ map unhashed edges)
unfolding update_hash
update_hash-IsHashed rank node own edges id u fuel g k h =
    let (c, e, b) =
      walks (λ a. changed node id u a.down ⊕ own a.id) edges rank g u fuel id [] (λ a. 0) k
        (owed_at_start node own edges id u h) in
    (
      write_back c edges,
      rw e,
      IsHashed-write_back (changed node id u) own c edges b,
      IsGraph-write_back rank c edges g,
      unhashed-write_back c edges,
    )

-- Only the values of the two functions count.
pub IsHashed-ext :
    (node node' own : String → ℕ) (edges : List EdgeRow)
    → ((n : String) → node n ≡ node' n)
    → IsHashed node own edges
    → IsHashed node' own edges
IsHashed-ext node node' own edges eq h e m =
    h e m ∙ ap (λ (t : ℕ). (t ⊕ own e.id) ⊕ children_hash (λ c. c.hash) e.down edges) (eq e.down)

-- Two rows for one edge, but for the hash.
pub record IsRowOf (a b : EdgeRow) : Type 0 where
  pub id : a.id ≡ b.id
  pub up : a.up ≡ b.up
  pub down : a.down ≡ b.down

rows-write_back :
    (c : Cache) (es : List EdgeRow) (e' : EdgeRow)
    → Memᴰ e' (write_back c es)
    → (e : EdgeRow) × Memᴰ e es × IsRowOf e' e
rows-write_back c es e' m =
    let (e, n, p) = mem-write_back c es e' m in
    (e, n, record { id = ap (λ a. a.id) p; up = ap (λ a. a.up) p; down = ap (λ a. a.down) p })

rows-write_back_inv :
    (c : Cache) (es : List EdgeRow) (e : EdgeRow)
    → Memᴰ e es
    → (e' : EdgeRow) × Memᴰ e' (write_back c es) × IsRowOf e' e
unfolding write_back
rows-write_back_inv c [] e m = elim m [ ]
rows-write_back_inv c (a ∷ l) e (Memᴰ.head p) = (
  record a { hash = current c a },
  Memᴰ.head refl,
  record {
    id = ap (λ x. x.id) (sym p);
    up = ap (λ x. x.up) (sym p);
    down = ap (λ x. x.down) (sym p);
  },
)
rows-write_back_inv c (a ∷ l) e (Memᴰ.tail m) =
    let (e', n, r) = rows-write_back_inv c l e m in (e', Memᴰ.tail n, r)

some-injective : {a b : List EdgeRow} → some a ≡ some b → a ≡ b
some-injective e = cc

-- `updateHash` adds and removes no rows.
pub update_hash-rows :
    (fuel : ℕ) (edges es : List EdgeRow) (id : String) (u : ℕ)
    → update_hash fuel edges id u ≡ some es
    → ((e' : EdgeRow) → Memᴰ e' es → (e : EdgeRow) × Memᴰ e edges × IsRowOf e' e)
      × ((e : EdgeRow) → Memᴰ e edges → (e' : EdgeRow) × Memᴰ e' es × IsRowOf e' e)
unfolding update_hash
update_hash-rows fuel edges es id u = go (update_hash_helper fuel edges id u [])
  where
    go :
        (o : Option Cache)
        → (o >>= λ c. some (write_back c edges)) ≡ some es
        → ((e' : EdgeRow) → Memᴰ e' es → (e : EdgeRow) × Memᴰ e edges × IsRowOf e' e)
          × ((e : EdgeRow) → Memᴰ e edges → (e' : EdgeRow) × Memᴰ e' es × IsRowOf e' e)
    go none h = cc
    go (some c) h =
        subst
          (λ l.
            ((e' : EdgeRow) → Memᴰ e' l → (e : EdgeRow) × Memᴰ e edges × IsRowOf e' e)
            × ((e : EdgeRow) → Memᴰ e edges → (e' : EdgeRow) × Memᴰ e' l × IsRowOf e' e))
          (some-injective h) (rows-write_back c edges, rows-write_back_inv c edges)
