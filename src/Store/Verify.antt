-- ===== src/Store/Verify.antt =====
-- store/sqlite.go, `verifyNodeHashes`: the walk down the tree that compares stored hashes with
-- computed ones.
use mathlib.Core.List.{Memᴰ}
use simpleiot.Prelude.{
  ℕ, zero, suc, ◌+◌, ◌<◌, ◌≤◌, String, ◌≡◌, ◌≢◌, refl, sym, ap, ◌∙◌, Bool, true, not, ◌==◌, List,
  [], ◌∷◌, ◌++◌, map, Option, none, some, str_eq, eq_iff, ne→str_eq, if◌then◌else◌, arith, All,
  Bool-cases, inl, inr, select, ==-refl,
}
use simpleiot.Prelude.Options.{◌>>=◌}
use simpleiot.Prelude.Bits.{◌⊕◌, zero-bit_xor, bit_xor-zero, bit_xor_assoc}
use simpleiot.Prelude.Perms.{All-mem}
use simpleiot.Data.Point.{crc}
use simpleiot.Data.Node.{NodeEdge, calc_hash, xor_points, xor_children}
use simpleiot.Store.{Db, EdgeRow, PointRow, rows_of, edges_up}
use simpleiot.Store.Hash.{children_hash}
use simpleiot.Store.Nodes.{node_edge, points_of, get_nodes}
use simpleiot.Store.Write.Planned.{owner_hash}
use simpleiot.Store.Write.Hashes.{IsConsistent}

-- UPDATE edges SET hash = ? WHERE up = ? AND down = ?
pub record HashFix : Type 0 where
  pub hash : ℕ
  pub up : String
  pub down : String

-- What is fixed at one node, given what was fixed below it.
unfoldable pub fix_node : Bool → NodeEdge → List NodeEdge → List HashFix → List HashFix
fix_node fix node children fixes =
    let h = calc_hash node children in
    if not (h == node.hash)
    then (if fix
        then fixes ++ (record { hash = h; up = node.parent; down = node.id } ∷ [])
        else fixes)
    else fixes

unfoldable pub verify_all :
    (NodeEdge → Option (List HashFix)) → List NodeEdge → Option (List HashFix)
verify_all verify [] = some []
verify_all verify (c ∷ cs) = do first ← verify c; rest ← verify_all verify cs; some (first ++ rest)

-- The function `verify`, on fuel: the updates that it makes. It reads the tables outside the
-- transaction that it writes to, so it sees them as they were.
unfoldable pub verify_node : ℕ → Bool → Db → NodeEdge → Option (List HashFix)
unfolding verify_all fix_node
verify_node zero fix db node = none
verify_node (suc f) fix db node = do
  children ← get_nodes db node.id "all" "" true
  fixes ← verify_all (verify_node f fix db) children
  some (fix_node fix node children fixes)

first_node : List NodeEdge → Option NodeEdge
first_node [] = none
first_node (n ∷ ns) = some n

-- `verifyNodeHashes`
unfoldable pub verify_node_hashes : ℕ → Bool → Db → Option (List HashFix)
unfolding first_node
verify_node_hashes fuel fix db = do
  roots ← get_nodes db "root" "all" "" true
  root ← first_node roots
  verify_node fuel fix db root

xor_points-owner :
    (h : ℕ) (o : String) (t : List PointRow) → xor_points h (points_of o t) ≡ h ⊕ owner_hash t o
unfolding xor_points owner_hash points_of rows_of
xor_points-owner h o [] = sym (bit_xor-zero h)
xor_points-owner h o (r ∷ rs) = elim (Bool-cases (str_eq r.owner o)) [
  | inl e ↦ rw e (xor_points-owner (h ⊕ crc r.point) o rs ∙ bit_xor_assoc h _ _)
  | inr e ↦ rw e (xor_points-owner h o rs ∙ ap (λ (t : ℕ). h ⊕ t) (sym (zero-bit_xor _)))
]

xor_children-up :
    (db : Db) (h : ℕ) (x : String) (es : List EdgeRow)
    → xor_children h (map (node_edge db) (edges_up x es)) ≡ h ⊕ children_hash (λ c. c.hash) x es
unfolding xor_children children_hash edges_up node_edge
xor_children-up db h x [] = sym (bit_xor-zero h)
xor_children-up db h x (e ∷ es) = elim (Bool-cases (str_eq e.up x)) [
  | inl t ↦ rw t (xor_children-up db (h ⊕ e.hash) x es ∙ bit_xor_assoc h _ _)
  | inr t ↦ rw t (xor_children-up db h x es ∙ ap (λ (t : ℕ). h ⊕ t) (sym (zero-bit_xor _)))
]

-- `CalcHash` on the rows of an edge and of the edges below it.
pub calc_hash-rows :
    (db : Db) (e : EdgeRow)
    → calc_hash (node_edge db e) (map (node_edge db) (edges_up e.down db.edges))
      ≡ (owner_hash db.node_points e.down ⊕ owner_hash db.edge_points e.id)
        ⊕ children_hash (λ c. c.hash) e.down db.edges
unfolding calc_hash node_edge
calc_hash-rows db e =
    xor_children-up db _ e.down db.edges
    ∙ ap (λ (t : ℕ). t ⊕ children_hash (λ c. c.hash) e.down db.edges)
        (xor_points-owner _ e.id db.edge_points
          ∙ ap (λ (t : ℕ). t ⊕ owner_hash db.edge_points e.id)
              (xor_points-owner 0 e.down db.node_points ∙ zero-bit_xor _))

-- The names with a meaning of their own in `getNodes`.
abbrev pub IsPlainId : String → Type 0
IsPlainId id = (id ≢ "") × (id ≢ "none") × (id ≢ "root") × (id ≢ "all")

select-true {ℓ} : {A : Type ℓ} (xs : List A) → select (λ x. true) xs ≡ xs
select-true [] = refl
select-true (x ∷ xs) = ap (λ l. x ∷ l) (select-true xs)

get_nodes-children :
    (db : Db) (id : String)
    → IsPlainId id
    → get_nodes db id "all" "" true ≡ some (map (node_edge db) (edges_up id db.edges))
unfolding get_nodes
get_nodes-children db id p =
    rw
      (
        ne→str_eq id "" p.0,
        ne→str_eq id "none" p.1,
        ne→str_eq id "root" p.2,
        ne→str_eq id "all" p.3,
      )
      (rw
        (
          select-true (edges_up id db.edges),
          select-true (map (node_edge db) (edges_up id db.edges)),
        )
        refl)

mem-edges_up :
    (id : String) (es : List EdgeRow) (P : EdgeRow → Type 0)
    → ((e : EdgeRow) → Memᴰ e es → e.up ≡ id → P e)
    → All P (edges_up id es)
unfolding edges_up
mem-edges_up id [] P f = tt
mem-edges_up id (e ∷ es) P f = elim (Bool-cases (str_eq e.up id)) [
  | inl t ↦
      rw t
        (f e (Memᴰ.head refl) ((eq_iff _ _).0 t), mem-edges_up id es P (λ a m. f a (Memᴰ.tail m)))
  | inr t ↦ rw t (mem-edges_up id es P (λ a m. f a (Memᴰ.tail m)))
]

verify_all-map :
    (verify : NodeEdge → Option (List HashFix)) (db : Db) (es : List EdgeRow)
    → All (λ e. verify (node_edge db e) ≡ some []) es
    → verify_all verify (map (node_edge db) es) ≡ some []
unfolding verify_all
verify_all-map verify db [] h = refl
verify_all-map verify db (e ∷ es) h = rw (h.0, verify_all-map verify db es h.1) refl

module _ (rank : String → ℕ) (db : Db) (consistent : IsConsistent rank db)
    (plain : All (λ e. IsPlainId e.down) db.edges) (top : ℕ)
    (bounded : All (λ e. rank e.down < top) db.edges) where
  fix_node-consistent :
      (fix : Bool) (e : EdgeRow)
      → Memᴰ e db.edges
      → fix_node fix (node_edge db e) (map (node_edge db) (edges_up e.down db.edges)) [] ≡ []
  unfolding fix_node node_edge
  fix_node-consistent fix e m =
      let same : calc_hash (node_edge db e) (map (node_edge db) (edges_up e.down db.edges))
          ≡ e.hash =
        calc_hash-rows db e ∙ sym (consistent.hashed e m) in
      rw same (rw (==-refl e.hash) refl)

  -- In a consistent store in which no edge leads down to one of the names "", "none", "root" and
  -- "all", which `getNodes` takes for something else than an ID, the walk over the node of any edge
  -- ends and finds nothing to fix; the fuel that it takes is the distance of the node's rank from a
  -- bound of the ranks.
  pub verify_node-consistent :
      (fix : Bool) (f : ℕ) (e : EdgeRow)
      → Memᴰ e db.edges
      → top ≤ rank e.down + f
      → verify_node f fix db (node_edge db e) ≡ some []
  unfolding verify_node node_edge
  verify_node-consistent fix zero e m k =
      absurd (omega (arith, All-mem (λ a. rank a.down < top) db.edges e bounded m))
  verify_node-consistent fix (suc f) e m k =
      rw (get_nodes-children db e.down (All-mem (λ a. IsPlainId a.down) db.edges e plain m)) (
        rw
          (verify_all-map (verify_node f fix db) db (edges_up e.down db.edges) (
            mem-edges_up e.down db.edges (λ c. verify_node f fix db (node_edge db c) ≡ some [])
              (λ c n q. verify_node-consistent fix f c n (deeper c n q))))
          (ap some (fix_node-consistent fix e m)))
    where
      deeper : (c : EdgeRow) → Memᴰ c db.edges → c.up ≡ e.down → top ≤ rank c.down + f
      deeper c n q = omega (
        arith,
        ap rank q,
        All-mem (λ a. rank a.up < rank a.down) db.edges c consistent.graph.acyclic n,
      )
