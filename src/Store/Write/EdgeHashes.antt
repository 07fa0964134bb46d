-- ===== src/Store/Write/EdgeHashes.antt =====
-- store/sqlite.go, `edgePoints` on an edge that exists: the hashes are right if the node has one
-- parent, and wrong if it has several.
use mathlib.Core.List.{Memᴰ}
use simpleiot.Prelude.{
  ℕ, ◌<◌, String, ◌≡◌, ◌≢◌, refl, sym, ap, ◌∙◌, true, false, ◌&&◌, List, some, str_eq, eq_iff,
  ne→str_eq, if◌then◌else◌, All, Bool-cases, inl, inr,
}
use simpleiot.Prelude.Bits.{◌⊕◌, bit_xor-zero, bit_xor_assoc, xor_right_comm, xor_eq_self}
use simpleiot.Prelude.Perms.{AllPairs, All-mem, unique_by_key}
use simpleiot.Data.Point.{Point}
use simpleiot.Data.Points.Collapse.{collapse}
use simpleiot.Store.{Db, EdgeRow, PointRow, rows_of, update_hash}
use simpleiot.Store.Hash.{mark, children_hash}
use simpleiot.Store.Walk.{IsGraph}
use simpleiot.Store.Consistent.{IsHashed, IsRowOf, changed, update_hash-IsHashed, update_hash-rows}
use simpleiot.Store.Write.{
  Plan, plan_points, upsert_all, without_node_type, ok, write_edge, edge_points, find_edge, deletes,
}
use simpleiot.Store.Write.Planned.{owner_hash, HasUniqueRows}
use simpleiot.Store.Write.Planned.Loop.{Differ, IsInjective, Accounts-plan_points}
use simpleiot.Store.Write.Hashes.{IsConsistent, All-match, mark-zero}

-- The hash of an edge from a full computation over the tables
abbrev pub full_hash : Db → EdgeRow → ℕ
full_hash db e =
    (owner_hash db.node_points e.down ⊕ owner_hash db.edge_points e.id)
    ⊕ children_hash (λ c. c.hash) e.down db.edges

module _ (now : ℕ) (uuid : ℕ → String) (iterate : List Point → List Point) (rank : String → ℕ)
    (fuel : ℕ) (db : Db) (edge : EdgeRow) (points : List Point) (injective : IsInjective uuid)
    (fresh : (j : ℕ) → All (λ r. r.id ≢ uuid j) db.edge_points)
    (distinct : AllPairs (Differ now) (without_node_type (collapse iterate points)))
    (enough : rank edge.down < fuel) (consistent : IsConsistent rank db)
    (mem : Memᴰ edge db.edges) where
  abbrev pub edge_plan : Plan
  edge_plan =
      plan_points now uuid 1 (rows_of edge.id db.edge_points)
        (without_node_type (collapse iterate points)) 0

  abbrev rows_after : List PointRow
  rows_after = upsert_all edge.id db.edge_points edge_plan.writes

  accounts :
      (i : String)
      → (owner_hash rows_after i ⊕ mark 0 (str_eq edge.id i)
          ≡ owner_hash db.edge_points i ⊕ mark edge_plan.hash_update (str_eq edge.id i))
        × HasUniqueRows rows_after
  accounts i =
      Accounts-plan_points now uuid injective edge.id (rows_of edge.id db.edge_points) i
        db.edge_points 1 0 (without_node_type (collapse iterate points))
        (record {
          unique = consistent.edge_rows_unique;
          distinct = distinct;
          matches =
              All-match now edge.id db.edge_points (without_node_type (collapse iterate points));
          fresh = λ j l. fresh j;
        })

  -- The hashes of the edges' own points after the writes.
  own_after :
      (i : String)
      → owner_hash rows_after i
        ≡ owner_hash db.edge_points i ⊕ mark edge_plan.hash_update (str_eq edge.id i)
  own_after i =
      sym (bit_xor-zero _)
      ∙ ap (λ (t : ℕ). owner_hash rows_after i ⊕ t) (sym (mark-zero (str_eq edge.id i)))
      ∙ (accounts i).0

  walked :
      (es : List EdgeRow) × (update_hash fuel db.edges edge.down edge_plan.hash_update ≡ some es)
      × IsHashed
          (changed (owner_hash db.node_points) edge.down edge_plan.hash_update)
          (owner_hash db.edge_points)
          es
      × IsGraph rank es
  walked =
      let (es, e, h, g, same) =
        update_hash-IsHashed rank (owner_hash db.node_points) (owner_hash db.edge_points) db.edges
          edge.down edge_plan.hash_update fuel consistent.graph enough consistent.hashed in
      (es, e, h, g)

  -- The store after `edgePoints` has written points to the edge.
  abbrev written : Db
  written = record db { edge_points = rows_after; edges = walked.0 }

  written_lem :
      (up : String)
      → write_edge now uuid iterate fuel (some edge) db edge.down up (collapse iterate points)
        ≡ ok written
  unfolding write_edge
  written_lem up = rw (walked.1) refl

  -- Where the node has this edge alone, the change of its own points is that of the node's.
  hash_base :
      All (λ e. e.down ≡ edge.down → e.id ≡ edge.id) db.edges
      → (e : EdgeRow) → Memᴰ e walked.0
      → changed (owner_hash db.node_points) edge.down edge_plan.hash_update e.down
          ⊕ owner_hash db.edge_points e.id
        ≡ owner_hash db.node_points e.down ⊕ owner_hash rows_after e.id
  hash_base sole e m =
      xor_right_comm _ _ _
      ∙ bit_xor_assoc _ _ _
      ∙ ap (λ (t : ℕ). owner_hash db.node_points e.down ⊕ t)
          (ap (λ b. owner_hash db.edge_points e.id ⊕ mark edge_plan.hash_update b) same_test
            ∙ sym (own_after e.id))
    where
      row : (a : EdgeRow) × Memᴰ a db.edges × IsRowOf e a
      row = (update_hash-rows fuel db.edges walked.0 edge.down edge_plan.hash_update walked.1).0 e m

      same_down : e.id ≡ edge.id → edge.down ≡ e.down
      same_down i = sym (
          row.2.down
          ∙ ap (λ x. x.down)
              (unique_by_key (λ x. x.id) db.edges row.0 edge consistent.graph.unique row.1 mem
                (sym row.2.id ∙ i)))

      same_id : edge.down ≡ e.down → edge.id ≡ e.id
      same_id d = sym (
          row.2.id
          ∙ All-mem (λ x. x.down ≡ edge.down → x.id ≡ edge.id) db.edges row.0 sole row.1
              (sym row.2.down ∙ sym d))

      same_test : str_eq edge.down e.down ≡ str_eq edge.id e.id
      same_test = elim (Bool-cases (str_eq edge.id e.id)) [
        | inl t ↦ rw t ((eq_iff _ _).1 (same_down (sym ((eq_iff _ _).0 t))))
        | inr t ↦ rw t (ne→str_eq edge.down e.down (λ d. cc (t, (eq_iff _ _).1 (same_id d))))
      ]

  written-IsConsistent :
      All (λ e. e.down ≡ edge.down → e.id ≡ edge.id) db.edges → IsConsistent rank written
  written-IsConsistent sole = record {
    rows_unique = consistent.rows_unique;
    edge_rows_unique = (accounts edge.id).1;
    graph = walked.3;
    hashed = λ e m.
        walked.2 e m
        ∙ ap (λ (t : ℕ). t ⊕ children_hash (λ c. c.hash) e.down walked.0) (hash_base sole e m);
  }

  -- Another edge of the same node has taken the change of the points of `edge`.
  abbrev Strays : EdgeRow → Db → Type 0
  Strays other db' =
      (e : EdgeRow) × Memᴰ e db'.edges
      × IsRowOf e other
      × (e.hash ≡ full_hash db' e ⊕ edge_plan.hash_update)

  written-Strays :
      (other : EdgeRow)
      → Memᴰ other db.edges
      → other.down ≡ edge.down
      → edge.id ≢ other.id
      → Strays other written
  written-Strays other m d n =
      let (e, k, r) =
        (update_hash-rows fuel db.edges walked.0 edge.down edge_plan.hash_update walked.1).1 other
          m in
      (
        e,
        k,
        r,
        walked.2 e k
            ∙ ap (λ (t : ℕ). t ⊕ children_hash (λ c. c.hash) e.down walked.0)
                (spread e ((eq_iff _ _).1 (sym (r.down ∙ d)))
                  (ne→str_eq edge.id e.id (λ i. n (i ∙ r.id))))
            ∙ xor_right_comm (owner_hash db.node_points e.down ⊕ owner_hash rows_after e.id)
                edge_plan.hash_update (children_hash (λ c. c.hash) e.down walked.0),
      )
    where
      spread :
          (e : EdgeRow)
          → str_eq edge.down e.down ≡ true
          → str_eq edge.id e.id ≡ false
          → changed (owner_hash db.node_points) edge.down edge_plan.hash_update e.down
              ⊕ owner_hash db.edge_points e.id
            ≡ (owner_hash db.node_points e.down ⊕ owner_hash rows_after e.id)
              ⊕ edge_plan.hash_update
      spread e t f =
          xor_right_comm _ _ _
          ∙ ap
              (λ b.
                (owner_hash db.node_points e.down ⊕ owner_hash db.edge_points e.id)
                ⊕ mark edge_plan.hash_update b)
              t
          ∙ ap (λ (x : ℕ). (owner_hash db.node_points e.down ⊕ x) ⊕ edge_plan.hash_update)
              (sym (
                own_after e.id
                ∙ ap (λ b. owner_hash db.edge_points e.id ⊕ mark edge_plan.hash_update b) f
                ∙ bit_xor-zero _))

  Strays-not_IsConsistent :
      (other : EdgeRow) (db' : Db)
      → edge_plan.hash_update ≢ 0
      → Strays other db'
      → ¬ IsConsistent rank db'
  Strays-not_IsConsistent other db' u (e, k, r, h) c = u (xor_eq_self _ _ (sym h ∙ c.hashed e k))

  edge_points_lem :
      (parent : String)
      → edge.down ≢ parent
      → (str_eq edge.down db.root_id && deletes (collapse iterate points)) ≡ false
      → find_edge (if str_eq parent "" then "root" else parent) edge.down db.edges ≡ some edge
      → edge_points now uuid iterate fuel db edge.down parent points ≡ ok written
  unfolding edge_points
  edge_points_lem parent n k f =
      rw (ne→str_eq edge.down parent n, k, f)
        (written_lem (if str_eq parent "" then "root" else parent))

  -- `edgePoints` on an edge that exists, of a node with no other edge above it, returns and leaves
  -- a consistent store consistent. The node is not its own parent, and if it is the root the
  -- points do not delete it; as for `nodePoints`, the points differ in type or key, new row IDs
  -- are new, and the fuel is above the rank of the node.
  pub edge_points-IsConsistent :
      (parent : String)
      → edge.down ≢ parent
      → (str_eq edge.down db.root_id && deletes (collapse iterate points)) ≡ false
      → find_edge (if str_eq parent "" then "root" else parent) edge.down db.edges ≡ some edge
      → All (λ e. e.down ≡ edge.down → e.id ≡ edge.id) db.edges
      → (db' : Db) × (edge_points now uuid iterate fuel db edge.down parent points ≡ ok db')
        × IsConsistent rank db'
  edge_points-IsConsistent parent n k f sole =
      (written, edge_points_lem parent n k f, written-IsConsistent sole)

  -- Under the conditions of `edge_points-IsConsistent`, but where the node has a second edge above
  -- it (it is mirrored under another parent) and the points change the hash of the first, that
  -- change has gone into the hash of the second edge too: its row has the full computation with the
  -- change on top, so the store is no longer consistent.
  pub edge_points-mirrored :
      (parent : String)
      → edge.down ≢ parent
      → (str_eq edge.down db.root_id && deletes (collapse iterate points)) ≡ false
      → find_edge (if str_eq parent "" then "root" else parent) edge.down db.edges ≡ some edge
      → (other : EdgeRow) → Memᴰ other db.edges
      → other.down ≡ edge.down
      → edge.id ≢ other.id
      → edge_plan.hash_update ≢ 0
      → (db' : Db) × (edge_points now uuid iterate fuel db edge.down parent points ≡ ok db')
        × ((e : EdgeRow) × Memᴰ e db'.edges
            × IsRowOf e other
            × (e.hash ≡ full_hash db' e ⊕ edge_plan.hash_update))
        × (¬ IsConsistent rank db')
  edge_points-mirrored parent n k f other m d i u =
      let strays = written-Strays other m d i in
      (
        written,
        edge_points_lem parent n k f,
        strays,
        Strays-not_IsConsistent other written u strays,
      )
