-- ===== src/Store/Write/Hashes.antt =====
-- store/sqlite.go, `nodePoints`: the store keeps all its hashes in step with its points.
use mathlib.Core.List.{Memᴰ}
use simpleiot.Prelude.{
  ℕ, ◌<◌, String, ◌≡◌, ◌≢◌, refl, sym, ◌∙◌, Bool, true, false, ◌&&◌, List, [], ◌∷◌, Option, none,
  some, str_eq, eq_iff, arith, All, Bool-cases, inl, inr,
}
use simpleiot.Prelude.Bits.{bit_xor-zero}
use simpleiot.Prelude.Perms.{AllPairs}
use simpleiot.Data.Point.{Point}
use simpleiot.Data.Points.{with_defaults}
use simpleiot.Data.Points.Collapse.{collapse}
use simpleiot.Store.{Db, PointRow, rows_of}
use simpleiot.Store.Hash.{mark}
use simpleiot.Store.Walk.{IsGraph}
use simpleiot.Store.Consistent.{IsHashed, IsHashed-ext, update_hash-IsHashed}
use simpleiot.Store.Write.{match_row, plan_points, upsert_all, node_points}
use simpleiot.Store.Write.Planned.{owner_hash, HasUniqueRows}
use simpleiot.Store.Write.Planned.Loop.{Differ, IsInjective, IsMatchIn, Ready, Accounts-plan_points}

-- The store between two transactions: row IDs are unique, the edges form a graph with no cycle,
-- and each edge has the hash of the points and edges below it.
pub record IsConsistent (rank : String → ℕ) (db : Db) : Type 0 where
  pub rows_unique : HasUniqueRows db.node_points
  pub edge_rows_unique : HasUniqueRows db.edge_points
  pub graph : IsGraph rank db.edges
  pub hashed : IsHashed (owner_hash db.node_points) (owner_hash db.edge_points) db.edges

pub match-rows_of :
    (o : String) (q : Point) (t : List PointRow) → IsMatchIn o t q (match_row (rows_of o t) q)
unfolding match_row rows_of
match-rows_of o q [] = tt
match-rows_of o q (r ∷ rs) = elim (Bool-cases (str_eq r.owner o)) [
  | inl e ↦ rw e (elim (Bool-cases (str_eq q.typ r.point.typ && str_eq q.key r.point.key)) [
    | inl f ↦ rw f (
      Memᴰ.head refl,
      (eq_iff _ _).0 e,
      (eq_iff _ _).0 (ground arith),
      (eq_iff _ _).0 (ground arith),
    )
    | inr f ↦ rw f (deeper (match_row (rows_of o rs) q) (match-rows_of o q rs))
  ])
  | inr e ↦ rw e (deeper (match_row (rows_of o rs) q) (match-rows_of o q rs))
]
  where
    deeper : (m : Option PointRow) → IsMatchIn o rs q m → IsMatchIn o (r ∷ rs) q m
    deeper none h = tt
    deeper (some s) h = (Memᴰ.tail h.0, h.1, h.2, h.3)

pub All-match :
    (now : ℕ) (o : String) (t : List PointRow) (pins : List Point)
    → All
        (λ p. IsMatchIn o t (with_defaults now p) (match_row (rows_of o t) (with_defaults now p)))
        pins
All-match now o t [] = tt
All-match now o t (p ∷ ps) = (match-rows_of o (with_defaults now p) t, All-match now o t ps)

-- The loop can start.
pub Ready-start :
    (now : ℕ) (uuid : ℕ → String) (o : String) (t : List PointRow) (pins : List Point)
    → HasUniqueRows t
    → ((j : ℕ) → All (λ r. r.id ≢ uuid j) t)
    → AllPairs (Differ now) pins
    → Ready now uuid o (rows_of o t) t 0 pins
Ready-start now uuid o t pins u fresh distinct = record {
  unique = u;
  distinct = distinct;
  matches = All-match now o t pins;
  fresh = λ j l. fresh j;
}

pub mark-zero : (b : Bool) → mark 0 b ≡ 0
mark-zero true = refl
mark-zero false = refl

module _ (now : ℕ) (uuid : ℕ → String) (iterate : List Point → List Point) (rank : String → ℕ)
    (fuel : ℕ) (db : Db) (id : String) (points : List Point) where
  -- `nodePoints` on a consistent store with no cycle of edges returns, and the store is
  -- consistent again: the hashes of all edges above the node are those of a full computation.
  -- The points, collapsed and with their defaults, differ in type or key, new row IDs are new, and
  -- the fuel is above the rank of the node.
  pub node_points-IsConsistent :
      IsInjective uuid
      → ((j : ℕ) → All (λ r. r.id ≢ uuid j) db.node_points)
      → AllPairs (Differ now) (collapse iterate points)
      → rank id < fuel
      → IsConsistent rank db
      → (db' : Db) × (node_points now uuid iterate fuel db id points ≡ some db')
        × IsConsistent rank db'
  unfolding node_points
  node_points-IsConsistent inj fresh distinct k c =
      let plan = plan_points now uuid 0 (rows_of id db.node_points) (collapse iterate points) 0 in
      let ready =
        Ready-start now uuid id db.node_points (collapse iterate points) c.rows_unique fresh
          distinct in
      let accounts = λ (n : String).
        Accounts-plan_points now uuid inj id (rows_of id db.node_points) n db.node_points 0 0
          (collapse iterate points) ready in
      let (es, e, h, g, same) =
        update_hash-IsHashed rank (owner_hash db.node_points) (owner_hash db.edge_points) db.edges
          id plan.hash_update fuel c.graph k c.hashed in
      (
        record db { edges = es; node_points = upsert_all id db.node_points plan.writes },
        rw e,
        record {
          rows_unique = (accounts id).1;
          edge_rows_unique = c.edge_rows_unique;
          graph = g;
          hashed =
              IsHashed-ext _ (owner_hash (upsert_all id db.node_points plan.writes))
                (owner_hash db.edge_points) es
                (λ n. sym (accounts n).0 ∙ rw (mark-zero (str_eq id n)) (bit_xor-zero _)) h;
        },
      )
