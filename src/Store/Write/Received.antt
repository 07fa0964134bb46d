-- ===== src/Store/Write/Received.antt =====
-- store/sqlite.go, `nodePoints`: what the points table holds after a call.
use simpleiot.Prelude.{
  ℕ, ◌<◌, String, ◌≡◌, ◌≢◌, refl, sym, ap, ◌∙◌, List, [], ◌∷◌, Option, none, some, All,
}
use simpleiot.Prelude.Options.{◌>>=◌}
use simpleiot.Prelude.Perms.{AllPairs}
use simpleiot.Data.Point.{Point}
use simpleiot.Data.Points.{with_defaults}
use simpleiot.Data.Points.Collapse.{collapse}
use simpleiot.Store.{Db, EdgeRow, PointRow, rows_of, update_hash}
use simpleiot.Store.Write.{match_row, plan_points, upsert_all, node_points}
use simpleiot.Store.Write.Planned.Loop.{Differ, IsInjective}
use simpleiot.Store.Write.Hashes.{IsConsistent, Ready-start, node_points-IsConsistent}
use simpleiot.Store.Write.Rows.{held, some-eq}
use simpleiot.Store.Write.Readings.{content, received, read-plan_points}
use simpleiot.Store.Write.Others.{Kept-plan_points}

Agree-start :
    (now : ℕ) (o : String) (t : List PointRow) (pins : List Point)
    → All (λ a. held o t (with_defaults now a) ≡ match_row (rows_of o t) (with_defaults now a)) pins
Agree-start now o t [] = tt
Agree-start now o t (p ∷ ps) = (refl, Agree-start now o t ps)

module _ (now : ℕ) (uuid : ℕ → String) (iterate : List Point → List Point) (rank : String → ℕ)
    (fuel : ℕ) (db : Db) (id : String) (points : List Point) where
  -- The points table after a call
  node_points_lem :
      (db' : Db)
      → node_points now uuid iterate fuel db id points ≡ some db'
      → db'.node_points
        ≡ upsert_all id db.node_points
            (plan_points now uuid 0 (rows_of id db.node_points) (collapse iterate points) 0).writes
  unfolding node_points
  node_points_lem db' e =
      let plan = plan_points now uuid 0 (rows_of id db.node_points) (collapse iterate points) 0 in
      go (update_hash fuel db.edges id plan.hash_update) e
    where
      go :
          (m : Option (List EdgeRow))
          → (do
            edges' ← m
            some (record db {
              edges = edges';
              node_points =
                  upsert_all id db.node_points
                    (plan_points now uuid 0
                      (rows_of id db.node_points)
                      (collapse iterate points)
                      0).writes;
            }))
            ≡ some db'
          → db'.node_points
            ≡ upsert_all id db.node_points
                (plan_points now uuid 0
                  (rows_of id db.node_points)
                  (collapse iterate points)
                  0).writes
      go none h = absurd (cc)
      go (some es) h = ap (λ (d : Db). d.node_points) (sym (some-eq h))

  -- For each type and key the node holds the newest of what it held and of the collapsed points,
  -- and the rows of the other nodes are as before.
  abbrev pub IsReceived : Db → Type 0
  IsReceived db' =
      ((b : Point)
        → content (held id db'.node_points b)
          ≡ received now b (content (held id db.node_points b)) (collapse iterate points))
      × ((x : String) → id ≢ x → rows_of x db'.node_points ≡ rows_of x db.node_points)

  -- The result of a call is consistent and has what was written.
  pub node_points-IsReceived :
      IsInjective uuid
      → ((j : ℕ) → All (λ r. r.id ≢ uuid j) db.node_points)
      → AllPairs (Differ now) (collapse iterate points)
      → rank id < fuel
      → IsConsistent rank db
      → (db' : Db) × (node_points now uuid iterate fuel db id points ≡ some db')
        × IsConsistent rank db'
        × IsReceived db'
  node_points-IsReceived inj fresh distinct k c =
      let (db', e, c') =
        node_points-IsConsistent now uuid iterate rank fuel db id points inj fresh distinct k c in
      let pins = collapse iterate points in
      let t = db.node_points in
      let ready = Ready-start now uuid id t pins c.rows_unique fresh distinct in
      let table = node_points_lem db' e in
      (
        db',
        e,
        c',
        (
          λ b.
              ap (λ (y : List PointRow). content (held id y b)) table
              ∙ read-plan_points now uuid inj id (rows_of id t) b t 0 0 pins ready
                  (Agree-start now id t pins),
          λ x apart.
              ap (rows_of x) table
              ∙ Kept-plan_points id x apart now uuid inj (rows_of id t) t 0 0 pins ready,
        ),
      )

  -- A reader finds what was written: `nodePoints` on a consistent store with no cycle of edges
  -- returns, for each type and key the node then holds the newest of the point
  -- that it held before and the collapsed points, in their order, where a point of the
  -- same time replaces the one before, and the rows of the other nodes are as before. The points, collapsed and with
  -- their defaults, differ in type or key, new row IDs are new, and the fuel is above the rank of
  -- the node.
  pub node_points-received :
      IsInjective uuid
      → ((j : ℕ) → All (λ r. r.id ≢ uuid j) db.node_points)
      → AllPairs (Differ now) (collapse iterate points)
      → rank id < fuel
      → IsConsistent rank db
      → (db' : Db) × (node_points now uuid iterate fuel db id points ≡ some db')
        × ((b : Point)
            → content (held id db'.node_points b)
              ≡ received now b (content (held id db.node_points b)) (collapse iterate points))
        × ((x : String) → id ≢ x → rows_of x db'.node_points ≡ rows_of x db.node_points)
  node_points-received inj fresh distinct k c =
      let (db', e, c', r) = node_points-IsReceived inj fresh distinct k c in (db', e, r.0, r.1)
