-- ===== src/Store/Write.antt =====
-- store/sqlite.go, `nodePoints` and `edgePoints`: how points are written to the tables.
-- `now` is `time.Now()`, `uuid k` what `uuid.New()` gives for the k-th point, `iterate` the order
-- in which Go goes through a map, and `fuel` bounds the walk of `updateHash` (see Store/Walk).
pub mod Planned
pub mod Hashes
pub mod EdgeHashes
pub mod Rows
pub mod Readings
pub mod Others
pub mod Received
use simpleiot.Prelude.{
  ℕ, ◌+◌, ◌<◌, String, Bool, true, false, not, ◌&&◌, ◌||◌, List, [], ◌∷◌, ◌++◌, Option, none, some,
  str_eq, ltb, ◌==◌, if◌then◌else◌,
}
use simpleiot.Prelude.Float.{f64_lt, f64_zero}
use simpleiot.Prelude.Options.{◌>>=◌}
use simpleiot.Prelude.Bits.{◌⊕◌}
use simpleiot.Data.Point.{Point, crc, point_type_node_type, point_type_tombstone}
use simpleiot.Data.Points.{with_defaults}
use simpleiot.Data.Points.Collapse.{collapse}
use simpleiot.Store.{Db, PointRow, EdgeRow, rows_of, edges_down, column_form, update_hash}

-- The first row with the type and key of the point.
unfoldable pub match_row : List PointRow → Point → Option PointRow
match_row [] q = none
match_row (r ∷ rs) q =
    if str_eq q.typ r.point.typ && str_eq q.key r.point.key then some r else match_row rs q

-- `writePointIDs`, `writePoints` and `hashUpdate`
pub record Plan : Type 0 where
  pub writes : List (String × Point)
  pub hash_update : ℕ

-- What the loop does with one point, before it goes on with `rest`, given the hash so far.
unfoldable pub plan_point : Option PointRow → String → Point → ℕ → (ℕ → Plan) → Plan
plan_point none new_id q h rest =
    let p = rest (h ⊕ crc q) in record p { writes = (new_id, q) ∷ p.writes }
plan_point (some r) new_id q h rest =
    let p = rest ((h ⊕ crc r.point) ⊕ crc q) in
    if ltb r.point.time q.time || r.point.time == q.time
    then record p { writes = (r.id, q) ∷ p.writes }
    else rest h

-- The loop `NextPin` of `nodePoints`, from the k-th point on.
unfoldable pub plan_points : ℕ → (ℕ → String) → ℕ → List PointRow → List Point → ℕ → Plan
unfolding plan_point
plan_points now uuid k rows [] h = record { writes = []; hash_update = h }
plan_points now uuid k rows (pin ∷ pins) h =
    let q = with_defaults now pin in
    plan_point (match_row rows q) (uuid k) q h (plan_points now uuid (k + 1) rows pins)

-- INSERT INTO node_points ... ON CONFLICT(id) DO UPDATE SET ...
unfoldable pub upsert : String → List PointRow → String → Point → List PointRow
upsert owner [] id p = record { id = id; owner = owner; point = column_form p } ∷ []
upsert owner (r ∷ rs) id p =
    if str_eq r.id id then record r { point = column_form p } ∷ rs else r ∷ upsert owner rs id p

unfoldable pub upsert_all : String → List PointRow → List (String × Point) → List PointRow
unfolding upsert
upsert_all owner t [] = t
upsert_all owner t ((id, p) ∷ ws) = upsert_all owner (upsert owner t id p) ws

module _ (now : ℕ) (uuid : ℕ → String) (iterate : List Point → List Point) (fuel : ℕ) where
  -- `nodePoints`; `none` if the fuel runs out
  unfoldable pub node_points : Db → String → List Point → Option Db
  unfolding plan_points upsert_all
  node_points db id points =
      let plan = plan_points now uuid 0 (rows_of id db.node_points) (collapse iterate points) 0 in
      do
        edges' ← update_hash fuel db.edges id plan.hash_update
        some (record db { edges = edges'; node_points = upsert_all id db.node_points plan.writes })

-- The errors of `edgePoints`; `out_of_fuel` belongs to the model only.
pub data EdgeError : Type 0 where
  same_node root_deleted node_type_missing out_of_fuel : EdgeError

pub data EdgeResult : Type 0 where
  ok : Db → EdgeResult
  err : EdgeError → EdgeResult

-- `for _, p := range points { if p.Type == data.PointTypeTombstone && p.Value > 0 ... }`
unfoldable pub deletes : List Point → Bool
deletes [] = false
deletes (p ∷ ps) = (str_eq p.typ point_type_tombstone && f64_lt f64_zero p.value) || deletes ps

-- The loop of `edgePoints` takes the points of type nodeType out, and keeps the last text.
unfoldable pub node_type_of : String → List Point → String
node_type_of typ [] = typ
node_type_of typ (p ∷ ps) =
    node_type_of (if str_eq p.typ point_type_node_type then p.text else typ) ps

unfoldable pub without_node_type : List Point → List Point
without_node_type [] = []
without_node_type (p ∷ ps) =
    let rest = without_node_type ps in if str_eq p.typ point_type_node_type then rest else p ∷ rest

-- SELECT * FROM edges WHERE up=? AND down=?, the first row
unfoldable pub find_edge : String → String → List EdgeRow → Option EdgeRow
find_edge up down [] = none
find_edge up down (e ∷ es) =
    if str_eq e.up up && str_eq e.down down then some e else find_edge up down es

-- `hashUpdate ^= p.CRC()` for each row of a node
unfoldable pub xor_rows : ℕ → List PointRow → ℕ
xor_rows h [] = h
xor_rows h (r ∷ rs) = xor_rows (h ⊕ crc r.point) rs

unfoldable pub edge_result : Db → Option (List EdgeRow) → EdgeResult
edge_result db none = err out_of_fuel
edge_result db (some es) = ok (record db { edges = es })

module _ (now : ℕ) (uuid : ℕ → String) (iterate : List Point → List Point) (fuel : ℕ) where
  unfoldable pub finish_edge : Db → String → ℕ → EdgeResult
  unfolding edge_result
  finish_edge db node_id u = edge_result db (update_hash fuel db.edges node_id u)

  -- The rest of the transaction once the edge is known (`uuid 0` is the ID of a new one).
  unfoldable pub write_edge : Option EdgeRow → Db → String → String → List Point → EdgeResult
  unfolding plan_points upsert_all finish_edge
  write_edge (some e) db node_id parent points =
      let plan =
        plan_points now uuid 1 (rows_of e.id db.edge_points) (without_node_type points) 0 in
      finish_edge (record db { edge_points = upsert_all e.id db.edge_points plan.writes }) node_id
        plan.hash_update
  write_edge none db node_id parent points =
      let plan =
        plan_points now uuid 1 (rows_of (uuid 0) db.edge_points) (without_node_type points) 0 in
      let typ = node_type_of "" points in
      let edge : EdgeRow = record {
        id = uuid 0;
        up = parent;
        down = node_id;
        hash = 0;
        typ = typ;
      } in
      if str_eq typ ""
      then err node_type_missing
      else finish_edge
          (record db {
            root_id = if str_eq parent "root" then node_id else db.root_id;
            edges = db.edges ++ (edge ∷ []);
            edge_points = upsert_all (uuid 0) db.edge_points plan.writes;
          })
          node_id (xor_rows plan.hash_update (rows_of node_id db.node_points))

  -- `edgePoints`
  unfoldable pub edge_points : Db → String → String → List Point → EdgeResult
  unfolding write_edge
  edge_points db node_id parent points =
      let pts = collapse iterate points in
      let up = if str_eq parent "" then "root" else parent in
      if str_eq node_id parent
      then err same_node
      else if str_eq node_id db.root_id && deletes pts
      then err root_deleted
      else write_edge (find_edge up node_id db.edges) db node_id up pts
