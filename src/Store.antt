-- ===== src/Store.antt =====
-- store/sqlite.go: the tables, and how points are written to them.
--
-- A table is a list of rows; `SELECT ... WHERE c = ?` takes the rows whose column is equal, and
-- nothing that is proved depends on the order of the rows. Within the transactions modelled here
-- each statement succeeds: a driver error rolls the transaction back, which leaves the tables as
-- they were.
pub mod Hash
pub mod Walk
pub mod Consistent
pub mod Write
pub mod Nodes
pub mod Verify
pub mod Handlers
use Prim.Native.Nat.{bit_xor}
use simpleiot.Prelude.{
  ℕ, zero, suc, ◌+◌, String, Bool, true, false, not, ◌&&◌, List, [], ◌∷◌, ◌++◌, map, Option, none,
  some, str_eq, ltb, ◌==◌, ◌||◌, if◌then◌else◌, select,
}
use simpleiot.Prelude.Options.{◌>>=◌}
use simpleiot.Data.Point.{Point, crc, from_unix_nano, unix_nano}

-- A row of node_points or edge_points; `owner` is the column node_id or edge_id.
pub record PointRow : Type 0 where
  pub id : String
  pub owner : String
  pub point : Point

-- A row of edges.
pub record EdgeRow : Type 0 where
  pub id : String
  pub up : String
  pub down : String
  pub hash : ℕ
  pub typ : String

-- The tables; `root_id` is the column of meta and the field `meta.RootID`.
pub record Db : Type 0 where
  pub root_id : String
  pub edges : List EdgeRow
  pub node_points : List PointRow
  pub edge_points : List PointRow

-- SELECT * FROM edges WHERE down = ?, and WHERE up = ?
unfoldable pub edges_down : String → List EdgeRow → List EdgeRow
edges_down id = select (λ e. str_eq e.down id)

unfoldable pub edges_up : String → List EdgeRow → List EdgeRow
edges_up id = select (λ e. str_eq e.up id)

-- SELECT * FROM node_points WHERE node_id = ?, and so for edge_points
unfoldable pub rows_of : String → List PointRow → List PointRow
rows_of id = select (λ r. str_eq r.owner id)

-- The point that comes out of a row: its time went through an integer column.
unfoldable pub column_form : Point → Point
column_form p = record p { time = from_unix_nano (unix_nano p.time) }

-- The `cache` of `updateHash`, a Go map from edge IDs to hashes.
abbrev pub Cache : Type 0
Cache = List (String × ℕ)

unfoldable pub cached : Cache → String → Option ℕ
cached [] k = none
cached ((j, v) ∷ c) k = if str_eq j k then some v else cached c k

unfoldable pub cache_put : Cache → String → ℕ → Cache
cache_put [] k v = (k, v) ∷ []
cache_put ((j, w) ∷ c) k v = if str_eq j k then (j, v) ∷ c else (j, w) ∷ cache_put c k v

abbrev pub or_else : Option ℕ → ℕ → ℕ
or_else none h = h
or_else (some v) h = v

-- The hash of an edge as the walk sees it: the cached one, else the one of the row.
unfoldable pub current : Cache → EdgeRow → ℕ
current c e = or_else (cached c e.id) e.hash

-- `if _, ok := cache[e.ID]; !ok { cache[e.ID] = e.Hash }; cache[e.ID] ^= hashUpdate`
unfoldable pub bump : ℕ → Cache → EdgeRow → Cache
unfolding cache_put current
bump u c e = cache_put c e.id (bit_xor (current c e) u)

-- `if e.Up != "none" { updateHashHelper(tx, e.Up, ...) }`; `walk` is that recursive call.
unfoldable pub climb : (String → Cache → Option Cache) → EdgeRow → Cache → Option Cache
climb walk e c = if not (str_eq e.up "none") then walk e.up c else some c

-- The loop of `updateHashHelper` over the edges of one node.
unfoldable pub walk_edges :
    (String → Cache → Option Cache) → ℕ → List EdgeRow → Cache → Option Cache
unfolding climb
walk_edges walk u [] c = some c
walk_edges walk u (e ∷ es) c = do c' ← climb walk e (bump u c e); walk_edges walk u es c'

-- `updateHashHelper`, on fuel: it does not end on a cycle of edges.
unfoldable pub update_hash_helper : ℕ → List EdgeRow → String → ℕ → Cache → Option Cache
unfolding walk_edges
update_hash_helper zero edges id u c = none
update_hash_helper (suc f) edges id u c =
    walk_edges (λ id' c'. update_hash_helper f edges id' u c') u (edges_down id edges) c

-- UPDATE edges SET hash = ? WHERE id = ?, for every entry of the cache
unfoldable pub write_back : Cache → List EdgeRow → List EdgeRow
unfolding current
write_back c [] = []
write_back c (e ∷ es) = record e { hash = current c e } ∷ write_back c es

-- `updateHash`
unfoldable pub update_hash : ℕ → List EdgeRow → String → ℕ → Option (List EdgeRow)
update_hash fuel edges id u = do
  c ← update_hash_helper fuel edges id u []
  some (write_back c edges)
