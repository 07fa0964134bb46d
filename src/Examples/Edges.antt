-- ===== src/Examples/Edges.antt =====
-- store/sqlite.go, `edgePoints`, on a node with one edge above it and on a mirrored node.
use mathlib.Core.List.{Memᴰ}
use simpleiot.Prelude.{ℕ, ◌≡◌, refl, false, ◌&&◌, [], ◌∷◌, arith, str_eq, eq_iff}
use simpleiot.Data.Point.{crc}
use simpleiot.Data.Points.{with_defaults}
use simpleiot.Data.Points.Collapse.{collapse, map_key, put_latest}
use simpleiot.Prelude.Crc32.{crc32, utf8_bytes, le_bytes}
use simpleiot.Prelude.Bits.{◌⊕◌}
use simpleiot.Prelude.Perms.{AllPairs}
use simpleiot.Store.{Db, EdgeRow, rows_of}
use simpleiot.Store.Hash.{children_hash}
use simpleiot.Store.Walk.{IsGraph}
use simpleiot.Store.Consistent.{IsHashed, IsRowOf}
use simpleiot.Store.Write.{
  edge_points, ok, find_edge, deletes, without_node_type, plan_points, plan_point, match_row,
}
use simpleiot.Store.Write.Planned.{owner_hash}
use simpleiot.Store.Write.Planned.Loop.{Differ}
use simpleiot.Store.Write.Hashes.{IsConsistent}
use simpleiot.Store.Write.EdgeHashes.{full_hash, edge_points-IsConsistent, edge_points-mirrored}
use simpleiot.Examples.Tables.{
  edge, depth, small, small-IsConsistent, tally, tally-IsInjective, sample, in_order,
}

samples-Differ_edge : AllPairs (Differ 9) (without_node_type (collapse in_order (sample 3 ∷ [])))
unfolding collapse map_key put_latest with_defaults without_node_type
samples-Differ_edge = (tt, tt)

keeps_node : (str_eq "sensor" "dev" && deletes (collapse in_order (sample 3 ∷ []))) ≡ false
keeps_node = refl

edge_points-IsConsistent_example :
    (db' : Db) × (edge_points 9 tally in_order 3 small "sensor" "dev" (sample 3 ∷ []) ≡ ok db')
    × IsConsistent depth db'
unfolding find_edge
edge_points-IsConsistent_example =
    edge_points-IsConsistent 9 tally in_order depth 3 small (edge "e2" "dev" "sensor")
      (sample 3 ∷ []) tally-IsInjective (λ j. tt) samples-Differ_edge (omega arith)
      small-IsConsistent (Memᴰ.tail (Memᴰ.head refl)) "dev" (λ e. cc ((eq_iff "sensor" "dev").1 e))
      keeps_node refl ((λ e. cc ((eq_iff "dev" "sensor").1 e)), ((λ e. refl), tt))

-- The sensor is also below the root.
abbrev mirrored : Db
mirrored = record small {
  edges = edge "e1" "root" "dev" ∷ edge "e2" "dev" "sensor" ∷ edge "e3" "root" "sensor" ∷ [];
}

mirrored-IsGraph : IsGraph depth mirrored.edges
mirrored-IsGraph = record {
  unique = (
    ((λ e. cc ((eq_iff "e1" "e2").1 e)), ((λ e. cc ((eq_iff "e1" "e3").1 e)), tt)),
    (((λ e. cc ((eq_iff "e2" "e3").1 e)), tt), (tt, tt)),
  );
  acyclic = (omega arith, (omega arith, (omega arith, tt)));
  named = (
    (λ e. cc ((eq_iff "none" "dev").1 e)),
    ((λ e. cc ((eq_iff "none" "sensor").1 e)), ((λ e. cc ((eq_iff "none" "sensor").1 e)), tt)),
  );
}

IsHashed-mirrored : IsHashed (owner_hash []) (owner_hash []) mirrored.edges
unfolding children_hash owner_hash
IsHashed-mirrored e (Memᴰ.head p) = rw p refl
IsHashed-mirrored e (Memᴰ.tail (Memᴰ.head p)) = rw p refl
IsHashed-mirrored e (Memᴰ.tail (Memᴰ.tail (Memᴰ.head p))) = rw p refl
IsHashed-mirrored e (Memᴰ.tail (Memᴰ.tail (Memᴰ.tail m))) = elim m [ ]

mirrored-IsConsistent : IsConsistent depth mirrored
mirrored-IsConsistent = record {
  rows_unique = tt;
  edge_rows_unique = tt;
  graph = mirrored-IsGraph;
  hashed = IsHashed-mirrored;
}

-- What the sample changes in the hash of the edge
abbrev sample_change : ℕ
sample_change =
    (plan_points 9 tally 1 (rows_of "e2" mirrored.edge_points)
      (without_node_type (collapse in_order (sample 3 ∷ []))) 0).hash_update

-- The CRC-32 of the sample, with its key "0"
sample_crc : sample_change ≡ 3408713266
unfolding crc crc32 utf8_bytes le_bytes plan_points plan_point match_row with_defaults collapse
    map_key put_latest without_node_type rows_of
sample_crc = refl

edge_points-mirrored_example :
    (db' : Db) × (edge_points 9 tally in_order 3 mirrored "sensor" "dev" (sample 3 ∷ []) ≡ ok db')
    × ((e : EdgeRow) × Memᴰ e db'.edges
        × IsRowOf e (edge "e3" "root" "sensor")
        × (e.hash ≡ full_hash db' e ⊕ sample_change))
    × (¬ IsConsistent depth db')
unfolding find_edge
edge_points-mirrored_example =
    edge_points-mirrored 9 tally in_order depth 3 mirrored (edge "e2" "dev" "sensor")
      (sample 3 ∷ []) tally-IsInjective (λ j. tt) samples-Differ_edge (omega arith)
      mirrored-IsConsistent (Memᴰ.tail (Memᴰ.head refl)) "dev"
      (λ e. cc ((eq_iff "sensor" "dev").1 e)) keeps_node refl (edge "e3" "root" "sensor")
      (Memᴰ.tail (Memᴰ.tail (Memᴰ.head refl))) refl (λ e. cc ((eq_iff "e2" "e3").1 e))
      (λ e. absurd (omega (arith, e, sample_crc)))
