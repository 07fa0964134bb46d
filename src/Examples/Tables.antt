-- ===== src/Examples/Tables.antt =====
-- store/sqlite.go on a small tree: the root, a device below it and a sensor below the device.
use mathlib.Core.List.{Memᴰ}
use simpleiot.Prelude.{
  ℕ, zero, suc, String, ◌≡◌, refl, ap, true, false, List, [], ◌∷◌, map, some, arith, if◌then◌else◌,
  str_eq, eq_iff,
}
use simpleiot.Prelude.Float.{f64_one}
use simpleiot.Data.Point.{Point, zero_point}
use simpleiot.Data.Points.{with_defaults}
use simpleiot.Data.Points.Collapse.{collapse, map_key, put_latest}
use simpleiot.Prelude.Perms.{AllPairs}
use simpleiot.Store.{Db, EdgeRow, update_hash}
use simpleiot.Store.Hash.{children_hash}
use simpleiot.Store.Walk.{IsGraph}
use simpleiot.Store.Consistent.{IsHashed, changed, unhashed, update_hash-IsHashed}
use simpleiot.Store.Nodes.{node_edge, check_user_path_root, check_user_path_root-edge_points}
use simpleiot.Store.Verify.{IsPlainId, verify_node, verify_node-consistent}
use simpleiot.Store.Write.{node_points}
use simpleiot.Store.Write.Planned.{owner_hash}
use simpleiot.Store.Write.Planned.Loop.{Differ, IsInjective}
use simpleiot.Store.Write.Hashes.{IsConsistent, node_points-IsConsistent}

abbrev pub edge : String → String → String → EdgeRow
edge id up down = record { id = id; up = up; down = down; hash = 0; typ = "device" }

abbrev pub tree : List EdgeRow
tree = edge "e1" "root" "dev" ∷ edge "e2" "dev" "sensor" ∷ []

abbrev pub depth : String → ℕ
depth id = if str_eq id "root" then 0 else if str_eq id "dev" then 1 else 2

abbrev pub small : Db
small = record { root_id = "dev"; edges = tree; node_points = []; edge_points = [] }

plain_id :
    (id : String)
    → str_eq id "" ≡ false
    → str_eq id "none" ≡ false
    → str_eq id "root" ≡ false
    → str_eq id "all" ≡ false
    → IsPlainId id
plain_id id a b c d = (
  (λ e. cc (a, (eq_iff _ _).1 e)),
  (λ e. cc (b, (eq_iff _ _).1 e)),
  (λ e. cc (c, (eq_iff _ _).1 e)),
  (λ e. cc (d, (eq_iff _ _).1 e)),
)

pub tree-IsGraph : IsGraph depth tree
tree-IsGraph = record {
  unique = (((λ e. cc ((eq_iff "e1" "e2").1 e)), tt), (tt, tt));
  acyclic = (omega arith, (omega arith, tt));
  named = ((λ e. cc ((eq_iff "none" "dev").1 e)), ((λ e. cc ((eq_iff "none" "sensor").1 e)), tt));
}

-- With no points at all every hash is 0.
IsHashed-tree : IsHashed (owner_hash []) (owner_hash []) tree
unfolding children_hash owner_hash
IsHashed-tree e (Memᴰ.head p) = rw p refl
IsHashed-tree e (Memᴰ.tail (Memᴰ.head p)) = rw p refl
IsHashed-tree e (Memᴰ.tail (Memᴰ.tail m)) = elim m [ ]

pub small-IsConsistent : IsConsistent depth small
small-IsConsistent = record {
  rows_unique = tt;
  edge_rows_unique = tt;
  graph = tree-IsGraph;
  hashed = IsHashed-tree;
}

update_hash-IsHashed_example :
    (es : List EdgeRow) × (update_hash 3 tree "sensor" 5 ≡ some es)
    × IsHashed (changed (owner_hash []) "sensor" 5) (owner_hash []) es
    × IsGraph depth es
    × (map unhashed es ≡ map unhashed tree)
update_hash-IsHashed_example =
    update_hash-IsHashed depth (owner_hash []) (owner_hash []) tree "sensor" 5 3 tree-IsGraph
      (omega arith) IsHashed-tree

-- Row IDs: a letter for each point that was counted before.
unfoldable pub tally : ℕ → String
tally zero = String.[]
tally (suc n) = String.◌∷◌ "a" (tally n)

size : String → ℕ
size String.[] = 0
size (String.◌∷◌ c s) = suc (size s)

size-tally : (n : ℕ) → size (tally n) ≡ n
unfolding size tally
size-tally zero = refl
size-tally (suc n) = ap suc (size-tally n)

pub tally-IsInjective : IsInjective tally
tally-IsInjective i j h e = absurd (omega (arith, size-tally i, size-tally j, ap size e))

abbrev pub sample : ℕ → Point
sample v = record zero_point { typ = "temp"; time = 62135596800000000005; value = v }

abbrev pub level : Point
level = record zero_point { typ = "level"; value = 7 }

abbrev pub in_order : List Point → List Point
in_order m = m

pub samples-Differ : AllPairs (Differ 9) (collapse in_order (sample 3 ∷ level ∷ []))
unfolding collapse map_key put_latest with_defaults
samples-Differ = (((λ e f. cc ((eq_iff "temp" "level").1 e)), tt), (tt, tt))

node_points-IsConsistent_example :
    (db : Db) × (node_points 9 tally in_order 3 small "sensor" (sample 3 ∷ level ∷ []) ≡ some db)
    × IsConsistent depth db
node_points-IsConsistent_example =
    node_points-IsConsistent 9 tally in_order depth 3 small "sensor" (sample 3 ∷ level ∷ [])
      tally-IsInjective (λ j. tt) samples-Differ (omega arith) small-IsConsistent

verify_node-consistent_example :
    verify_node 3 true small (node_edge small (edge "e1" "root" "dev")) ≡ some []
verify_node-consistent_example =
    verify_node-consistent depth small small-IsConsistent
      ((plain_id "dev" refl refl refl refl), ((plain_id "sensor" refl refl refl refl), tt)) 3
      (omega arith) true 3 (edge "e1" "root" "dev") (Memᴰ.head refl) (omega arith)

check_user_path_root-edge_points_example :
    check_user_path_root 3 small "sensor"
    ≡ check_user_path_root 3
        (record small {
          edge_points =
              record {
                id = "p";
                owner = "e1";
                point = record zero_point { typ = "tombstone"; key = "0"; value = f64_one };
              }
              ∷ [];
        })
        "sensor"
check_user_path_root-edge_points_example =
    check_user_path_root-edge_points 3 small
      (record {
        id = "p";
        owner = "e1";
        point = record zero_point { typ = "tombstone"; key = "0"; value = f64_one };
      }
        ∷ [])
      "sensor"
