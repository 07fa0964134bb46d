-- ===== src/Store/Nodes.antt =====
-- store/sqlite.go, the queries: `edges`, `getNodes`, `userCheck`.
use simpleiot.Prelude.{
  ◌≡◌, refl, arith, ℕ, zero, suc, String, Bool, true, false, not, ◌&&◌, ◌||◌, List, [], ◌∷◌, ◌++◌,
  map, Option, none, some, str_eq, if◌then◌else◌, select,
}
use simpleiot.Prelude.Options.{◌>>=◌}
use simpleiot.Prelude.Float.{f64_eq, f64_zero}
use simpleiot.Data.Point.{Point, point_type_tombstone}
use simpleiot.Data.Node.{NodeEdge, is_tombstone, to_node, to_user}
use simpleiot.Store.{Db, EdgeRow, PointRow, rows_of, edges_down, edges_up}

unfoldable pub points_of : String → List PointRow → List Point
points_of id rows = map (λ r. r.point) (rows_of id rows)

-- The NodeEdge that `getNodes` makes of a row of edges.
unfoldable pub node_edge : Db → EdgeRow → NodeEdge
unfolding points_of
node_edge db e = record {
  id = e.down;
  typ = e.typ;
  hash = e.hash;
  parent = e.up;
  points = points_of e.down db.node_points;
  edge_points = points_of e.id db.edge_points;
}

-- The rows that the query of `getNodes` selects; `none` where it returns an error.
unfoldable pub query_edges : Db → String → String → Option (List EdgeRow)
query_edges db parent id =
    if str_eq parent "root"
    then some (edges_down db.root_id db.edges)
    else if str_eq parent "all" && str_eq id "all"
    then none
    else if str_eq parent "all"
    then some (edges_down id db.edges)
    else if str_eq id "all"
    then some (edges_up parent db.edges)
    else some (select (λ e. str_eq e.up parent && str_eq e.down id) db.edges)

-- `getNodes`; `none` is an error
unfoldable pub get_nodes : Db → String → String → String → Bool → Option (List NodeEdge)
unfolding query_edges
get_nodes db parent id typ include_del =
    if str_eq parent "" || str_eq parent "none" then none else do
      rows ← query_edges db parent (if str_eq id "" then "all" else id)
      some (
          select (λ n. include_del || not (is_tombstone n).0)
            (map (node_edge db) (select (λ e. str_eq typ "" || str_eq e.typ typ) rows)))

-- `for _, p := range e.Points { if p.Type == tombstone && p.Value != 0 { continue } }`:
-- the `continue` goes on with the next point, and nothing else happens.
unfoldable pub skip_tombstones : List Point → Bool
skip_tombstones [] = true
skip_tombstones (p ∷ ps) =
    if str_eq p.typ point_type_tombstone && not (f64_eq p.value f64_zero)
    then skip_tombstones ps
    else skip_tombstones ps

-- The loop of `checkUserPathRoot` over the edges of a node; `check` is its recursive call.
unfoldable pub check_edges : Db → (String → Option Bool) → List EdgeRow → Option Bool
check_edges db check [] = some false
check_edges db check (e ∷ es) =
    let rest = check_edges db check es in
    if skip_tombstones (points_of e.id db.edge_points)
    then (if str_eq e.up "root"
        then some true
        else (do ok ← check e.up; if ok then some true else rest))
    else rest

-- `checkUserPathRoot`, on fuel
unfoldable pub check_user_path_root : ℕ → Db → String → Option Bool
unfolding check_edges
check_user_path_root zero db id = none
check_user_path_root (suc f) db id =
    check_edges db (check_user_path_root f db) (edges_down id db.edges)

-- The nodes join `users` if the first of them is a user whose email and password fit.
unfoldable pub keep_user : String → String → Option (List NodeEdge) → List NodeEdge → List NodeEdge
keep_user email password none rest = rest
keep_user email password (some []) rest = rest
keep_user email password (some (n ∷ ns)) rest =
    let u = to_user (to_node n) in
    if str_eq u.email email && str_eq u.pass password then (n ∷ ns) ++ rest else rest

-- The loop over the edges of type user.
unfoldable pub matching_users : Db → String → String → List EdgeRow → List NodeEdge
unfolding keep_user
matching_users db email password [] = []
matching_users db email password (e ∷ es) =
    keep_user email password (get_nodes db "all" e.down "" false)
      (matching_users db email password es)

-- Those users that have a path to the root.
unfoldable pub with_path : ℕ → Db → List NodeEdge → Option (List NodeEdge)
with_path fuel db [] = some []
with_path fuel db (u ∷ us) = do
  ok ← check_user_path_root fuel db u.id
  rest ← with_path fuel db us
  some (if ok then u ∷ rest else rest)

-- `userCheck`
unfoldable pub user_check : ℕ → Db → String → String → Option (List NodeEdge)
unfolding matching_users with_path
user_check fuel db email password =
    with_path fuel db
      (matching_users db email password (select (λ e. str_eq e.typ "user") db.edges))

skip_tombstones-true : (ps : List Point) → skip_tombstones ps ≡ true
unfolding skip_tombstones
skip_tombstones-true [] = refl
skip_tombstones-true (p ∷ ps) = ground (arith, skip_tombstones-true ps)

check_edges-edge_points :
    (db : Db) (t : List PointRow) (check check' : String → Option Bool) (es : List EdgeRow)
    → ((id : String) → check id ≡ check' id)
    → check_edges db check es ≡ check_edges (record db { edge_points = t }) check' es
unfolding check_edges
check_edges-edge_points db t check check' [] eq = refl
check_edges-edge_points db t check check' (e ∷ es) eq =
    rw
      (
        skip_tombstones-true (points_of e.id db.edge_points),
        skip_tombstones-true (points_of e.id t),
        eq e.up,
        check_edges-edge_points db t check check' es eq,
      )
      refl

-- The search for a path to the root is the same whatever the points of the edges are, so it goes
-- along edges that are marked as deleted too.
pub check_user_path_root-edge_points :
    (fuel : ℕ) (db : Db) (t : List PointRow) (id : String)
    → check_user_path_root fuel db id ≡ check_user_path_root fuel (record db { edge_points = t }) id
unfolding check_user_path_root
check_user_path_root-edge_points zero db t id = refl
check_user_path_root-edge_points (suc f) db t id =
    check_edges-edge_points db t (check_user_path_root f db)
      (check_user_path_root f (record db { edge_points = t })) (edges_down id db.edges)
      (check_user_path_root-edge_points f db t)
