-- ===== src/Client/Sync/Nodes.antt =====
-- client/sync.go: nodes that are sent whole, and `syncNode`; client/node.go: `SendNode`. Methods
-- that recurse are on fuel: on a cycle of edges they do not end.
use simpleiot.Prelude.{
  ℕ, zero, suc, ◌+◌, ◌%◌, ◌^◌, String, Bool, true, false, not, List, [], ◌∷◌, ◌++◌, str_eq, ◌||◌,
  if◌then◌else◌,
}
use simpleiot.Data.Point.{Point, zero_point, point_type_tombstone, point_type_node_type}
use simpleiot.Data.Node.{NodeEdge, is_tombstone, xor_points}
use simpleiot.Client.Sync.{
  Connection, nc, nc_local, nc_remote, Reply, found, not_found, failed, up_edge_points, Bus,
  SyncClient, upstream_root, id_missing, parent_missing, sending_node, sending_edge, node_children,
  out_of_fuel, Act, ◌>>=◌, ◌>>◌, return, stop, check, call, each, get_nodes_or,
}
use simpleiot.Client.Sync.Exchange.{Transfer, to_remote, to_local}

-- `if node.Points[i].Origin == "" { node.Points[i].Origin = origin }`, for all points
unfoldable pub fill_origin : String → List Point → List Point
fill_origin origin [] = []
fill_origin origin (p ∷ ps) =
    (if str_eq p.origin "" then record p { origin = origin } else p) ∷ fill_origin origin ps

-- An edge always has a tombstone.
unfoldable pub with_tombstone : ℕ → String → List Point → List Point
with_tombstone now origin [] =
    record zero_point { time = now; typ = point_type_tombstone; origin = origin } ∷ []
with_tombstone now origin (p ∷ ps) = p ∷ ps

-- The points as `SendNode` sends them
unfoldable pub filled : String → List Point → List Point
unfolding fill_origin
filled origin ps = if str_eq origin "" then ps else fill_origin origin ps

-- The points of the edge as `SendNode` sends them, with the type of the node
unfoldable pub sent_edge_points : NodeEdge → String → ℕ → List Point
unfolding filled with_tombstone
sent_edge_points node origin now =
    with_tombstone now origin (filled origin node.edge_points)
    ++ (record zero_point { typ = point_type_node_type; text = node.typ; origin = origin } ∷ [])

-- `NodeEdge{}`, the root of an unknown store
abbrev pub no_node : NodeEdge
no_node = record { id = ""; typ = ""; hash = 0; parent = ""; points = []; edge_points = [] }

-- Whether all edges to the node are deleted
unfoldable pub all_deleted : List NodeEdge → Bool
unfolding is_tombstone
all_deleted [] = true
all_deleted (n ∷ ns) = if not (is_tombstone n).0 then false else all_deleted ns

-- The hash of a node without the points of its edge, for the root
unfoldable pub compared_hash : Bool → NodeEdge → ℕ
unfolding xor_points
compared_hash is_root n = if is_root then xor_points n.hash n.edge_points else n.hash

-- The remote children, with `upChildProcessed`
abbrev pub Marked : Type 0
Marked = List (Bool × NodeEdge)

module _ {W : Type 0} (bus : Bus W) where
  -- The two messages of `SendNode`: the points, and the points of the edge at a time
  unfoldable pub send_both : Connection → NodeEdge → List Point → (ℕ → List Point) → Act W Unit
  unfolding check
  send_both c node points edge_points_at = do
    ok ← call (bus.send_node_points c node.id points)
    check sending_node ok
    ok' ← call (λ w. bus.send_edge_points c node.id node.parent (edge_points_at (bus.now w)) w)
    check sending_edge ok'

  -- `SendNode`
  unfoldable pub send_node : Connection → NodeEdge → String → Act W Unit
  unfolding send_both filled sent_edge_points
  send_node c node origin =
      if str_eq node.id ""
      then stop id_missing
      else if str_eq node.parent "" || str_eq node.parent "none"
      then stop parent_missing
      else send_both c node (filled origin node.points) (sent_edge_points node origin)

  -- A root goes below the root of the remote store.
  unfoldable pub below_root : SyncClient W → NodeEdge → NodeEdge
  below_root s node =
      if str_eq node.parent "root" then record node { parent = s.root_remote.id } else node

  -- `sendNodesRemote`
  unfoldable pub send_nodes_remote : ℕ → NodeEdge → Act W Unit
  unfolding send_node below_root get_nodes_or each
  send_nodes_remote zero node s = out_of_fuel
  send_nodes_remote (suc f) node s =
      (do
        send_node nc_remote (below_root s node) s.config.id
        children ← get_nodes_or bus node_children nc node.id "all" false
        each (send_nodes_remote f) children)
        s

  -- `sendNodesLocal`: the children are those that the local store has.
  unfoldable pub send_nodes_local : ℕ → NodeEdge → Act W Unit
  unfolding send_node get_nodes_or each
  send_nodes_local zero node s = out_of_fuel
  send_nodes_local (suc f) node s =
      (do
        send_node nc_local node s.config.id
        children ← get_nodes_or bus node_children nc node.id "all" false
        each (send_nodes_local f) children)
        s

  unfoldable pub keep_root : Reply → Act W Unit
  keep_root (found (n ∷ ns)) s = return tt (record s { root_remote = n })
  keep_root (found []) s = stop upstream_root (record s { root_remote = no_node })
  keep_root not_found s = stop upstream_root (record s { root_remote = no_node })
  keep_root failed s = stop upstream_root (record s { root_remote = no_node })

  -- The root of the remote store, with `GetRootNode`, if it is not known yet
  unfoldable pub find_root_remote : Act W Unit
  unfolding keep_root
  find_root_remote s =
      (if str_eq s.root_remote.id ""
          then (do reply ← call (bus.get_nodes nc_remote "root" "all" false); keep_root reply)
          else return tt)
        s

  -- The subscription to new nodes below the local root; an error is logged.
  unfoldable pub subscribe_up : Act W Unit
  subscribe_up s =
      if s.sub_remote_up
      then return tt s
      else (let (ok, w) = bus.subscribe (up_edge_points s.root_local.id) s.world in
          return tt (record s { sub_remote_up = ok; world = w }))

  -- The count of a sync, which is stored as a point; `of_int` converts it to a float.
  unfoldable pub count_sync : (ℕ → ℕ) → Bool → Act W Unit
  count_sync of_int is_root s =
      if is_root
      then (let count = (s.config.sync_count + 1) % 2 ^ 64 in
          let s' = record s { config = record s.config { sync_count = count } } in
          (do
            ok ← call (
                bus.send_node_points nc s.config.id
                  (record zero_point { typ = "syncCount"; value = of_int count } ∷ []))
            return tt)
            s')
      else return tt s

  -- The transfers in their order; errors are logged.
  unfoldable pub send_all : (Transfer → W → Bool × W) → List Transfer → Act W Unit
  send_all send [] = return tt
  send_all send (t ∷ ts) = do ok ← call (send t); send_all send ts

  unfoldable pub transfer_point : NodeEdge → NodeEdge → Transfer → W → Bool × W
  transfer_point local up (to_remote p) = bus.send_node_points nc_remote up.id (p ∷ [])
  transfer_point local up (to_local p) = bus.send_node_points nc local.id (p ∷ [])

  unfoldable pub transfer_edge_point : NodeEdge → NodeEdge → Transfer → W → Bool × W
  transfer_edge_point local up (to_remote p) =
      bus.send_edge_points nc_remote up.id up.parent (p ∷ [])
  transfer_edge_point local up (to_local p) = bus.send_edge_points nc local.id local.parent (p ∷ [])
