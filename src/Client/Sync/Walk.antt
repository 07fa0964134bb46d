-- ===== src/Client/Sync/Walk.antt =====
-- client/sync.go, `syncNode`, in its parts: the node itself, its points, its children.
use simpleiot.Prelude.{
  ℕ, zero, suc, String, Bool, true, false, List, [], ◌∷◌, map, str_eq, if◌then◌else◌, ◌==◌,
}
use simpleiot.Prelude.Float.{f64_zero}
use simpleiot.Data.Point.{zero_point, point_type_tombstone}
use simpleiot.Data.Node.{NodeEdge}
use simpleiot.Client.Sync.{
  nc, nc_local, nc_remote, Reply, found, not_found, failed, Bus, local_node, local_nodes_not_found,
  upstream_node, undeleting, local_children, upstream_children, out_of_fuel, Act, ◌>>=◌, ◌>>◌,
  return, stop, logged, check, call, get_nodes_or, subscribe_remote_node,
}
use simpleiot.Client.Sync.Exchange.{exchange}
use simpleiot.Client.Sync.Nodes.{
  Marked, all_deleted, compared_hash, send_nodes_remote, send_nodes_local, find_root_remote,
  subscribe_up, count_sync, send_all, transfer_point, transfer_edge_point,
}

module _ {W : Type 0} (bus : Bus W) (of_int : ℕ → ℕ) (fuel : ℕ) where
  -- A local child against all remote children: each of the same ID with another hash is synchronised.
  unfoldable pub match_child : Act W Unit → NodeEdge → Marked → Act W (Bool × Marked)
  match_child sync child [] = return (false, [])
  match_child sync child ((m, up_child) ∷ ups) =
      if str_eq child.id up_child.id
      then (do
        if child.hash == up_child.hash then return tt else logged sync
        (hit, ups') ← match_child sync child ups
        return (true, (true, up_child) ∷ ups'))
      else (do (hit, ups') ← match_child sync child ups; return (hit, (m, up_child) ∷ ups'))

  -- A child that the remote store does not have is sent.
  unfoldable pub new_child : Bool → NodeEdge → Act W Unit
  new_child hit child = if hit then return tt else (do
    logged (send_nodes_remote bus fuel child)
    logged (subscribe_remote_node bus fuel child.parent child.id))

  -- The loop over the local children; `sync` is `syncNode`.
  unfoldable pub children_loop : (NodeEdge → Act W Unit) → List NodeEdge → Marked → Act W Marked
  unfolding match_child new_child
  children_loop sync [] ups = return ups
  children_loop sync (child ∷ children) ups = do
    (hit, ups') ← match_child (sync child) child ups
    new_child hit child
    children_loop sync children ups'

  -- A child that the local store does not have is sent.
  unfoldable pub new_up_child : Bool → NodeEdge → Act W Unit
  new_up_child m up_child = if m then return tt else (do
    logged (send_nodes_local bus fuel up_child)
    logged (subscribe_remote_node bus fuel up_child.parent up_child.id))

  -- The loop over the remote children that do not exist locally
  unfoldable pub up_children_loop : Marked → Act W Unit
  unfolding new_up_child
  up_children_loop [] = return tt
  up_children_loop ((m, up_child) ∷ ups) = do new_up_child m up_child; up_children_loop ups

  -- The part on children
  unfoldable pub sync_children : (NodeEdge → Act W Unit) → NodeEdge → NodeEdge → Act W Unit
  unfolding children_loop up_children_loop get_nodes_or
  sync_children sync local up = do
    children ← get_nodes_or bus local_children nc_local local.id "all" false
    up_children ← get_nodes_or bus upstream_children nc_remote up.id "all" false
    ups ← children_loop sync children (map (λ n. (false, n)) up_children)
    up_children_loop ups

  -- The points of the edges, but not of those of the roots
  unfoldable pub sync_edge_points : Bool → NodeEdge → NodeEdge → Act W Unit
  sync_edge_points is_root local up =
      if is_root
      then return tt
      else send_all bus (transfer_edge_point bus local up)
          (exchange local.edge_points up.edge_points)

  -- A node that both stores have; for the root the points of the edge are left out.
  unfoldable pub sync_found : (NodeEdge → Act W Unit) → NodeEdge → NodeEdge → Act W Unit
  unfolding sync_children sync_edge_points
  sync_found sync local up s =
      let is_root = str_eq local.id s.root_local.id in
      (if compared_hash is_root up == compared_hash is_root local then return tt else (do
        count_sync bus of_int is_root
        send_all bus (transfer_point bus local up) (exchange local.points up.points)
        sync_edge_points is_root local up
        sync_children sync local up))
        s

  -- A node of which all remote edges are deleted is restored.
  unfoldable pub undelete : NodeEdge → Act W Unit
  undelete up = do
    ok ← call (λ w.
        bus.send_edge_points nc_remote up.id up.parent
          (record zero_point { time = bus.now w; typ = point_type_tombstone; value = f64_zero }
            ∷ [])
          w)
    check undeleting ok

  -- A node that the remote store does not have is sent; the subscription gets the ID for the
  -- parent and the parent for the ID.
  unfoldable pub send_new : NodeEdge → Act W Unit
  send_new local = do
    send_nodes_remote bus fuel local
    subscribe_remote_node bus fuel local.id local.parent

  -- The three cases of a local node
  unfoldable pub sync_with : (NodeEdge → Act W Unit) → NodeEdge → List NodeEdge → Act W Unit
  unfolding sync_found undelete send_new
  sync_with sync local [] = send_new local
  sync_with sync local (up ∷ ups) =
      if all_deleted (up ∷ ups) then undelete up else sync_found sync local up

  -- The remote nodes; that there are none is no error.
  unfoldable pub upstream_nodes : Reply → Act W (List NodeEdge)
  upstream_nodes (found ns) = return ns
  upstream_nodes not_found = return []
  upstream_nodes failed = stop upstream_node

  unfoldable pub with_first : (NodeEdge → Act W Unit) → List NodeEdge → Act W Unit
  with_first f [] = stop local_nodes_not_found
  with_first f (n ∷ ns) = f n

  -- `syncNode`, on fuel
  unfoldable pub sync_node : ℕ → String → String → Act W Unit
  unfolding sync_with upstream_nodes with_first find_root_remote subscribe_up get_nodes_or
  sync_node zero parent id s = out_of_fuel
  sync_node (suc f) parent id s =
      let parent' = if str_eq parent "root" then "all" else parent in
      (do
        find_root_remote bus
        subscribe_up bus
        node_locals ← get_nodes_or bus local_node nc parent' id true
        with_first
            (λ local. do
              reply ← call (bus.get_nodes nc_remote parent' id true)
              ups ← upstream_nodes reply
              sync_with (λ child. sync_node f local.id child.id) local ups)
            node_locals)
        s
