-- ===== src/Client/Sync/Ends/Walks.antt =====
-- client/sync.go: the walks down the tree end.
use simpleiot.Prelude.{
  ℕ, zero, suc, ◌<◌, String, Bool, true, false, List, All, arith, str_eq, ◌||◌, Bool-cases, inl,
  inr,
}
use simpleiot.Data.Node.{NodeEdge}
use simpleiot.Data.Point.{Point}
use simpleiot.Client.Sync.{
  Connection, nc, nc_local, nc_remote, Bus, SyncError, id_missing, parent_missing, sending_node,
  sending_edge, node_children, Act, ◌>>=◌, stop, check, call, each, nodes_or, get_nodes_or,
  subscribe_remote_node, subscribe_remote_node_points, subscribe_remote_edge_points, has_key,
}
use simpleiot.Client.Sync.Nodes.{
  send_both, send_node, below_root, send_nodes_remote, send_nodes_local, filled, sent_edge_points,
}
use simpleiot.Client.Sync.Ends.{
  Ends, Any, bind-Ends, seq-Ends, check-Ends, if-Ends, each-Ends, nodes, nodes_or-Ends, All-imp,
  IsAcyclic,
}

module _ {W : Type 0} (bus : Bus W) where
  pub get_nodes_or-Ends :
      (P : NodeEdge → Type 0) (e : SyncError) (c : Connection) (parent id : String) (deleted : Bool)
      → ((w : W) → All P (nodes (bus.get_nodes c parent id deleted w).0))
      → Ends (All P) (get_nodes_or bus e c parent id deleted)
  unfolding get_nodes_or
  get_nodes_or-Ends P e c parent id deleted h =
      bind-Ends (λ r. All P (nodes r)) (All P) (call (bus.get_nodes c parent id deleted))
        (nodes_or e) (λ s. h s.world) (λ r k. nodes_or-Ends P e r k)

  pub call-Ends : {A : Type 0} (f : W → A × W) → Ends Any (call f)
  call-Ends f s = tt

  send_both-Ends :
      (c : Connection) (node : NodeEdge) (points : List Point) (edge_points_at : ℕ → List Point)
      → Ends Any (send_both bus c node points edge_points_at)
  unfolding send_both
  send_both-Ends c node points edge_points_at =
      bind-Ends Any Any (call (bus.send_node_points c node.id points)) _
        (call-Ends (bus.send_node_points c node.id points))
        (λ ok p. seq-Ends Any Any (check sending_node ok) _ (check-Ends sending_node ok) (
          bind-Ends Any Any
            (call (λ w. bus.send_edge_points c node.id node.parent (edge_points_at (bus.now w)) w))
            (check sending_edge)
            (call-Ends
              (λ w. bus.send_edge_points c node.id node.parent (edge_points_at (bus.now w)) w))
            (λ ok' p'. check-Ends sending_edge ok')))

  pub stop-Ends : (e : SyncError) → Ends {A = Unit} {W = W} Any (stop e)
  stop-Ends e s = tt

  pub send_node-Ends :
      (c : Connection) (node : NodeEdge) (origin : String) → Ends Any (send_node bus c node origin)
  unfolding send_node
  send_node-Ends c node origin =
      if-Ends {A = Unit} {W = W} Any (str_eq node.id "") (stop id_missing) _ (stop-Ends id_missing)
        (if-Ends {A = Unit} {W = W} Any (str_eq node.parent "" || str_eq node.parent "none")
          (stop parent_missing) _ (stop-Ends parent_missing)
          (send_both-Ends c node (filled origin node.points) (sent_edge_points node origin)))

  subscribe_remote_node_points-Ends : (id : String) → Ends Any (subscribe_remote_node_points bus id)
  unfolding subscribe_remote_node_points
  subscribe_remote_node_points-Ends id s = elim (Bool-cases (has_key id s.sub_remote_node_points)) [
    | inl t ↦ rw t tt
    | inr t ↦ rw t (check-Ends _ _ _)
  ]

  subscribe_remote_edge_points-Ends :
      (parent id : String) → Ends Any (subscribe_remote_edge_points bus parent id)
  unfolding subscribe_remote_edge_points
  subscribe_remote_edge_points-Ends parent id s =
      elim (Bool-cases (has_key id s.sub_remote_edge_points)) [
        | inl t ↦ rw t tt
        | inr t ↦ rw t (check-Ends _ _ _)
      ]

  module _ (rank : String → ℕ) (acyclic : IsAcyclic bus rank) where
    children_below :
        (e : SyncError) (c : Connection) (id : String) (deleted : Bool) (f : NodeEdge → Act W Unit)
        → ((n : NodeEdge) → rank n.id < rank id → Ends Any (f n))
        → Ends Any (get_nodes_or bus e c id "all" deleted >>= λ ns. each f ns)
    children_below e c id deleted f h =
        bind-Ends (All (λ n. Ends Any (f n))) Any (get_nodes_or bus e c id "all" deleted)
          (λ ns. each f ns)
          (get_nodes_or-Ends (λ n. Ends Any (f n)) e c id "all" deleted
            (λ w. All-imp _ _ _ (λ n k. h n k.1) (acyclic.below c id deleted w)))
          (λ ns k. each-Ends f ns k)

    pub subscribe_remote_node-Ends :
        (f : ℕ) (parent id : String)
        → rank id < f
        → Ends Any (subscribe_remote_node bus f parent id)
    unfolding subscribe_remote_node
    subscribe_remote_node-Ends zero parent id h s = absurd (omega arith)
    subscribe_remote_node-Ends (suc f) parent id h s =
        seq-Ends Any Any (subscribe_remote_node_points bus id) _
          (subscribe_remote_node_points-Ends id)
          (seq-Ends Any Any (subscribe_remote_edge_points bus parent id) _
            (subscribe_remote_edge_points-Ends parent id)
            (children_below node_children nc_local id true
              (λ c. subscribe_remote_node bus f c.parent c.id)
              (λ n k. subscribe_remote_node-Ends f n.parent n.id (omega arith))))
          s

    pub send_nodes_remote-Ends :
        (f : ℕ) (node : NodeEdge) → rank node.id < f → Ends Any (send_nodes_remote bus f node)
    unfolding send_nodes_remote
    send_nodes_remote-Ends zero node h s = absurd (omega arith)
    send_nodes_remote-Ends (suc f) node h s =
        seq-Ends Any Any (send_node bus nc_remote (below_root bus s node) s.config.id) _
          (send_node-Ends nc_remote (below_root bus s node) s.config.id)
          (children_below node_children nc node.id false (send_nodes_remote bus f)
            (λ n k. send_nodes_remote-Ends f n (omega arith)))
          s

    pub send_nodes_local-Ends :
        (f : ℕ) (node : NodeEdge) → rank node.id < f → Ends Any (send_nodes_local bus f node)
    unfolding send_nodes_local
    send_nodes_local-Ends zero node h s = absurd (omega arith)
    send_nodes_local-Ends (suc f) node h s =
        seq-Ends Any Any (send_node bus nc_local node s.config.id) _
          (send_node-Ends nc_local node s.config.id)
          (children_below node_children nc node.id false (send_nodes_local bus f)
            (λ n k. send_nodes_local-Ends f n (omega arith)))
          s
