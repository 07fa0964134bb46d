-- ===== src/Client/Sync/Ends/Children.antt =====
-- client/sync.go: the part of `syncNode` on children ends, if `syncNode` does for each child.
use simpleiot.Prelude.{
  ℕ, ◌<◌, ◌≢◌, String, Bool, true, false, List, [], ◌∷◌, map, if◌then◌else◌, All, str_eq, ◌==◌,
}
use simpleiot.Data.Node.{NodeEdge}
use simpleiot.Client.Sync.{
  nc_local, nc_remote, Bus, local_children, upstream_children, Act, return, logged, ◌>>◌,
  get_nodes_or, subscribe_remote_node,
}
use simpleiot.Client.Sync.Nodes.{Marked, send_nodes_remote, send_nodes_local}
use simpleiot.Client.Sync.Walk.{
  match_child, new_child, children_loop, new_up_child, up_children_loop, sync_children,
}
use simpleiot.Client.Sync.Ends.{
  Ends, Any, bind-Ends, seq-Ends, logged-Ends, if-Ends, return-Ends, All-imp, IsAcyclic,
}
use simpleiot.Client.Sync.Ends.Walks.{
  get_nodes_or-Ends, subscribe_remote_node-Ends, send_nodes_remote-Ends, send_nodes_local-Ends,
}

module _ {W : Type 0} (bus : Bus W) (of_int : ℕ → ℕ) where
  module _ (fuel : ℕ) (rank : String → ℕ) (acyclic : IsAcyclic bus rank)
      (enough : (id : String) → rank id < fuel) where
    send_new_child-Ends :
        (parent id : String) (m : Act W Unit)
        → Ends Any m
        → Ends Any (do logged m; logged (subscribe_remote_node bus fuel parent id))
    send_new_child-Ends parent id m h =
        seq-Ends Any Any (logged m) (logged (subscribe_remote_node bus fuel parent id))
          (logged-Ends m h)
          (logged-Ends (subscribe_remote_node bus fuel parent id)
            (subscribe_remote_node-Ends bus rank acyclic fuel parent id (enough id)))

    new_child-Ends :
        (hit : Bool) (child : NodeEdge) → Ends Any (new_child bus of_int fuel hit child)
    unfolding new_child
    new_child-Ends true child = return-Ends Any tt tt
    new_child-Ends false child =
        send_new_child-Ends child.parent child.id (send_nodes_remote bus fuel child)
          (send_nodes_remote-Ends bus rank acyclic fuel child (enough child.id))

    new_up_child-Ends :
        (m : Bool) (child : NodeEdge) → Ends Any (new_up_child bus of_int fuel m child)
    unfolding new_up_child
    new_up_child-Ends true child = return-Ends Any tt tt
    new_up_child-Ends false child =
        send_new_child-Ends child.parent child.id (send_nodes_local bus fuel child)
          (send_nodes_local-Ends bus rank acyclic fuel child (enough child.id))

    match_child-Ends :
        (sync : Act W Unit) (child : NodeEdge) (ups : Marked)
        → Ends Any sync
        → Ends Any (match_child bus of_int fuel sync child ups)
    unfolding match_child
    match_child-Ends sync child [] h = return-Ends {A = Bool × Marked} Any (false, []) tt
    match_child-Ends sync child ((m, up_child) ∷ ups) h =
        if-Ends Any (str_eq child.id up_child.id) _ _
          (seq-Ends Any Any (if child.hash == up_child.hash then return tt else logged sync) _
            (if-Ends Any (child.hash == up_child.hash) (return tt) (logged sync)
              (return-Ends Any tt tt) (logged-Ends sync h))
            (bind-Ends Any Any (match_child bus of_int fuel sync child ups)
              (λ (hit, ups'). return (true, (true, up_child) ∷ ups'))
              (match_child-Ends sync child ups h) (λ a p s. tt)))
          (bind-Ends Any Any (match_child bus of_int fuel sync child ups)
            (λ (hit, ups'). return (hit, (m, up_child) ∷ ups')) (match_child-Ends sync child ups h)
            (λ a p s. tt))

    children_loop-Ends :
        (sync : NodeEdge → Act W Unit) (children : List NodeEdge) (ups : Marked)
        → All (λ c. Ends Any (sync c)) children
        → Ends Any (children_loop bus of_int fuel sync children ups)
    unfolding children_loop
    children_loop-Ends sync [] ups h = return-Ends Any ups tt
    children_loop-Ends sync (child ∷ children) ups h =
        bind-Ends Any Any (match_child bus of_int fuel (sync child) child ups) _
          (match_child-Ends (sync child) child ups h.0)
          (λ (hit, ups') p.
            seq-Ends Any Any (new_child bus of_int fuel hit child)
              (children_loop bus of_int fuel sync children ups') (new_child-Ends hit child)
              (children_loop-Ends sync children ups' h.1))

    up_children_loop-Ends : (ups : Marked) → Ends Any (up_children_loop bus of_int fuel ups)
    unfolding up_children_loop
    up_children_loop-Ends [] = return-Ends Any tt tt
    up_children_loop-Ends ((m, up_child) ∷ ups) =
        seq-Ends Any Any (new_up_child bus of_int fuel m up_child)
          (up_children_loop bus of_int fuel ups) (new_up_child-Ends m up_child)
          (up_children_loop-Ends ups)

    pub sync_children-Ends :
        (sync : NodeEdge → Act W Unit) (local up : NodeEdge)
        → ((n : NodeEdge) → n.id ≢ "all" → rank n.id < rank local.id → Ends Any (sync n))
        → Ends Any (sync_children bus of_int fuel sync local up)
    unfolding sync_children
    sync_children-Ends sync local up h =
        bind-Ends (All (λ n. Ends Any (sync n))) Any
          (get_nodes_or bus local_children nc_local local.id "all" false) _
          (get_nodes_or-Ends bus (λ n. Ends Any (sync n)) local_children nc_local local.id "all"
            false
            (λ w. All-imp _ _ _ (λ n k. h n k.0 k.1) (acyclic.below nc_local local.id false w)))
          (λ children k.
            bind-Ends (All Any) Any (get_nodes_or bus upstream_children nc_remote up.id "all" false)
              _
              (get_nodes_or-Ends bus Any upstream_children nc_remote up.id "all" false
                (λ w. All-imp _ _ _ (λ n k. tt) (acyclic.below nc_remote up.id false w)))
              (λ up_children k'.
                bind-Ends Any Any
                  (children_loop bus of_int fuel sync children (map (λ n. (false, n)) up_children))
                  (up_children_loop bus of_int fuel) (children_loop-Ends sync children _ k)
                  (λ ups p. up_children_loop-Ends ups)))
