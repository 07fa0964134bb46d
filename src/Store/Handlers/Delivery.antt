-- ===== src/Store/Handlers/Delivery.antt =====
-- store/store.go: the handlers of points, from the message to the store and to the nodes above.
use mathlib.Core.List.{Memᴰ}
use simpleiot.Prelude.{
  ℕ, ◌<◌, ◌≡◌, ◌≢◌, ◌↔◌, refl, sym, String, Bool, true, false, List, [], ◌∷◌, ◌++◌, some, All,
  ne→str_eq,
}
use simpleiot.Prelude.Perms.{AllPairs}
use simpleiot.Data.Point.{Point}
use simpleiot.Data.Points.Collapse.{collapse}
use simpleiot.Store.{Db, rows_of}
use simpleiot.Store.Walk.{IsGraph}
use simpleiot.Store.Write.{EdgeError, err, node_points, edge_points}
use simpleiot.Store.Write.Hashes.{IsConsistent}
use simpleiot.Store.Write.Rows.{held}
use simpleiot.Store.Write.Readings.{content, received}
use simpleiot.Store.Write.Received.{node_points-IsReceived}
use simpleiot.Store.Write.Planned.Loop.{Differ, IsInjective}
use simpleiot.Store.Handlers.{
  Message, up_node_points, up_edge_points, reply_text, fill_times, reply, process_points_upstream,
  process_edge_points_upstream, error_text, after_write, handle_node_points, handle_edge_points,
}
use simpleiot.Store.Handlers.Upstream.{Above, walk-Returns, walk-from, walk-has}

module _ (accepts : Message → Bool) (now : ℕ) (uuid : ℕ → String)
    (iterate : List Point → List Point) (rank : String → ℕ) (fuel : ℕ) (db : Db) (node_id : String)
    (points : List Point) (reply_to : String) where
  -- Points that arrive are written and reach exactly the nodes above: on a consistent store with no
  -- cycle of edges `handleNodePoints` returns with the store that `nodePoints` leaves. For each type
  -- and key the node then holds the newest of the point that it held before and the collapsed
  -- points, in their order, where a point of the same time replaces the one before; the rows of the
  -- other nodes are as before, and the store is consistent. What it publishes before the reply
  -- without an error are the points, with their times, for the node and each node that is reached
  -- from it along live edges of the written store, and for no other. Every message can be published;
  -- the points, collapsed and with their defaults, differ in type or key, new row IDs are new, and
  -- the fuel is above the rank of the node.
  pub handle_node_points-Above :
      ((m : Message) → accepts m ≡ true)
      → IsInjective uuid
      → ((j : ℕ) → All (λ r. r.id ≢ uuid j) db.node_points)
      → AllPairs (Differ now) (collapse iterate points)
      → rank node_id < fuel
      → IsConsistent rank db
      → (db' : Db) × (sent : List Message) × (handle_node_points accepts now uuid iterate fuel db
            (some (node_id, points))
            reply_to
          ≡ some (db', sent ++ reply reply_to ""))
        × (node_points now uuid iterate fuel db node_id points ≡ some db')
        × ((b : Point)
            → content (held node_id db'.node_points b)
              ≡ received now b (content (held node_id db.node_points b)) (collapse iterate points))
        × ((x : String) → node_id ≢ x → rows_of x db'.node_points ≡ rows_of x db.node_points)
        × IsConsistent rank db'
        × ((m : Message)
            → Memᴰ m sent ↔ (
                (a : String) × Above db' false a node_id
                × (m ≡ up_node_points a node_id (fill_times now points))))
  unfolding handle_node_points process_points_upstream
  handle_node_points-Above accepted inj fresh distinct k c =
      let (db', e, c', (read, others)) =
        node_points-IsReceived now uuid iterate rank fuel db node_id points inj fresh distinct k
          c in
      let message = λ (u : String). up_node_points u node_id (fill_times now points) in
      let (sent, e') =
        walk-Returns accepts db' false message accepted rank fuel node_id c'.graph.acyclic k in
      (
        db',
        sent,
        rw (e, e') refl,
        e,
        read,
        others,
        c',
        λ m. (
          λ i. walk-from accepts db' false message accepted fuel node_id sent m e' i,
          λ (a, above, e'').
              rw e'' (walk-has accepts db' false message accepted fuel node_id a sent e' above),
        ),
      )

  -- A write of edge points that fails is published all the same: if `edgePoints` gives an error,
  -- the message wants a reply and all messages can be published, then `handleEdgePoints` on a store with no cycle
  -- leaves the tables as they were and replies twice, first with the error and last
  -- without one, and sends the points on to the node in between. The fuel is above the rank of the node.
  pub handle_edge_points-replies :
      (parent_id : String) (e : EdgeError) (text : String)
      → ((m : Message) → accepts m ≡ true)
      → "" ≢ reply_to
      → edge_points now uuid iterate fuel db node_id parent_id points ≡ err e
      → error_text e node_id ≡ some text
      → IsGraph rank db.edges
      → rank node_id < fuel
      → (sent : List Message) × (handle_edge_points accepts now uuid iterate fuel db
            (some (node_id, parent_id, points))
            reply_to
          ≡ some (db, reply_text reply_to text ∷ (sent ++ (reply_text reply_to "" ∷ []))))
        × Memᴰ (up_edge_points node_id node_id parent_id (fill_times now points)) sent
  unfolding handle_edge_points after_write process_edge_points_upstream reply
  handle_edge_points-replies parent_id e text accepted ne failed worded graph k =
      let message = λ (u : String). up_edge_points u node_id parent_id (fill_times now points) in
      let (sent, e') =
        walk-Returns accepts db true message accepted rank fuel node_id graph.acyclic k in
      (
        sent,
        rw (failed, worded, e', ne→str_eq reply_to "" (λ q. ne (sym q))) refl,
        walk-has accepts db true message accepted fuel node_id node_id sent e' (Above.self refl),
      )
