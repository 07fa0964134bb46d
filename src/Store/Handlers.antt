-- ===== src/Store/Handlers.antt =====
-- store/store.go: the handlers of the messages that write points, and how points are sent on to all
-- nodes above. What a handler publishes is the list of messages; `accepts` says which of them can be
-- published. The metrics and the log are left out.
pub mod Loop
pub mod Upstream
pub mod Delivery
use Prim.Native.String.{◌++◌ as str_append}
use simpleiot.Prelude.{
  ℕ, zero, suc, ◌+◌, String, Bool, true, false, not, ◌||◌, List, [], ◌∷◌, ◌++◌, map, Option, none,
  some, str_eq, ◌==◌, if◌then◌else◌, select,
}
use simpleiot.Prelude.Options.{◌>>=◌}
use simpleiot.Prelude.Float.{f64_is_even}
use simpleiot.Data.Point.{Point, point_type_tombstone}
use simpleiot.Data.Points.{find}
use simpleiot.Store.{Db, EdgeRow, edges_down}
use simpleiot.Store.Write.{
  EdgeError, same_node, root_deleted, node_type_missing, out_of_fuel, EdgeResult, ok, err,
  node_points, edge_points,
}
use simpleiot.Store.Nodes.{points_of}

-- What is published: points of a node and of an edge, below the node `up`, and a reply
pub data Message : Type 0 where
  up_node_points : (up node : String) → List Point → Message
  up_edge_points : (up node parent : String) → List Point → Message
  reply_text : (subject text : String) → Message

-- The points of an edge, and whether its tombstone is even
unfoldable pub is_live : Db → EdgeRow → Bool
is_live db e = f64_is_even (find (points_of e.id db.edge_points) point_type_tombstone "").0.value

-- `DbSqlite.up`
unfoldable pub up : Db → String → Bool → List String
up db id include_deleted =
    map (λ e. e.up) (select (λ e. include_deleted || is_live db e) (edges_down id db.edges))

-- `SendPoints` gives points without a time the present one.
unfoldable pub fill_times : ℕ → List Point → List Point
fill_times now [] = []
fill_times now (p ∷ ps) = (if p.time == 0 then record p { time = now } else p) ∷ fill_times now ps

-- `Store.reply`
unfoldable pub reply : String → String → List Message
reply subject text = if str_eq subject "" then [] else reply_text subject text ∷ []

-- The loop over the nodes above
unfoldable pub each_up : (String → Option (List Message)) → List String → Option (List Message)
each_up walk [] = some []
each_up walk (u ∷ us) = do sent ← walk u; rest ← each_up walk us; some (sent ++ rest)

module _ (accepts : Message → Bool) (db : Db) (include_deleted : Bool)
    (message : String → Message) where
  -- `processPointsUpstream` and `processEdgePointsUpstream`, on fuel: they do not end on a cycle of edges. An
  -- error ends the walk from a node, and the walks from other nodes go on.
  unfoldable pub upstream : ℕ → String → Option (List Message)
  upstream zero up_node = none
  upstream (suc f) up_node =
      if not (accepts (message up_node))
      then some []
      else if str_eq up_node "none"
      then some (message up_node ∷ [])
      else (do
        rest ← each_up (upstream f) (up db up_node include_deleted)
        some (message up_node ∷ rest))

module _ (accepts : Message → Bool) (now : ℕ) where
  unfoldable pub process_points_upstream : ℕ → Db → String → List Point → Option (List Message)
  process_points_upstream fuel db node_id points =
      upstream accepts db false (λ u. up_node_points u node_id (fill_times now points)) fuel node_id

  unfoldable pub process_edge_points_upstream :
      ℕ → Db → String → String → List Point → Option (List Message)
  process_edge_points_upstream fuel db node_id parent_id points =
      upstream accepts db true (λ u. up_edge_points u node_id parent_id (fill_times now points))
        fuel node_id

-- The text of an error of `edgePoints`; that the fuel runs out is none.
unfoldable pub error_text : EdgeError → String → Option String
error_text same_node node_id = some (str_append "Error: edgePoints nodeID=parentID=" node_id)
error_text root_deleted node_id = some "Error, can't delete root node"
error_text node_type_missing node_id = some "Node type must be sent with new edges"
error_text out_of_fuel node_id = none

module _ (accepts : Message → Bool) (now : ℕ) (uuid : ℕ → String)
    (iterate : List Point → List Point) (fuel : ℕ) where
  -- `Store.handleNodePoints`, for the node and the points of the message, if they can be decoded. `none`
  -- if the fuel runs out; an error of SQL is left out.
  unfoldable pub handle_node_points :
      Db → Option (String × List Point) → String → Option (Db × List Message)
  handle_node_points db none reply_to =
      some (db, reply reply_to "error decoding node points subject")
  handle_node_points db (some (node_id, points)) reply_to = do
    db' ← node_points now uuid iterate fuel db node_id points
    sent ← process_points_upstream accepts now fuel db' node_id points
    some (db', sent ++ reply reply_to "")

  -- The end of `Store.handleEdgePoints`: after an error the handler replies and goes on.
  unfoldable pub after_write :
      Db → String → String → List Point → String → EdgeResult → Option (Db × List Message)
  after_write db node_id parent_id points reply_to (ok db') = do
    sent ← process_edge_points_upstream accepts now fuel db' node_id parent_id points
    some (db', sent ++ reply reply_to "")
  after_write db node_id parent_id points reply_to (err e) = do
    text ← error_text e node_id
    sent ← process_edge_points_upstream accepts now fuel db node_id parent_id points
    some (db, reply reply_to text ++ (sent ++ reply reply_to ""))

  -- `Store.handleEdgePoints`
  unfoldable pub handle_edge_points :
      Db → Option (String × String × List Point) → String → Option (Db × List Message)
  handle_edge_points db none reply_to =
      some (db, reply reply_to "error decoding edge points subject")
  handle_edge_points db (some (node_id, parent_id, points)) reply_to =
      after_write db node_id parent_id points reply_to
        (edge_points now uuid iterate fuel db node_id parent_id points)
