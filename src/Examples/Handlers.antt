-- ===== src/Examples/Handlers.antt =====
-- store/store.go on the small tree: points of the sensor arrive.
use mathlib.Core.List.{Memᴰ}
use simpleiot.Prelude.{
  ◌≡◌, ◌≢◌, ◌↔◌, refl, String, Bool, true, false, List, [], ◌∷◌, ◌++◌, some, arith,
}
use simpleiot.Data.Point.{Point}
use simpleiot.Data.Points.Collapse.{collapse}
use simpleiot.Store.{Db, rows_of}
use simpleiot.Store.Write.{same_node, err, edge_points, node_points}
use simpleiot.Store.Write.Rows.{held}
use simpleiot.Store.Write.Readings.{content, received}
use simpleiot.Store.Write.Received.{node_points-received}
use simpleiot.Store.Write.Hashes.{IsConsistent}
use simpleiot.Store.Handlers.{
  Message, up_node_points, up_edge_points, reply_text, fill_times, reply, error_text,
  handle_node_points, handle_edge_points,
}
use simpleiot.Store.Handlers.Upstream.{Above}
use simpleiot.Store.Handlers.Delivery.{handle_node_points-Above, handle_edge_points-replies}
use simpleiot.Examples.Tables.{
  small, depth, sample, level, in_order, tally, tally-IsInjective, samples-Differ,
  small-IsConsistent, tree-IsGraph,
}

abbrev all_sent : Message → Bool
all_sent m = true

abbrev arrived : List Point
arrived = sample 3 ∷ level ∷ []

handle_node_points-Above_example :
    (db' : Db) × (sent : List Message) × (handle_node_points all_sent 9 tally in_order 3 small
        (some ("sensor", arrived))
        "inbox"
      ≡ some (db', sent ++ reply "inbox" ""))
    × (node_points 9 tally in_order 3 small "sensor" arrived ≡ some db')
    × ((b : Point)
        → content (held "sensor" db'.node_points b)
          ≡ received 9 b (content (held "sensor" [] b)) (collapse in_order arrived))
    × ((x : String) → "sensor" ≢ x → rows_of x db'.node_points ≡ rows_of x [])
    × IsConsistent depth db'
    × ((m : Message)
        → Memᴰ m sent ↔ (
            (a : String) × Above db' false a "sensor"
            × (m ≡ up_node_points a "sensor" (fill_times 9 arrived))))
handle_node_points-Above_example =
    handle_node_points-Above all_sent 9 tally in_order depth 3 small "sensor" arrived "inbox"
      (λ m. refl) tally-IsInjective (λ j. tt) samples-Differ (omega arith) small-IsConsistent

itself : edge_points 9 tally in_order 3 small "sensor" "sensor" arrived ≡ err same_node
unfolding edge_points
itself = refl

worded : error_text same_node "sensor" ≡ some "Error: edgePoints nodeID=parentID=sensor"
unfolding error_text
worded = refl

handle_edge_points-replies_example :
    (sent : List Message) × (handle_edge_points all_sent 9 tally in_order 3 small
        (some ("sensor", "sensor", arrived))
        "inbox"
      ≡ some (
        small,
        reply_text "inbox" "Error: edgePoints nodeID=parentID=sensor"
            ∷ (sent ++ (reply_text "inbox" "" ∷ [])),
      ))
    × Memᴰ (up_edge_points "sensor" "sensor" "sensor" (fill_times 9 arrived)) sent
handle_edge_points-replies_example =
    handle_edge_points-replies all_sent 9 tally in_order depth 3 small "sensor" arrived "inbox"
      "sensor" same_node "Error: edgePoints nodeID=parentID=sensor" (λ m. refl) (λ e. cc) itself
      worded tree-IsGraph (omega arith)

node_points-received_example :
    (db' : Db) × (node_points 9 tally in_order 3 small "sensor" arrived ≡ some db')
    × ((b : Point)
        → content (held "sensor" db'.node_points b)
          ≡ received 9 b (content (held "sensor" [] b)) (collapse in_order arrived))
    × ((x : String) → "sensor" ≢ x → rows_of x db'.node_points ≡ rows_of x [])
node_points-received_example =
    node_points-received 9 tally in_order depth 3 small "sensor" arrived tally-IsInjective (λ j. tt)
      samples-Differ (omega arith) small-IsConsistent
