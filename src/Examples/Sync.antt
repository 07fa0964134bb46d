-- ===== src/Examples/Sync.antt =====
-- client/sync.go on a store that holds the small tree.
use simpleiot.Prelude.{ℕ, ◌+◌, ◌≡◌, refl, String, true, false, List, [], ◌∷◌, if◌then◌else◌, str_eq}
use simpleiot.Data.Point.{Point}
use simpleiot.Data.Node.{NodeEdge}
use simpleiot.Client.Sync.{found, Bus, SyncClient}
use simpleiot.Client.Sync.Exchange.{exchange}
use simpleiot.Client.Sync.Exchange.Readings.{reading, settled, arrive_all, IsDistinct, IsTyped}
use simpleiot.Client.Sync.Exchange.Settled.{exchange-settled}
use simpleiot.Examples.Tables.{sample, level}

abbrev tree_node : String → String → NodeEdge
tree_node id parent = record {
  id = id;
  typ = "device";
  hash = 0;
  parent = parent;
  points = sample 3 ∷ [];
  edge_points = [];
}

abbrev children_of : String → List NodeEdge
children_of id =
    if str_eq id "root"
    then tree_node "dev" "root" ∷ []
    else if str_eq id "dev"
    then tree_node "sensor" "dev" ∷ []
    else []

-- Both stores hold the tree, and the number of messages is counted.
abbrev tree_bus : Bus ℕ
tree_bus = record {
  now = λ w. w;
  get_nodes = λ c parent id d w.
      (found (if str_eq id "all" then children_of parent else tree_node id parent ∷ []), w);
  send_node_points = λ c id ps w. (true, w + 1);
  send_edge_points = λ c id parent ps w. (true, w + 1);
  subscribe = λ t w. (true, w + 1);
}

abbrev height : String → ℕ
height id =
    if str_eq id "root"
    then 3
    else if str_eq id "dev"
    then 2
    else if str_eq id "sensor"
    then 1
    else 0

abbrev client : SyncClient ℕ
client = record {
  root_local = tree_node "dev" "root";
  root_remote = tree_node "" "";
  config = record { id = "sync"; sync_count = 0 };
  sub_remote_node_points = [];
  sub_remote_edge_points = [];
  sub_remote_up = false;
  world = 0;
}

-- A temperature that is older than the one of the remote store
abbrev old_temp : Point
old_temp = record (sample 1) { time = 7 }

temps-IsDistinct : IsDistinct (old_temp ∷ level ∷ [])
temps-IsDistinct = ((refl, tt), (tt, tt))

samples-IsTyped : IsTyped (sample 3 ∷ [])
samples-IsTyped = ((λ e. cc e), tt)

exchange-settled_example :
    arrive_all old_temp (exchange (old_temp ∷ level ∷ []) (sample 3 ∷ [])) (record {
      local = reading old_temp (old_temp ∷ level ∷ []);
      remote = reading old_temp (sample 3 ∷ []);
    })
    ≡ settled (reading old_temp (old_temp ∷ level ∷ [])) (reading old_temp (sample 3 ∷ []))
exchange-settled_example =
    exchange-settled old_temp (old_temp ∷ level ∷ []) (sample 3 ∷ []) temps-IsDistinct (tt, tt)
      samples-IsTyped
