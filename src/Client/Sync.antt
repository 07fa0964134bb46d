-- ===== src/Client/Sync.antt =====
-- client/sync.go: the state of the client that keeps a local and a remote store the same, its
-- connections and its subscriptions. `Bus` is what the client gets from NATS and the stores behind it; the log is left out.
pub mod Exchange
pub mod Nodes
pub mod Walk
pub mod Ends
use Prim.Native.String.{◌++◌ as str_append}
use simpleiot.Prelude.{
  ℕ, zero, suc, String, Bool, true, false, List, [], ◌∷◌, Option, none, some, str_eq, ◌||◌,
  if◌then◌else◌,
}
use simpleiot.Data.Point.{Point}
use simpleiot.Data.Node.{NodeEdge}

-- The fields of `Sync` that the synchronisation uses
pub record Sync : Type 0 where
  pub id : String
  pub sync_count : ℕ

-- `nc`, `ncLocal` (without an echo) and `ncRemote`
pub data Connection : Type 0 where
  nc nc_local nc_remote : Connection

-- What `GetNodes` returns; `not_found` is ErrDocumentNotFound.
pub data Reply : Type 0 where
  found : List NodeEdge → Reply
  not_found failed : Reply

pub data Subject : Type 0 where
  node_points : (id : String) → Subject
  edge_points : (id parent : String) → Subject
  up_edge_points : (id : String) → Subject

-- The operations of the bus: each may fail, with the result `false`.
pub record Bus (W : Type 0) : Type 0 where
  pub now : W → ℕ
  pub get_nodes : Connection → (parent id : String) → (include_deleted : Bool) → W → Reply × W
  pub send_node_points : Connection → String → List Point → W → Bool × W
  pub send_edge_points : Connection → (id parent : String) → List Point → W → Bool × W
  pub subscribe : Subject → W → Bool × W

-- `SyncClient`, with the keys of its maps and the world and without its channels and connections;
-- a root without ID is not known.
pub record SyncClient (W : Type 0) : Type 0 where
  pub root_local : NodeEdge
  pub root_remote : NodeEdge
  pub config : Sync
  pub sub_remote_node_points : List String
  pub sub_remote_edge_points : List String
  pub sub_remote_up : Bool
  pub world : W

pub data SyncError : Type 0 where
  upstream_root local_node local_nodes_not_found upstream_node undeleting subscribing : SyncError
  id_missing parent_missing sending_node sending_edge node_children : SyncError
  local_children upstream_children : SyncError

-- How a method ends; `out_of_fuel` belongs to the model only.
pub data Outcome (A W : Type 0) : Type 0 where
  done : A → SyncClient W → Outcome A W
  stopped : SyncError → SyncClient W → Outcome A W
  out_of_fuel : Outcome A W

abbrev pub Act : Type 0 → Type 0 → Type 0
Act W A = SyncClient W → Outcome A W

unfoldable pub and_then : {A B W : Type 0} → Outcome A W → (A → Act W B) → Outcome B W
and_then (done a s) f = f a s
and_then (stopped e s) f = stopped e s
and_then out_of_fuel f = out_of_fuel

infixl 5 ◌>>=◌
abbrev pub ◌>>=◌ : {A B W : Type 0} → Act W A → (A → Act W B) → Act W B
(m >>= f) s = and_then (m s) f

infixl 5 ◌>>◌
abbrev pub ◌>>◌ : {A B W : Type 0} → Act W A → Act W B → Act W B
(m >> k) s = and_then (m s) (λ a. k)

abbrev pub return : {A W : Type 0} → A → Act W A
return a s = done a s

-- `return err`
abbrev pub stop : {A W : Type 0} → SyncError → Act W A
stop e s = stopped e s

unfoldable pub ignored : {W : Type 0} → Outcome Unit W → Outcome Unit W
ignored (done a s) = done tt s
ignored (stopped e s) = done tt s
ignored out_of_fuel = out_of_fuel

-- An error is logged, and the method goes on.
abbrev pub logged : {W : Type 0} → Act W Unit → Act W Unit
logged m s = ignored (m s)

-- An error ends the method.
unfoldable pub check : {W : Type 0} → SyncError → Bool → Act W Unit
check e true s = done tt s
check e false s = stopped e s

-- A call of the bus
abbrev pub call : {A W : Type 0} → (W → A × W) → Act W A
call f s = let (a, w) = f s.world in done a (record s { world = w })

-- The nodes of a reply, where any error ends the method.
unfoldable pub nodes_or : {W : Type 0} → SyncError → Reply → Act W (List NodeEdge)
nodes_or e (found ns) s = done ns s
nodes_or e not_found s = stopped e s
nodes_or e failed s = stopped e s

-- `for _, n := range nodes`, up to the first error
unfoldable pub each : {W : Type 0} → (NodeEdge → Act W Unit) → List NodeEdge → Act W Unit
each f [] = return tt
each f (n ∷ ns) = do f n; each f ns

unfoldable pub has_key : String → List String → Bool
has_key k [] = false
has_key k (x ∷ xs) = str_eq x k || has_key k xs

-- `m[k] = ...`, of a map of which only the keys are kept.
unfoldable pub put_key : String → List String → List String
unfolding has_key
put_key k xs = if has_key k xs then xs else k ∷ xs

module _ {W : Type 0} (bus : Bus W) where
  -- `subscribeRemoteNodePoints`: the map has the key whether or not the subscription has failed.
  unfoldable pub subscribe_remote_node_points : String → Act W Unit
  unfolding has_key put_key check
  subscribe_remote_node_points id s =
      if has_key id s.sub_remote_node_points
      then done tt s
      else (let (ok, w) = bus.subscribe (node_points id) s.world in
          check subscribing ok
            (record s { sub_remote_node_points = put_key id s.sub_remote_node_points; world = w }))

  -- `subscribeRemoteEdgePoints`: the key that is looked for is not the one that is put.
  unfoldable pub subscribe_remote_edge_points : String → String → Act W Unit
  unfolding has_key put_key check
  subscribe_remote_edge_points parent id s =
      if has_key id s.sub_remote_edge_points
      then done tt s
      else (let (ok, w) = bus.subscribe (edge_points id parent) s.world in
          let key = str_append id (str_append ":" parent) in
          check subscribing ok
            (record s { sub_remote_edge_points = put_key key s.sub_remote_edge_points; world = w }))

  -- `GetNodes` with an error that ends the method
  unfoldable pub get_nodes_or :
      SyncError → Connection → String → String → Bool → Act W (List NodeEdge)
  unfolding nodes_or
  get_nodes_or e c parent id deleted = do
    reply ← call (bus.get_nodes c parent id deleted)
    nodes_or e reply

  -- `subscribeRemoteNode`, on fuel
  unfoldable pub subscribe_remote_node : ℕ → String → String → Act W Unit
  unfolding subscribe_remote_node_points subscribe_remote_edge_points get_nodes_or each
  subscribe_remote_node zero parent id s = out_of_fuel
  subscribe_remote_node (suc f) parent id s =
      (do
        subscribe_remote_node_points id
        subscribe_remote_edge_points parent id
        children ← get_nodes_or node_children nc_local id "all" true
        each (λ c. subscribe_remote_node f c.parent c.id) children)
        s
