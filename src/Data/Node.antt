-- ===== src/Data/Node.antt =====
-- data/node.go and data/edge.go: nodes, edges, tombstones and the hash of a node.
use Prim.Native.Nat.{bit_xor}
use simpleiot.Prelude.{ℕ, String, Bool, List, [], ◌∷◌, str_eq, not, if◌then◌else◌}
use simpleiot.Data.Point.{Point, crc, to_bool, point_type_tombstone}
use simpleiot.Data.Points.{find, text, desc, value_bool}

pub record Node : Type 0 where
  pub id : String
  pub typ : String
  pub points : List Point

pub record Edge : Type 0 where
  pub id : String
  pub up : String
  pub down : String
  pub points : List Point
  pub hash : ℕ
  pub typ : String

pub record NodeEdge : Type 0 where
  pub id : String
  pub typ : String
  pub hash : ℕ
  pub parent : String
  pub points : List Point
  pub edge_points : List Point

pub record User : Type 0 where
  pub id : String
  pub first_name : String
  pub last_name : String
  pub phone : String
  pub email : String
  pub pass : String

-- `Node.ToUser`
unfoldable pub to_user : Node → User
to_user n = record {
  id = n.id;
  first_name = (text n.points "firstName" "").0;
  last_name = (text n.points "lastName" "").0;
  phone = (text n.points "phone" "").0;
  email = (text n.points "email" "").0;
  pass = (text n.points "pass" "").0;
}

-- `NodeEdge.ToNode`
unfoldable pub to_node : NodeEdge → Node
to_node n = record { id = n.id; typ = n.typ; points = n.points }

-- `Node.ToNodeEdge`
unfoldable pub to_node_edge : Node → Edge → NodeEdge
to_node_edge n edge = record {
  id = n.id;
  typ = n.typ;
  hash = edge.hash;
  parent = edge.up;
  points = n.points;
  edge_points = edge.points;
}

-- `Node.Desc`
unfoldable pub node_desc : Node → String
node_desc n = let d = desc n.points in if not (str_eq d "") then d else n.id

-- `NodeEdge.Desc`
unfoldable pub node_edge_desc : NodeEdge → String
node_edge_desc n = let d = desc n.points in if not (str_eq d "") then d else n.id

-- `NodeEdge.IsTombstone`, with the time of the tombstone
unfoldable pub is_tombstone : NodeEdge → Bool × ℕ
is_tombstone n = let p = (find n.edge_points point_type_tombstone "").0 in (to_bool p, p.time)

-- `Edge.IsTombstone`
unfoldable pub edge_is_tombstone : Edge → Bool
edge_is_tombstone e = (value_bool e.points point_type_tombstone "").0

unfoldable pub xor_points : ℕ → List Point → ℕ
xor_points ret [] = ret
xor_points ret (p ∷ ps) = xor_points (bit_xor ret (crc p)) ps

unfoldable pub xor_children : ℕ → List NodeEdge → ℕ
xor_children ret [] = ret
xor_children ret (c ∷ cs) = xor_children (bit_xor ret c.hash) cs

-- `NodeEdge.CalcHash`
unfoldable pub calc_hash : NodeEdge → List NodeEdge → ℕ
unfolding xor_points xor_children
calc_hash n children = xor_children (xor_points (xor_points 0 n.points) n.edge_points) children
