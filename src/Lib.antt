-- ===== src/Lib.antt =====
-- SimpleIoT keeps a tree of nodes, described by points, and replicates it: every change is a point
-- that is merged by its time, and every edge of the tree carries a hash of all that lies below it,
-- so that two instances can tell whether they agree. This library models the parts that this rests
-- on, and the Modbus implementation through which field devices are read.
--
-- The parts and how they interact:
--   - data/point.go and data/node.go are the data model. An array of points is changed by
--     `Points.Add` (the readers of a node), by `Points.Merge` (which tells what changed) and by
--     `Points.Collapse` (before a write). Data/Point is the type and the CRC-32 of a point,
--     Data/Points the type Points, with a child module for what is proved of each of the three;
--     Data/Node is the type NodeEdge with `CalcHash`, and the user of a node.
--   - store/sqlite.go keeps points and edges in tables. `nodePoints` and `edgePoints` collapse the
--     points, write those that are not older than the rows, and pass the change of the hash to
--     `updateHash`, which walks up every path to the root. Store has the tables and that walk,
--     Store/Hash what the walk does to hashes and Store/Walk why it ends, Store/Consistent what the
--     hashes mean, Store/Write the two writers with the proofs in Write/Planned, Write/Hashes and
--     Write/EdgeHashes on the hashes, and in Write/Rows, Write/Readings, Write/Others and
--     Write/Received on what a reader finds; Store/Nodes the queries and `userCheck`, Store/Verify
--     `verifyNodeHashes`.
--   - store/store.go handles the messages that write points: it writes them, sends them on to every
--     node above and replies. Store/Handlers has the handlers, Handlers/Upstream the walk upward and
--     Handlers/Delivery what they do together.
--   - modbus/ is a Modbus client and server. Modbus has the PDU (pdu.go, modbus.go) and words in
--     byte slices, Modbus/Words the conversions of data.go, Modbus/Crc and Modbus/Rtu crc.go and
--     rtu.go, Modbus/Tcp the packets of tcp.go, Modbus/Ascii the packets of ascii.go, Modbus/Regs
--     the registers and coils of reg.go with the proofs in its children. Modbus/Server is
--     `PDU.ProcessRequest` over any `RegProvider`, Server/Response what a client reads from a response, Server/Listen one round of
--     `Server.Listen` and `Client.ReadHoldingRegs` over RTU, and the other children the proofs.
--   - client/cobs-wrapper.go frames the messages of a serial port. Client/Cobs is its decoder, with
--     the proof in Cobs/InPlace.
--   - client/rule.go runs the rules of the tree: points that pass, or the time, make conditions active,
--     and a rule whose enabled conditions are active runs its actions. Client/Rule has the configuration
--     and how points and errors are sent, Rule/Conditions `ruleProcessPoints`, Rule/Actions
--     `ruleRunActions` and `ruleInactiveActions`, Rule/Running `run` and the events that call it. The
--     proofs are in
--     Rule/Modify (loops by index), Rule/Frame (what stays), Rule/Verdicts with what it compares with
--     in Rule/Judged, Rule/Effects, Rule/Listed, Rule/Flags and Rule/Reaction. A condition on a schedule asks client/schedule.go: Client/Schedule, with the
--     proof in Schedule/Windows.
--   - client/sync.go keeps a remote store the same as the local one: it compares the hashes down the
--     tree, sends the points of nodes that differ both ways, and whole nodes that one side does not
--     have. Client/Sync has the client and its subscriptions over any bus, Sync/Exchange the points
--     that are sent, Sync/Nodes whole nodes with `SendNode` of client/node.go, Sync/Walk `syncNode`.
--     The proofs are in Exchange/Matches and Exchange/Settled, over the readings of
--     Exchange/Readings, and in Sync/Ends.
--   - network/manager.go brings a network interface up. Network/Manager is its state machine over any
--     interfaces, with the proofs in Manager/Bounds, Manager/Connected, Manager/Progress and
--     Manager/Timeouts.
-- Prelude has what they share: tests and lists over the native numbers, exclusive or with its laws
-- (Prelude/Bits), digits (Prelude/Digits, Prelude/BitOps), CRC-32, float64 as bits, chains of
-- options, and permutations. Examples has the concrete runs. Each operation keeps the name that it
-- has in the source, in this language's spelling.
--
-- What stands for what:
--   - A time is a number of nanoseconds since Go's zero time, a float64 or float32 its IEEE bits,
--     a byte or a word a number, with every wrap of the source written out (`% 2 ^ 16`). A tombstone
--     is a natural number, as all the code that writes one makes it.
--   - A table is a list of rows; SELECT goes through it in order. A transaction is one function from
--     the tables to the tables. The time, the IDs from uuid.New() and the order in which Go goes
--     through a map are arguments, so the theorems hold for all of them.
--   - `updateHash`, `getNodes`, `userCheck` and `verifyNodeHashes` recurse along edges and do not
--     end on a cycle. They take fuel; in a graph with no cycle nodes have ranks that grow along
--     edges, and fuel above the rank of a node is enough for a walk up from it, and the
--     distance of its rank from a bound of all ranks for a walk down.
--   - `syncNode` and its walks go down the trees of both stores on fuel, which is enough above the
--     ranks of all nodes, where ranks grow up the tree.
--   - In Modbus an index out of range, a panic in Go, is `none`. The loops end by recursion on their
--     counts.
--   - `Run` of the network manager goes round its loop at most ten times, so it recurs on the rounds
--     left. The drivers, and for rules the bus and the player of sounds, are arguments with a world
--     of their own: whatever they answer is covered, the clock included.
--   - In rules a loop by index goes through as many indexes as the list has items.
--   - An error of SQL itself, of a socket or of a serial port is not modelled, and neither are logs
--     and debug output. Locks have no counterpart: an operation of the registers is one step.
--
-- Not modelled: the other clients (the drivers), the select of the synchronisation's `Run` with its
-- connections, the reading of
-- frames in cobs-wrapper.go, the interfaces of the network manager, the other handlers of store/store.go, the HTTP API, protocol buffers, the encoding
-- of Go structs as points (data/encode.go, decode.go, merge.go, which use reflection; a rule's new
-- configuration is the one after the merge), and everything that is not Go. The part of `edgePoints` that makes a new edge is defined, without a
-- theorem.
pub mod Prelude
pub mod Data
pub mod Store
pub mod Modbus
pub mod Client
pub mod Network
mod Examples
