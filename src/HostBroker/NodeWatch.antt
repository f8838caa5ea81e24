-- ===== src/HostBroker/NodeWatch.antt =====
-- pkg/hostbroker/node_watch.go and wire.go: the hub that pushes a snapshot and then differences of the
-- active nodes to its WebSocket clients. A connection is a number. Go ranges over the maps in no fixed
-- order; here it is that of the association list. How many writes a connection takes is an argument.
pub mod Laws
mod Tests
use lumen_sdk.Base.{
  ℕ, Bool, true, false, not, ◌&&◌, ◌||◌, if◌then◌else◌, List, [], ◌∷◌, ◌++◌, map, Option, none,
  some, ◌==◌, take,
}
use lumen_sdk.Base.Text.{Text, codes, is_empty}
use lumen_sdk.Base.Dict.{lookup, insert, delete}
use lumen_sdk.Base.Unique.{is_some}
use lumen_sdk.Types.Proto.{Meta, IoTask}
use lumen_sdk.Discovery.NodeInfo.{NodeInfo, is_active}

pub record WsNodeInfo : Type 0 where
  pub node_id : Text
  pub address : Text
  pub tasks : List Text
  pub txt : Meta

pub data WsNodeEvent : Type 0 where
  snapshot : List WsNodeInfo → WsNodeEvent
  added : WsNodeInfo → WsNodeEvent
  removed : (node_id : Text) → WsNodeEvent

unfoldable pub task_names : List (Option IoTask) → List Text
task_names [] = []
task_names (none ∷ ts) = task_names ts
task_names (some t ∷ ts) =
    let rest = task_names ts in if is_empty t.name then rest else t.name ∷ rest

abbrev pub add_unless_empty : Text → Text → List (Text × Text) → List (Text × Text)
add_unless_empty k v m = if is_empty v then m else insert k v m

unfoldable pub ws_node_info_from : NodeInfo → WsNodeInfo
unfolding task_names insert
ws_node_info_from n = record {
  node_id = n.id;
  address = n.address;
  tasks = task_names n.tasks;
  txt =
      if is_empty n.version && is_empty n.runtime
      then none
      else some (
          add_unless_empty (codes "runtime") n.runtime (add_unless_empty (codes "v") n.version []));
}

unfoldable pub snapshot_nodes : List (Option NodeInfo) → List WsNodeInfo
unfolding ws_node_info_from
snapshot_nodes [] = []
snapshot_nodes (none ∷ nodes) = snapshot_nodes nodes
snapshot_nodes (some n ∷ nodes) =
    let rest = snapshot_nodes nodes in
    if is_active n.status then ws_node_info_from n ∷ rest else rest

unfoldable pub node_snapshot_msg : List (Option NodeInfo) → WsNodeEvent
unfolding snapshot_nodes
node_snapshot_msg nodes = snapshot (snapshot_nodes nodes)

pub record Hub : Type 0 where
  pub clients : List ℕ
  pub prev_nodes : List (Text × Unit {0})

abbrev pub add_client : ℕ → List ℕ → List ℕ
add_client conn [] = conn ∷ []
add_client conn (c ∷ cs) = if c == conn then c ∷ cs else c ∷ add_client conn cs

-- The locked part of serve, for the nodes that it has read before; the answer is what it writes.
unfoldable pub join : ℕ → List (Option NodeInfo) → Hub → Hub × WsNodeEvent
unfolding node_snapshot_msg
join conn nodes hub =
    (record hub { clients = add_client conn hub.clients }, node_snapshot_msg nodes)

abbrev pub without : ℕ → List ℕ → List ℕ
without conn [] = []
without conn (c ∷ cs) = let rest = without conn cs in if c == conn then rest else c ∷ rest

unfoldable pub drop_client : ℕ → Hub → Hub
drop_client conn hub = record hub { clients = without conn hub.clients }

-- The map of the active nodes by their ids.
unfoldable pub active_nodes :
    List (Text × NodeInfo) → List (Option NodeInfo) → List (Text × NodeInfo)
unfolding insert
active_nodes current [] = current
active_nodes current (none ∷ nodes) = active_nodes current nodes
active_nodes current (some n ∷ nodes) =
    active_nodes (if is_active n.status then insert n.id n current else current) nodes

unfoldable pub added_msgs : List (Text × Unit {0}) → List (Text × NodeInfo) → List WsNodeEvent
unfolding lookup ws_node_info_from
added_msgs prev [] = []
added_msgs prev ((id, n) ∷ m) =
    let rest = added_msgs prev m in
    if is_some (lookup id prev) then rest else added (ws_node_info_from n) ∷ rest

unfoldable pub removed_msgs : List (Text × NodeInfo) → List (Text × Unit {0}) → List WsNodeEvent
unfolding lookup
removed_msgs current [] = []
removed_msgs current ((id, u) ∷ m) =
    let rest = removed_msgs current m in
    if is_some (lookup id current) then rest else removed id ∷ rest

abbrev pub id_set : List (Text × NodeInfo) → List (Text × Unit {0})
id_set [] = []
id_set ((id, n) ∷ m) = (id, tt) ∷ id_set m

unfoldable pub diff : Hub → List (Option NodeInfo) → List WsNodeEvent
unfolding active_nodes added_msgs removed_msgs
diff hub nodes =
    let current = active_nodes [] nodes in
    added_msgs hub.prev_nodes current ++ removed_msgs current hub.prev_nodes

-- The hub after a broadcast, and what it has written to each client.
unfoldable pub broadcast :
    (ℕ → ℕ) → List (Option NodeInfo) → Hub → Hub × List (ℕ × List WsNodeEvent)
unfolding diff active_nodes
broadcast writes nodes hub = (
  record hub { prev_nodes = id_set (active_nodes [] nodes) },
  map (λ conn. (conn, take (writes conn) (diff hub nodes))) hub.clients,
)
