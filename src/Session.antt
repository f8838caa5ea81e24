-- ===== src/Session.antt =====
-- A client that follows a host broker: the messages of pkg/hostbroker/wire.go, as pkg/discovery/broker_wire.go
-- parses them, in the session of pkg/discovery/broker_resolver.go, and the nodes of pkg/client/lumen_resolver.go.
pub mod Events
pub mod Laws
mod Tests
use lumen_sdk.Base.{ℕ, Bool, true, false, List, [], ◌∷◌, Option, none, some, map}
use lumen_sdk.Base.Int.{pos}
use lumen_sdk.Base.Text.{Text, codes}
use lumen_sdk.HostBroker.NodeWatch.{WsNodeInfo, WsNodeEvent, snapshot, added, removed}
use lumen_sdk.Discovery.Events.{NodeEvent}
use lumen_sdk.Discovery.Wire.{BrokerNode, BrokerNodeEvent, parse_node_events_with_deployment}
use lumen_sdk.Client.Resolver.{Nodes, watch}

-- The JSON of the host broker as the client decodes it: the two wire formats have the same names.
abbrev pub received_node : WsNodeInfo → BrokerNode
received_node n = record {
  node_id = n.node_id;
  deployment_id = codes "";
  address = n.address;
  addresses = [];
  port = pos 0;
  tasks = n.tasks;
  txt = n.txt;
}

abbrev pub received : WsNodeEvent → BrokerNodeEvent
received (snapshot ns) = record {
  event_type = codes "snapshot";
  nodes = map received_node ns;
  node = none;
  node_id = codes "";
}
received (added n) = record {
  event_type = codes "added";
  nodes = [];
  node = some (received_node n);
  node_id = codes "";
}
received (removed id) = record {
  event_type = codes "removed";
  nodes = [];
  node = none;
  node_id = id;
}

-- A message that does not parse is logged and skipped.
abbrev pub or_skip : Option (List NodeEvent) → List NodeEvent
or_skip none = []
or_skip (some events) = events

-- The nodes that the client holds after the messages of a session.
unfoldable pub session : Text → List WsNodeEvent → Nodes → Nodes
unfolding parse_node_events_with_deployment watch
session deployment_id [] nodes = nodes
session deployment_id (message ∷ messages) nodes =
    session deployment_id messages
      (watch (or_skip (parse_node_events_with_deployment (received message) deployment_id)) nodes)
