-- ===== src/Discovery/Wire.antt =====
-- pkg/discovery/broker_wire.go: the messages of the host broker as events of discovery. The JSON of a message is
-- decoded already; a part that is absent is `none` or empty.
pub mod Endpoint
mod Tests
use lumen_sdk.Base.{
  ℕ, Bool, true, false, not, if◌then◌else◌, List, [], ◌∷◌, ◌++◌, drop, Option, none, some, ◌==◌,
}
use lumen_sdk.Base.Dict.{insert}
use lumen_sdk.Base.Int.{ℤ, pos}
use lumen_sdk.Base.Text.{Text, codes, text_eq, is_empty, trim_space, has_prefix, join_with}
use lumen_sdk.Base.Text.HostPort.{split_host_port, atoi}
use lumen_sdk.Base.Unique.{nothing_seen, visit_all}
use lumen_sdk.Types.Proto.{Meta}
use lumen_sdk.Discovery.Identity.{
  NodeIdentity, ResolvedNode, parse_node_identity, key, normalized, default_deployment_id,
}
use lumen_sdk.Discovery.Events.{
  NodeEventType, NodeEvent, node_discovered, node_expired, event_from_resolved,
}

pub record BrokerNode : Type 0 where
  pub node_id : Text
  pub deployment_id : Text
  pub address : Text
  pub addresses : List Text
  pub port : ℤ
  pub tasks : List Text
  pub txt : Meta

pub record BrokerNodeEvent : Type 0 where
  pub event_type : Text
  pub nodes : List BrokerNode
  pub node : Option BrokerNode
  pub node_id : Text

abbrev pub port_in : Text → Option (Text × Text) → Option (Text × ℤ)
unfolding atoi
port_in address none = none
port_in address (some (host, port)) = elim (atoi port) [ none ↦ none | some p ↦ some (host, p) ]

unfoldable pub split_address : Text → Option (Text × ℤ)
unfolding split_host_port atoi
split_address address = port_in address (split_host_port address)

abbrev pub is_zero_port : ℤ → Bool
is_zero_port (pos n) = n == 0
is_zero_port _ = false

abbrev pub with_address : BrokerNode → Option (Text × ℤ) → List Text × ℤ
with_address n none = (n.addresses ++ n.address ∷ [], n.port)
with_address n (some (host, port)) =
    (n.addresses ++ host ∷ [], if is_zero_port n.port then port else n.port)

unfoldable pub broker_addresses : BrokerNode → List Text × ℤ
unfolding split_address
broker_addresses n =
    if is_empty n.address then (n.addresses, n.port) else with_address n (split_address n.address)

unfoldable pub join_csv : List Text → Text
unfolding visit_all trim_space join_with
join_csv values = join_with (codes ",") (visit_all trim_space nothing_seen values).out

-- Writing the entries of a map into another, in the order in which Go ranges over them.
abbrev pub copied : List (Text × Text) → List (Text × Text) → List (Text × Text)
unfolding insert
copied [] m = m
copied ((k, v) ∷ rest) m = copied rest (insert k v m)

abbrev pub entries : Meta → List (Text × Text)
entries none = []
entries (some m) = m

abbrev pub txt_with_tasks : List Text → List (Text × Text) → List (Text × Text)
unfolding insert join_csv
txt_with_tasks [] txt = txt
txt_with_tasks (t ∷ ts) txt = insert (codes "tasks") (join_csv (t ∷ ts)) txt

unfoldable pub broker_resolved : BrokerNode → Text → ResolvedNode
unfolding parse_node_identity broker_addresses key normalized insert join_csv
broker_resolved n default_deployment =
    let identity =
      parse_node_identity n.node_id
        (if is_empty n.deployment_id then default_deployment else n.deployment_id) in
    let (addresses, port) = broker_addresses n in
    normalized (record {
      identity = identity;
      instance_name = key identity;
      host_name = codes "";
      addresses = addresses;
      port = port;
      txt = some (txt_with_tasks n.tasks (copied (entries n.txt) []));
      expires_at = none;
    })

unfoldable pub node_event_from_broker : NodeEventType → BrokerNode → Text → Bool → NodeEvent
unfolding broker_resolved event_from_resolved
node_event_from_broker event_type n default_deployment explicit_remove =
    record (event_from_resolved event_type (broker_resolved n default_deployment)) {
      explicit_remove = explicit_remove;
    }

abbrev pub only_id : Text → BrokerNode
only_id node_id = record {
  node_id = node_id;
  deployment_id = codes "";
  address = codes "";
  addresses = [];
  port = pos 0;
  tasks = [];
  txt = none;
}

abbrev pub discovered_all : Text → List BrokerNode → List NodeEvent
discovered_all deployment_id [] = []
discovered_all deployment_id (n ∷ ns) =
    node_event_from_broker node_discovered n deployment_id false ∷ discovered_all deployment_id ns

-- `none` is an error: an unknown type, or a part that is missing.
unfoldable pub parse_node_events_with_deployment : BrokerNodeEvent → Text → Option (List NodeEvent)
unfolding text_eq node_event_from_broker
parse_node_events_with_deployment msg deployment_id =
    if text_eq msg.event_type (codes "snapshot")
    then some (discovered_all deployment_id msg.nodes)
    else if text_eq msg.event_type (codes "added")
    then elim msg.node [
      | none ↦ none
      | some n ↦ some (node_event_from_broker node_discovered n deployment_id false ∷ [])
    ]
    else if text_eq msg.event_type (codes "removed")
    then (if is_empty msg.node_id
        then none
        else some
            (node_event_from_broker node_expired (only_id msg.node_id) deployment_id true ∷ []))
    else none

unfoldable pub parse_node_events : BrokerNodeEvent → Option (List NodeEvent)
unfolding parse_node_events_with_deployment
parse_node_events msg = parse_node_events_with_deployment msg default_deployment_id

unfoldable pub ws_scheme : Text → Text
unfolding has_prefix
ws_scheme broker_url = if has_prefix broker_url (codes "https") then codes "wss" else codes "ws"

unfoldable pub ws_host : Text → Text
unfolding has_prefix
ws_host broker_url =
    if has_prefix broker_url (codes "http://")
    then drop 7 broker_url
    else if has_prefix broker_url (codes "https://")
    then drop 8 broker_url
    else broker_url
