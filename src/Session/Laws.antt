-- ===== src/Session/Laws.antt =====
-- What a client knows of the nodes when it follows a host broker.
use lumen_sdk.Base.{
  ◌≡◌, refl, sym, ap, ◌∙◌, Bool, true, false, not, ◌&&◌, ◌||◌, List, [], ◌∷◌, map, Option, none,
  arith, All,
}
use lumen_sdk.Base.Text.{Text, codes, text_eq}
use lumen_sdk.Base.Dict.{lookup, insert}
use lumen_sdk.Base.Unique.{is_some}
use lumen_sdk.Discovery.Events.{NodeEvent, node_discovered, event_from_resolved}
use lumen_sdk.Discovery.NodeInfo.{NodeInfo}
use lumen_sdk.Discovery.Wire.{
  BrokerNode, node_event_from_broker, parse_node_events_with_deployment, discovered_all,
}
use lumen_sdk.HostBroker.NodeWatch.{WsNodeInfo, WsNodeEvent, snapshot, added, removed, Hub, diff}
use lumen_sdk.HostBroker.NodeWatch.Laws.{
  View, see, see_all, see_events, has, has-insert, has-delete, lists_active, broadcast-follows,
}
use lumen_sdk.Client.Resolver.{Nodes, watch}
use lumen_sdk.Client.Resolver.Laws.{discovers, removes, known_after, watch-known_after}
use lumen_sdk.Session.{received, received_node, or_skip, session}
use lumen_sdk.Session.Events.{IsKey, watch-discovered, watch-expired}

-- The nodes that are held and the view of the messages have the same ids.
abbrev pub Agrees : Nodes → View → Type 0
Agrees nodes v = (k : Text) → is_some (lookup k nodes) ≡ has k v

discovered-Agrees :
    (n : WsNodeInfo) (deployment : Text) (nodes : Nodes) (v : View)
    → IsKey deployment n.node_id
    → Agrees nodes v
    → Agrees
        (watch
          (node_event_from_broker node_discovered (received_node n) deployment false ∷ [])
          nodes)
        (insert n.node_id n v)
discovered-Agrees n deployment nodes v is a k =
    watch-discovered n deployment nodes k is
    ∙ ap (λ b. text_eq n.node_id k || b) (a k)
    ∙ sym (has-insert n.node_id k n v)

all-Agrees :
    (ns : List WsNodeInfo) (deployment : Text) (nodes : Nodes) (v : View)
    → All (λ n. IsKey deployment n.node_id) ns
    → Agrees nodes v
    → Agrees (watch (discovered_all deployment (map received_node ns)) nodes) (see_all ns v)
unfolding watch
all-Agrees [] deployment nodes v is a = a
all-Agrees (n ∷ ns) deployment nodes v (is, rest) a =
    all-Agrees ns deployment
      (watch (node_event_from_broker node_discovered (received_node n) deployment false ∷ []) nodes)
      (insert n.node_id n v) rest (discovered-Agrees n deployment nodes v is a)

-- Every id of the message is such a key.
abbrev pub HasKeys : Text → WsNodeEvent → Type 0
HasKeys deployment (snapshot ns) = All (λ n. IsKey deployment n.node_id) ns
HasKeys deployment (added n) = IsKey deployment n.node_id
HasKeys deployment (removed id) = IsKey deployment id

message-Agrees :
    (m : WsNodeEvent) (deployment : Text) (nodes : Nodes) (v : View)
    → HasKeys deployment m
    → Agrees nodes v
    → Agrees
        (watch (or_skip (parse_node_events_with_deployment (received m) deployment)) nodes)
        (see m v)
unfolding parse_node_events_with_deployment
message-Agrees (snapshot ns) deployment nodes v is a = all-Agrees ns deployment nodes v is a
message-Agrees (added n) deployment nodes v is a = discovered-Agrees n deployment nodes v is a
message-Agrees (removed id) deployment nodes v is a = rw is.set (λ k.
    watch-expired id deployment nodes k is
    ∙ ap (λ b. not (text_eq id k) && b) (a k)
    ∙ sym (has-delete id k v))

session-Agrees :
    (ms : List WsNodeEvent) (deployment : Text) (nodes : Nodes) (v : View)
    → All (HasKeys deployment) ms
    → Agrees nodes v
    → Agrees (session deployment ms nodes) (see_events ms v)
unfolding session see_events
session-Agrees [] deployment nodes v is a = a
session-Agrees (m ∷ ms) deployment nodes v (is, rest) a =
    session-Agrees ms deployment
      (watch (or_skip (parse_node_events_with_deployment (received m) deployment)) nodes) (see m v)
      rest (message-Agrees m deployment nodes v is a)

-- A view with the ids of the nodes.
view_of : Nodes → View
view_of [] = []
view_of ((id, e) ∷ m) =
    (id, record { node_id = id; address = codes ""; tasks = []; txt = none }) ∷ view_of m

has-view_of : (nodes : Nodes) (id : Text) → is_some (lookup id nodes) ≡ has id (view_of nodes)
unfolding lookup view_of
has-view_of [] id = refl
has-view_of ((j, e) ∷ m) id = ground (arith, has-view_of m id)

-- A client that holds the nodes of which the host broker has told before, and whose resolver handles the
-- events that are parsed of the messages of one more broadcast, then holds exactly the nodes that are
-- active at the host broker, if each id in the messages is the key of the identity that is parsed of it
-- with the client's own deployment.
pub session-follows :
    (hub : Hub) (active : List (Option NodeInfo)) (deployment : Text) (nodes : Nodes)
    → All (HasKeys deployment) (diff hub active)
    → ((k : Text) → is_some (lookup k nodes) ≡ has k hub.prev_nodes)
    → (k : Text)
    → is_some (lookup k (session deployment (diff hub active) nodes)) ≡ lists_active active k
session-follows hub active deployment nodes is a k =
    session-Agrees (diff hub active) deployment nodes (view_of nodes) is (has-view_of nodes) k
    ∙ (broadcast-follows (λ _. 0) hub active (view_of nodes)
        (λ id. sym (has-view_of nodes id) ∙ a id) k).0

discovered_kept :
    (k : Text) (ev : NodeEvent)
    → ev.event_type ≡ node_discovered
    → (discovers k ev || (true && not (removes k ev))) ≡ true
discovered_kept k ev e = rw e (or_true _)
  where
    or_true : (b : Bool) → (b || true) ≡ true
    or_true b = ground arith

known-discovered_all :
    (k deployment : Text) (ns : List BrokerNode)
    → known_after k (discovered_all deployment ns) true ≡ true
unfolding node_event_from_broker event_from_resolved
known-discovered_all k deployment [] = refl
known-discovered_all k deployment (n ∷ ns) =
    ap (known_after k (discovered_all deployment ns))
      (discovered_kept k (node_event_from_broker node_discovered n deployment false) refl)
    ∙ known-discovered_all k deployment ns

-- A snapshot, such as the first message after a client has reconnected, takes no node away: a node that
-- went away while the client was not connected is still held after the snapshot that lacks it.
pub session-snapshot_stale :
    (ns : List WsNodeInfo) (deployment : Text) (nodes : Nodes) (k : Text)
    → is_some (lookup k nodes) ≡ true
    → is_some (lookup k (session deployment (snapshot ns ∷ []) nodes)) ≡ true
unfolding session parse_node_events_with_deployment
session-snapshot_stale ns deployment nodes k h =
    watch-known_after (discovered_all deployment (map received_node ns)) nodes k
    ∙ ap (known_after k (discovered_all deployment (map received_node ns))) h
    ∙ known-discovered_all k deployment (map received_node ns)
