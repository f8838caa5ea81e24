-- ===== src/Session/Events.antt =====
-- What the events that are parsed of a message do to the nodes that a resolver holds.
use lumen_sdk.Base.{
  ◌≡◌, refl, ap, ◌∙◌, Bool, true, false, not, ◌&&◌, ◌||◌, [], ◌∷◌, arith, if◌then◌else◌,
}
use lumen_sdk.Base.Text.{Text, text_eq, is_empty, trim_space_idem}
use lumen_sdk.Base.Dict.{lookup}
use lumen_sdk.Base.Unique.{is_some}
use lumen_sdk.Discovery.Identity.{
  NodeIdentity, ResolvedNode, parse_node_identity, normalized_identity, key, key_from, is_zero,
  normalized, new_node_identity,
}
use lumen_sdk.Discovery.Identity.Keys.{normalized_identity_idem}
use lumen_sdk.Discovery.Events.{
  NodeEvent, node_discovered, node_expired, event_from_resolved, NodeEventType,
}
use lumen_sdk.Discovery.Wire.{BrokerNode, node_event_from_broker, broker_resolved, only_id}
use lumen_sdk.HostBroker.NodeWatch.{WsNodeInfo}
use lumen_sdk.Client.Resolver.{Nodes, watch, resolved_from_event, event_key, or_identity}
use lumen_sdk.Client.Resolver.Laws.{watch-known_after}
use lumen_sdk.Session.{received_node}

key_normalized : (i : NodeIdentity) → key (normalized_identity i) ≡ key i
unfolding key
key_normalized i = ap key_from (normalized_identity_idem i)

is_zero_normalized : (i : NodeIdentity) → is_zero (normalized_identity i) ≡ is_zero i
unfolding is_zero normalized_identity new_node_identity
is_zero_normalized i = ap is_empty (trim_space_idem i.node_id)

or_identity_lem :
    (ev : NodeEvent) → ev.identity ≡ ev.resolved.identity → or_identity ev ≡ ev.resolved.identity
or_identity_lem ev e = rw e (either_way _ ev.resolved.identity)
  where
    either_way : (c : Bool) (i : NodeIdentity) → (if c then i else i) ≡ i
    either_way true i = refl
    either_way false i = refl

resolved_identity :
    (ev : NodeEvent) → (resolved_from_event ev).identity ≡ normalized_identity (or_identity ev)
unfolding resolved_from_event normalized
resolved_identity ev = refl

-- The identity that a message names.
abbrev identity_of : BrokerNode → Text → NodeIdentity
identity_of n deployment =
    parse_node_identity n.node_id (if is_empty n.deployment_id then deployment else n.deployment_id)

-- The identity of the node that the resolver makes of the event of a message.
event_identity :
    (t : NodeEventType) (n : BrokerNode) (deployment : Text) (explicit : Bool)
    → (resolved_from_event (node_event_from_broker t n deployment explicit)).identity
      ≡ normalized_identity (normalized_identity (normalized_identity (identity_of n deployment)))
unfolding node_event_from_broker event_from_resolved broker_resolved normalized
event_identity t n deployment explicit =
    resolved_identity (node_event_from_broker t n deployment explicit)
    ∙ ap normalized_identity (or_identity_lem (node_event_from_broker t n deployment explicit) refl)

event_key_of :
    (t : NodeEventType) (n : BrokerNode) (deployment : Text) (explicit : Bool)
    → key (resolved_from_event (node_event_from_broker t n deployment explicit)).identity
      ≡ key (identity_of n deployment)
event_key_of t n deployment explicit =
    rw (event_identity t n deployment explicit, key_normalized, key_normalized, key_normalized) refl

event_is_zero :
    (t : NodeEventType) (n : BrokerNode) (deployment : Text) (explicit : Bool)
    → is_zero (resolved_from_event (node_event_from_broker t n deployment explicit)).identity
      ≡ is_zero (identity_of n deployment)
event_is_zero t n deployment explicit =
    rw
      (
        event_identity t n deployment explicit,
        is_zero_normalized,
        is_zero_normalized,
        is_zero_normalized,
      )
      refl

-- An id that is the key of the identity which is parsed of it with the client's deployment.
pub record IsKey (deployment id : Text) : Type 0 where
  pub named : is_zero (parse_node_identity id deployment) ≡ false
  pub same : key (parse_node_identity id deployment) ≡ id
  pub set : is_empty id ≡ false

-- What the parsing gives of one node, as it bears on the nodes that are held.
pub watch-discovered :
    (n : WsNodeInfo) (deployment : Text) (nodes : Nodes) (k : Text)
    → IsKey deployment n.node_id
    → is_some (
        lookup k (
          watch
            (node_event_from_broker node_discovered (received_node n) deployment false ∷ [])
            nodes))
      ≡ (text_eq n.node_id k || is_some (lookup k nodes))
unfolding node_event_from_broker event_from_resolved
watch-discovered n deployment nodes k is =
    let ev = node_event_from_broker node_discovered (received_node n) deployment false in
    watch-known_after (ev ∷ []) nodes k
    ∙ rw
        (
          event_is_zero node_discovered (received_node n) deployment false,
          event_key_of node_discovered (received_node n) deployment false,
          is.named,
          is.same,
        )
        (and_true _ _)
  where
    and_true : (a b : Bool) → (a || (b && true)) ≡ (a || b)
    and_true a b = ground arith

event_key-key :
    (ev : NodeEvent) (resolved : ResolvedNode)
    → is_zero resolved.identity ≡ false
    → event_key ev resolved ≡ key resolved.identity
unfolding event_key
event_key-key ev resolved h = rw (h, event_key) refl

expired_key :
    (id deployment : Text)
    → IsKey deployment id
    → event_key
        (node_event_from_broker node_expired (only_id id) deployment true)
        (resolved_from_event (node_event_from_broker node_expired (only_id id) deployment true))
      ≡ id
expired_key id deployment is =
    event_key-key (node_event_from_broker node_expired (only_id id) deployment true)
      (resolved_from_event (node_event_from_broker node_expired (only_id id) deployment true))
      (event_is_zero node_expired (only_id id) deployment true ∙ is.named)
    ∙ event_key_of node_expired (only_id id) deployment true
    ∙ is.same

pub watch-expired :
    (id deployment : Text) (nodes : Nodes) (k : Text)
    → IsKey deployment id
    → is_some (
        lookup k
          (watch (node_event_from_broker node_expired (only_id id) deployment true ∷ []) nodes))
      ≡ (not (text_eq id k) && is_some (lookup k nodes))
unfolding node_event_from_broker event_from_resolved
watch-expired id deployment nodes k is =
    let ev = node_event_from_broker node_expired (only_id id) deployment true in
    watch-known_after (ev ∷ []) nodes k ∙ rw (expired_key id deployment is, is.set) (swap _ _)
  where
    swap : (a b : Bool) → (false || (a && not (true && (true && b)))) ≡ (not b && a)
    swap a b = ground arith
