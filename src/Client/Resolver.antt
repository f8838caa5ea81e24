-- ===== src/Client/Resolver.antt =====
-- pkg/client/lumen_resolver.go: the resolver that turns discovery events into the addresses of gRPC. The
-- task hint that resolvedFromEvent writes into the TXT map of the event is written into a copy here; nothing
-- modelled reads the event's map again. Go ranges over the nodes in no fixed order.
pub mod Laws
mod Tests
use lumen_sdk.Base.{
  ℕ, Bool, true, false, not, ◌&&◌, ◌||◌, if◌then◌else◌, List, [], ◌∷◌, Option, none, some,
}
use lumen_sdk.Base.Text.{Text, codes, is_empty, join_with}
use lumen_sdk.Base.Dict.{lookup, insert, delete}
use lumen_sdk.Types.Proto.{Meta, meta_get}
use lumen_sdk.Discovery.Identity.{
  NodeIdentity, ResolvedNode, is_zero, key, normalized, candidate_endpoints, hint_tasks,
}
use lumen_sdk.Discovery.Events.{NodeEvent, node_discovered, node_expired, node_resolve_failed}
use lumen_sdk.Client.Balancer.State.{Address, NodeAttr}

pub record ResolvedEntry : Type 0 where
  pub node : ResolvedNode
  pub endpoints : List Text

abbrev pub Nodes : Type 0
Nodes = List (Text × ResolvedEntry)

abbrev pub or_identity : NodeEvent → NodeIdentity
or_identity ev =
    if is_zero ev.resolved.identity && not (is_empty ev.identity.node_id)
    then ev.identity
    else ev.resolved.identity

abbrev pub or_addresses : List Text → List Text → List Text
or_addresses [] others = others
or_addresses (a ∷ addresses) others = a ∷ addresses

-- The TXT map: the node's, or a copy of the event's, or an empty one.
abbrev pub or_txt : Meta → Meta → List (Text × Text)
or_txt (some m) other = m
or_txt none (some m) = m
or_txt none none = []

abbrev pub add_tasks : List Text → List (Text × Text) → List (Text × Text)
add_tasks [] m = m
add_tasks (t ∷ ts) m =
    if is_empty (meta_get (some m) (codes "tasks"))
    then insert (codes "tasks") (join_with (codes ",") (t ∷ ts)) m
    else m

unfoldable pub resolved_from_event : NodeEvent → ResolvedNode
unfolding is_zero normalized insert meta_get join_with
resolved_from_event ev = normalized (record (ev.resolved) {
  identity = or_identity ev;
  addresses = or_addresses ev.resolved.addresses ev.addresses;
  txt = some (add_tasks ev.tasks (or_txt ev.resolved.txt ev.txt));
})

unfoldable pub event_key : NodeEvent → ResolvedNode → Text
unfolding is_zero key
event_key ev resolved =
    if not (is_zero resolved.identity)
    then key resolved.identity
    else if not (is_empty ev.identity.node_id)
    then key ev.identity
    else []

-- The addresses that pushStateLocked hands to gRPC: the first endpoint of each node that has one.
unfoldable pub push_state : Nodes → List Address
unfolding hint_tasks
push_state [] = []
push_state ((k, e) ∷ m) = elim e.endpoints [
  | [] ↦ push_state m
  | endpoint ∷ others ↦
      record {
        addr = endpoint;
        attr =
            some
              (record { identity = e.node.identity; tasks = hint_tasks e.node; txt = e.node.txt });
      }
      ∷ push_state m
]

unfoldable pub discover : ResolvedNode → Nodes → Nodes
unfolding is_zero key candidate_endpoints insert
discover resolved nodes =
    if is_zero resolved.identity
    then nodes
    else insert (key resolved.identity)
        (record { node = resolved; endpoints = candidate_endpoints resolved }) nodes

unfoldable pub expire : NodeEvent → Text → Nodes → Nodes
unfolding delete
expire ev k nodes =
    if is_empty k then nodes else if ev.explicit_remove then delete k nodes else nodes

-- The nodes after an event.
unfoldable pub handle_event : NodeEvent → Nodes → Nodes
unfolding resolved_from_event event_key discover expire
handle_event ev nodes = elim ev.event_type [
  | node_discovered ↦ discover (resolved_from_event ev) nodes
  | node_expired ↦ expire ev (event_key ev (resolved_from_event ev)) nodes
  | node_resolve_failed ↦ nodes
]

-- What gRPC is told after it, unless the event names no node.
unfoldable pub handled_update : NodeEvent → Nodes → Option (List Address)
unfolding handle_event push_state
handled_update ev nodes =
    let resolved = resolved_from_event ev in
    let update = some (push_state (handle_event ev nodes)) in
    elim ev.event_type [
      | node_discovered ↦ if is_zero resolved.identity then none else update
      | node_expired ↦ if is_empty (event_key ev resolved) then none else update
      | node_resolve_failed ↦ update
    ]

unfoldable pub watch : List NodeEvent → Nodes → Nodes
unfolding handle_event
watch [] nodes = nodes
watch (ev ∷ events) nodes = watch events (handle_event ev nodes)
