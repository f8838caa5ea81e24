-- ===== src/Discovery/Events.antt =====
-- pkg/discovery/resolver.go: the events of discovery, and how mdns_resolver.go makes one of a resolved node.
use lumen_sdk.Base.{Bool, false, List}
use lumen_sdk.Base.Text.{Text}
use lumen_sdk.Types.Proto.{Meta}
use lumen_sdk.Discovery.Identity.{
  NodeIdentity, ResolvedNode, normalized, candidate_endpoints, hint_tasks,
}

pub data NodeEventType : Type 0 where
  node_discovered node_expired node_resolve_failed : NodeEventType

pub record NodeEvent : Type 0 where
  pub event_type : NodeEventType
  pub identity : NodeIdentity
  pub resolved : ResolvedNode
  pub addresses : List Text
  pub tasks : List Text
  pub txt : Meta
  pub explicit_remove : Bool

unfoldable pub event_from_resolved : NodeEventType → ResolvedNode → NodeEvent
unfolding normalized candidate_endpoints hint_tasks
event_from_resolved event_type node =
    let resolved = normalized node in
    record {
      event_type = event_type;
      identity = resolved.identity;
      resolved = resolved;
      addresses = candidate_endpoints resolved;
      tasks = hint_tasks resolved;
      txt = resolved.txt;
      explicit_remove = false;
    }
