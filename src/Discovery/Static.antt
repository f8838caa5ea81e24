-- ===== src/Discovery/Static.antt =====
-- pkg/discovery/static_resolver.go: a fixed list of endpoints as events of discovery. The channel, and waiting
-- for the end of the context, are left out.
use lumen_sdk.Base.{
  ◌≡◌, refl, Bool, false, if◌then◌else◌, List, [], ◌∷◌, ◌++◌, map, Option, none, some, leb, ◌==◌,
}
use lumen_sdk.Base.Int.{ℤ, pos, negsuc}
use lumen_sdk.Base.Text.{Text, codes, is_empty, trim_space}
use lumen_sdk.Base.Text.HostPort.{split_host_port, atoi}
use lumen_sdk.Discovery.Identity.{
  ResolvedNode, default_deployment_id, new_node_identity, normalized,
}
use lumen_sdk.Discovery.Events.{NodeEvent, node_discovered, event_from_resolved}

pub record StaticResolver : Type 0 where
  pub endpoints : List Text
  pub deployment_id : Text

unfoldable pub new_static_resolver : List Text → Text → StaticResolver
new_static_resolver endpoints deployment_id = record {
  endpoints = endpoints;
  deployment_id = if is_empty deployment_id then default_deployment_id else deployment_id;
}

abbrev pub is_port : ℤ → Bool
is_port (pos n) = if n == 0 then false else leb n 65535
is_port (negsuc n) = false

abbrev pub resolved_at : Text → Text → Text → Option ℤ → Option ResolvedNode
resolved_at deployment_id endpoint host none = none
resolved_at deployment_id endpoint host (some port) =
    if is_port port
    then (if is_empty (trim_space host)
        then none
        else (let identity = new_node_identity deployment_id (codes "static-" ++ endpoint) in
            some (
              normalized (record {
                identity = identity;
                instance_name = identity.node_id;
                host_name = codes "";
                addresses = host ∷ [];
                port = port;
                txt = none;
                expires_at = none;
              }))))
    else none

unfoldable pub resolve_endpoint : StaticResolver → Text → Option ResolvedNode
unfolding split_host_port atoi new_node_identity normalized trim_space
resolve_endpoint r endpoint = elim (split_host_port endpoint) [
  | none ↦ none
  | some (host, port) ↦ resolved_at r.deployment_id endpoint host (atoi port)
]

abbrev pub discovered_at : Option ResolvedNode → List NodeEvent → List NodeEvent
discovered_at none events = events
discovered_at (some resolved) events = event_from_resolved node_discovered resolved ∷ events

static_events : StaticResolver → List Text → List NodeEvent
unfolding resolve_endpoint trim_space event_from_resolved
static_events r [] = []
static_events r (endpoint ∷ endpoints) =
    let rest = static_events r endpoints in
    if is_empty (trim_space endpoint)
    then rest
    else discovered_at (resolve_endpoint r (trim_space endpoint)) rest

-- The events that Watch sends, in their order.
unfoldable pub static_watch : StaticResolver → List NodeEvent
unfolding static_events
static_watch r = static_events r r.endpoints

two_of_four :
    map {B = Text × List Text}
      (λ (ev : NodeEvent). (ev.identity.node_id, ev.addresses))
      (static_watch (
        new_static_resolver
          (codes " h:1 " ∷ [] ∷ codes "h:65536" ∷ codes "[::1]:2" ∷ [])
          (codes "")))
    ≡ (codes "static-h:1", codes "h:1" ∷ []) ∷ (codes "static-[::1]:2", codes "[::1]:2" ∷ []) ∷ []
unfolding static_watch new_static_resolver
two_of_four = refl
