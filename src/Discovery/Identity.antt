-- ===== src/Discovery/Identity.antt =====
-- pkg/discovery/operational.go: the identity of a node, what discovery resolves of it, and its
-- availability. A nil map is told apart from an empty one; addresses and ports are as in Go.
pub mod Keys
mod Tests
use lumen_sdk.Base.{
  ℕ, ◌<◌, ◌≡◌, Bool, true, false, List, [], ◌∷◌, ◌++◌, map, Option, none, some, ◌&&◌, ◌||◌,
  if◌then◌else◌, ltb, ◌==◌, length, drop,
}
use lumen_sdk.Base.Int.{ℤ, pos, negsuc}
use lumen_sdk.Base.Text.{
  Text, codes, is_empty, trim_space, trim_suffix, trim, has_prefix, split, contains_rune, itoa,
}
use lumen_sdk.Base.Text.HostPort.{join_host_port}
use lumen_sdk.Base.Unique.{nothing_seen, visit_all}
use lumen_sdk.Types.Proto.{Meta, meta_get}

abbrev pub default_deployment_id : Text
default_deployment_id = codes "local"

pub record NodeIdentity : Type 0 where
  pub deployment_id : Text
  pub node_id : Text

pub or_default_deployment : Text → Text
or_default_deployment s = if is_empty s then default_deployment_id else s

unfoldable pub new_node_identity : Text → Text → NodeIdentity
unfolding or_default_deployment trim_space
new_node_identity deployment_id node_id = record {
  deployment_id = or_default_deployment (trim_space deployment_id);
  node_id = trim_space node_id;
}

-- `defaultDeploymentID + "-"`
abbrev pub dash : Text → Text
dash s = s ++ codes "-"

pub parse_from : Text → Text → NodeIdentity
parse_from instance deployment_id =
    if is_empty instance
    then new_node_identity deployment_id []
    else if has_prefix instance (dash deployment_id)
        && ltb (length (dash deployment_id)) (length instance)
    then new_node_identity deployment_id (drop (length (dash deployment_id)) instance)
    else new_node_identity deployment_id instance

unfoldable pub parse_node_identity : Text → Text → NodeIdentity
unfolding parse_from or_default_deployment trim_space
parse_node_identity instance_name default_deployment =
    parse_from (trim_space (trim_suffix instance_name b'.'))
      (or_default_deployment (trim_space default_deployment))

unfoldable pub normalized_identity : NodeIdentity → NodeIdentity
unfolding new_node_identity
normalized_identity i = new_node_identity i.deployment_id i.node_id

pub key_from : NodeIdentity → Text
key_from i =
    if is_empty i.node_id then i.deployment_id else i.deployment_id ++ (codes "-" ++ i.node_id)

unfoldable pub key : NodeIdentity → Text
unfolding key_from normalized_identity
key i = key_from (normalized_identity i)

unfoldable pub is_zero : NodeIdentity → Bool
unfolding trim_space
is_zero i = is_empty (trim_space i.node_id)

pub record ResolvedNode : Type 0 where
  pub identity : NodeIdentity
  pub instance_name : Text
  pub host_name : Text
  pub addresses : List Text
  pub port : ℤ
  pub txt : Meta
  pub expires_at : Option ℕ

unfoldable pub split_csv : Text → List Text
unfolding split visit_all trim_space
split_csv raw =
    if is_empty raw then [] else (visit_all trim_space nothing_seen (split b',' raw)).out

abbrev is_bracket : ℕ → Bool
is_bracket c = (c == b'[') || (c == b']')

unfoldable pub clean_address : Text → Text
unfolding trim trim_space
clean_address addr = trim_space (trim is_bracket addr)

unfoldable pub normalize_addresses : List Text → List Text
unfolding visit_all clean_address
normalize_addresses addresses = (visit_all clean_address nothing_seen addresses).out

abbrev or_empty_map : Meta → Meta
or_empty_map none = some []
or_empty_map (some m) = some m

unfoldable pub normalized : ResolvedNode → ResolvedNode
unfolding normalized_identity normalize_addresses
normalized n = record n {
  identity = normalized_identity n.identity;
  addresses = normalize_addresses n.addresses;
  txt = or_empty_map n.txt;
}

unfoldable pub endpoints_from : List Text → ℤ → List Text
unfolding join_host_port itoa
endpoints_from addresses (negsuc p) = []
endpoints_from addresses (pos p) =
    if p == 0 then [] else map (λ addr. join_host_port addr (itoa p)) addresses

unfoldable pub candidate_endpoints : ResolvedNode → List Text
unfolding endpoints_from normalized
candidate_endpoints n = endpoints_from (normalized n).addresses (normalized n).port

unfoldable pub hint_tasks : ResolvedNode → List Text
unfolding split_csv meta_get
hint_tasks n = split_csv (meta_get n.txt (codes "tasks"))

pub data NodeAvailability : Type 0 where
  unknown resolving connecting ready degraded rediscovering unavailable : NodeAvailability

-- The constants of pkg/discovery/types.go.
pub data NodeStatus : Type 0 where
  unknown starting active error : NodeStatus

unfoldable pub node_status : NodeAvailability → NodeStatus
node_status NodeAvailability.ready = active
node_status NodeAvailability.connecting = starting
node_status NodeAvailability.resolving = starting
node_status NodeAvailability.degraded = error
node_status NodeAvailability.rediscovering = error
node_status NodeAvailability.unavailable = error
node_status NodeAvailability.unknown = NodeStatus.unknown
