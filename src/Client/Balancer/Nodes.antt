-- ===== src/Client/Balancer/Nodes.antt =====
-- What the pool reads from the registry: the list of nodes and the counts.
pub mod Laws
use lumen_sdk.Base.{
  ℕ, ◌+◌, Bool, if◌then◌else◌, List, [], ◌∷◌, map, Option, none, some, leb, length,
}
use lumen_sdk.Base.Text.{Text, codes}
use lumen_sdk.Types.Proto.{meta_get, IoTask}
use lumen_sdk.Discovery.Identity.{NodeAvailability, node_status, key}
use lumen_sdk.Discovery.NodeInfo.{NodeInfo}
use lumen_sdk.Client.Pool.{hard_failure_threshold, tasks_to_io_tasks_from_capabilities}
use lumen_sdk.Client.Balancer.State.{
  ConnState, RegisteredNode, NodeRegistry, is_ready, reaches_threshold,
}

abbrev pub availability_in : ConnState → ℕ → NodeAvailability
availability_in ConnState.ready failures = NodeAvailability.ready
availability_in ConnState.connecting failures = NodeAvailability.connecting
availability_in ConnState.idle failures = NodeAvailability.resolving
availability_in ConnState.transient_failure failures =
    if reaches_threshold failures
    then NodeAvailability.unavailable
    else NodeAvailability.rediscovering
availability_in ConnState.shutdown failures = NodeAvailability.unknown

unfoldable pub availability_from_registered : RegisteredNode → NodeAvailability
availability_from_registered rn = availability_in rn.state rn.hard_failures

unfoldable pub node_info : RegisteredNode → NodeInfo
unfolding availability_from_registered node_status key tasks_to_io_tasks_from_capabilities meta_get
node_info rn = record {
  id = key rn.identity;
  address = rn.addr;
  status = node_status (availability_from_registered rn);
  tasks = map (λ t. some t) (tasks_to_io_tasks_from_capabilities rn.capabilities rn.tasks);
  version = meta_get rn.txt (codes "v");
  runtime = meta_get rn.txt (codes "runtime");
}

unfoldable pub infos_of : List (Text × RegisteredNode) → List NodeInfo
unfolding node_info
infos_of [] = []
infos_of ((k, rn) ∷ m) = node_info rn ∷ infos_of m

unfoldable pub node_infos : NodeRegistry → List NodeInfo
unfolding infos_of
node_infos r = infos_of r.nodes

unfoldable pub count_healthy : List (Text × RegisteredNode) → ℕ
count_healthy [] = 0
count_healthy ((k, rn) ∷ m) =
    let rest = count_healthy m in if is_ready rn.state then rest + 1 else rest

-- The number of nodes, and of those that are ready.
unfoldable pub stats : NodeRegistry → ℕ × ℕ
unfolding count_healthy
stats r = (length r.nodes, count_healthy r.nodes)
