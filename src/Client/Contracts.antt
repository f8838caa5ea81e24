-- ===== src/Client/Contracts.antt =====
-- FindTaskContract of pkg/client/client.go, and the contract of pkg/types/task_contract_helpers.go that it
-- returns. A contract without a task is `none`.
use lumen_sdk.Base.{Bool, false, not, if◌then◌else◌, List, [], ◌∷◌, Option, none, some}
use lumen_sdk.Base.Text.{Text, codes, text_eq, is_empty, trim_space}
use lumen_sdk.Types.Proto.{IoTask, Capability}
use lumen_sdk.Discovery.Identity.{node_status}
use lumen_sdk.Discovery.NodeInfo.{is_active}
use lumen_sdk.Client.Balancer.State.{RegisteredNode, NodeRegistry}
use lumen_sdk.Client.Balancer.Nodes.{availability_from_registered}

pub record TaskContract : Type 0 where
  pub task : Option IoTask

unfoldable pub new_task_contract : Option IoTask → TaskContract
new_task_contract task = record { task = task }

abbrev pub preprocess_id_of : Option IoTask → Text
unfolding trim_space
preprocess_id_of none = codes ""
preprocess_id_of (some task) = trim_space task.tensor_preprocess_id

unfoldable pub tensor_preprocess_id : TaskContract → Text
unfolding trim_space
tensor_preprocess_id t = preprocess_id_of t.task

unfoldable pub has_tensor_path : TaskContract → Bool
unfolding tensor_preprocess_id
has_tensor_path t = not (is_empty (tensor_preprocess_id t))

abbrev pub batching_in : Option IoTask → Bool
batching_in none = false
batching_in (some task) = task.tensor_batching_supported

unfoldable pub tensor_batching_supported : TaskContract → Bool
tensor_batching_supported t = batching_in t.task

-- The first task of the name.
abbrev pub named_task : Text → List IoTask → Option IoTask
unfolding text_eq
named_task name [] = none
named_task name (t ∷ ts) =
    let rest = named_task name ts in if text_eq t.name name then some t else rest

abbrev pub or_next :
    Option IoTask → Text → Option (TaskContract × Text) → Option (TaskContract × Text)
or_next none service rest = rest
or_next (some task) service rest = some (record { task = some task }, service)

abbrev pub contract_in : Text → List Capability → Option (TaskContract × Text)
unfolding text_eq
contract_in name [] = none
contract_in name (c ∷ cs) = or_next (named_task name c.tasks) c.service_name (contract_in name cs)

abbrev pub or_later :
    Option (TaskContract × Text) → Option (TaskContract × Text) → Option (TaskContract × Text)
or_later none rest = rest
or_later (some found) rest = some found

-- The loop over the nodes; one that is not active is skipped.
abbrev pub contract_among : Text → List (Text × RegisteredNode) → Option (TaskContract × Text)
unfolding text_eq availability_from_registered node_status
contract_among name [] = none
contract_among name ((k, rn) ∷ nodes) =
    let rest = contract_among name nodes in
    if is_active (node_status (availability_from_registered rn))
    then or_later (contract_in name rn.capabilities) rest
    else rest

unfoldable pub find_task_contract : Text → NodeRegistry → Option (TaskContract × Text)
unfolding trim_space text_eq availability_from_registered node_status
find_task_contract task_name r =
    if is_empty (trim_space task_name) then none else contract_among (trim_space task_name) r.nodes
