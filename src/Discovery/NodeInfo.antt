-- ===== src/Discovery/NodeInfo.antt =====
-- pkg/discovery/types.go: what the SDK tells of a node, its fields that the node watch reads.
use lumen_sdk.Base.{Bool, true, false, List, Option}
use lumen_sdk.Base.Text.{Text}
use lumen_sdk.Types.Proto.{IoTask}
use lumen_sdk.Discovery.Identity.{NodeStatus, active}

-- Connections, metadata, models and the time that it was seen last are left out.
pub record NodeInfo : Type 0 where
  pub id : Text
  pub address : Text
  pub status : NodeStatus
  pub tasks : List (Option IoTask)
  pub version : Text
  pub runtime : Text

abbrev pub is_active : NodeStatus → Bool
is_active active = true
is_active _ = false
