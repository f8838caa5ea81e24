-- ===== src/Client/Balancer/Fetch.antt =====
-- The capability fetch, which runs as a goroutine for one node. What the network answers is an argument.
pub mod Retry
use lumen_sdk.Base.{
  ℕ, ◌+◌, ◌*◌, ◌^◌, Bool, true, false, List, [], ◌∷◌, Option, none, some, ◌||◌, not, if◌then◌else◌,
  ltb,
}
use lumen_sdk.Base.Text.{Text, text_eq}
use lumen_sdk.Base.Dict.{lookup}
use lumen_sdk.Types.Proto.{Capability}
use lumen_sdk.Client.Pool.{merge_tasks, tasks_from_capabilities, seconds}
use lumen_sdk.Client.Balancer.State.{
  Balancer, SubConnState, is_ready, write, sync_registry, rebuild_picker,
}

-- What `stream.Recv` returns.
pub data Received : Type 0 where
  capability : Option Capability → Received
  end_of_stream recv_failed : Received

-- The loop over the stream; a stream that is not listed to its end has broken off.
unfoldable pub receive : List Received → List Capability
receive [] = []
receive (end_of_stream ∷ rs) = []
receive (recv_failed ∷ rs) = []
receive (capability none ∷ rs) = receive rs
receive (capability (some c) ∷ rs) = c ∷ receive rs

-- The capabilities of a node, and its tasks with those that they name.
abbrev pub with_capabilities : List Capability → SubConnState → SubConnState
with_capabilities caps scs = record scs {
  capabilities = caps;
  tasks = merge_tasks scs.tasks (tasks_from_capabilities caps);
}

unfoldable pub publish : Text → List Capability → ℕ → Balancer → Balancer
unfolding lookup sync_registry rebuild_picker
publish k caps now lb = elim (lookup k lb.sub_conns) [
  | none ↦ rebuild_picker now (sync_registry lb)
  | some p ↦ rebuild_picker now (sync_registry (write p (with_capabilities caps (lb.store p)) lb))
]

abbrev pub publish_some : Text → List Capability → ℕ → Balancer → Balancer × Bool
publish_some k [] now lb = (lb, false)
publish_some k (c ∷ cs) now lb = (publish k (c ∷ cs) now lb, true)

-- fetchCapabilitiesForNode; `none` is a failure to dial or to open the stream.
unfoldable pub fetch_capabilities_for_node :
    Text → Option (List Received) → ℕ → Balancer → Balancer × Bool
unfolding receive publish
fetch_capabilities_for_node k none now lb = (lb, false)
fetch_capabilities_for_node k (some rs) now lb = publish_some k (receive rs) now lb

-- The deferred function of fetchCapabilitiesWithRetry.
unfoldable pub end_fetch : Text → Balancer → Balancer
unfolding lookup
end_fetch k lb = elim (lookup k lb.sub_conns) [
  | none ↦ lb
  | some p ↦ write p (record (lb.store p) { cap_fetching = false }) lb
]

-- The node is gone, is not ready any more, or has moved.
unfoldable pub is_stale : Text → Text → Balancer → Bool
unfolding lookup text_eq
is_stale k addr lb = elim (lookup k lb.sub_conns) [
  | none ↦ true
  | some p ↦ not (is_ready (lb.store p).state) || not (text_eq (lb.store p).addr.addr addr)
]

abbrev pub cap_fetch_backoff_min : ℕ
cap_fetch_backoff_min = seconds 1

abbrev pub cap_fetch_backoff_max : ℕ
cap_fetch_backoff_max = seconds 8

unfoldable pub next_backoff : ℕ → ℕ
next_backoff backoff =
    if ltb cap_fetch_backoff_max (backoff * 2) then cap_fetch_backoff_max else backoff * 2

-- The variables of the loop of fetchCapabilitiesWithRetry.
pub record FetchLoop : Type 0 where
  pub key : Text
  pub addr : Text
  pub backoff : ℕ
  pub attempt : ℕ

abbrev pub start_fetch : Text → Text → FetchLoop
start_fetch k addr = record { key = k; addr = addr; backoff = cap_fetch_backoff_min; attempt = 1 }

-- After an attempt: `none` returns, and so runs `end_fetch`; `some` has slept for the old backoff.
unfoldable pub after_attempt : FetchLoop → Bool → Balancer → Option FetchLoop
unfolding is_stale next_backoff
after_attempt l success lb =
    if success || is_stale l.key l.addr lb
    then none
    else some (record l { backoff = next_backoff l.backoff; attempt = l.attempt + 1 })
