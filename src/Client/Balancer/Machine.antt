-- ===== src/Client/Balancer/Machine.antt =====
-- The balancer as a state machine. Each step runs under the lock of the balancer, so the histories are
-- the sequences of steps; a callback may come for a pointer that is no longer in the map.
pub mod Kept
pub mod Frame
pub mod Registry
pub mod Cooldown
pub mod Membership
mod Tests
use lumen_sdk.Base.{ℕ, List, [], ◌∷◌, Option, none, some}
use lumen_sdk.Base.Text.{Text}
use lumen_sdk.Types.Proto.{Capability}
use lumen_sdk.Client.Balancer.State.{Balancer, Address, ConnState}
use lumen_sdk.Client.Balancer.Handlers.{
  Dial, update_client_conn_state, handle_sub_conn_state_change, exit_idle,
}
use lumen_sdk.Client.Balancer.Picker.{RpcError, done}
use lumen_sdk.Client.Balancer.Fetch.{Received, fetch_capabilities_for_node, end_fetch}

pub data Step : Balancer → Balancer → Type 0 where
  resolved :
      (dial : Dial) (addrs : List Address) (now : ℕ) (lb : Balancer)
      → Step lb (update_client_conn_state dial addrs now lb)
  state_changed :
      (key : Text) (state : ConnState) (now later : ℕ) (lb : Balancer)
      → Step lb (handle_sub_conn_state_change key state now later lb)
  rpc_done :
      (p : ℕ) (outcome : Option RpcError) (now later : ℕ) (lb : Balancer)
      → Step lb (done p outcome now later lb)
  fetched :
      (key : Text) (reply : Option (List Received)) (now : ℕ) (lb : Balancer)
      → Step lb (fetch_capabilities_for_node key reply now lb).0
  fetch_ended : (key : Text) (lb : Balancer) → Step lb (end_fetch key lb)
  idle_exited : (lb : Balancer) → Step lb (exit_idle lb)

-- A history.
pub data Steps (lb : Balancer) : Balancer → Type 0 where
  start : Steps lb lb
  next : {b c : Balancer} → Steps lb b → Step b c → Steps lb c
