-- ===== src/Client/Balancer.antt =====
-- pkg/client/lumen_balancer.go: the task-aware gRPC balancer. Its state and its helpers are in `State`,
-- the handlers of gRPC's callbacks in `Handlers`, the capability fetch in `Fetch`, the picker in
-- `Picker`; `Machine` puts the operations together as the steps of one state machine.
pub mod State
pub mod Handlers
pub mod Picker
pub mod Fetch
pub mod Machine
pub mod Nodes
