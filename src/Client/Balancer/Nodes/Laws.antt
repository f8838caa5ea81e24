-- ===== src/Client/Balancer/Nodes/Laws.antt =====
-- The list of nodes and the counts against the balancer.
use lumen_sdk.Base.{
  ℕ, ◌+◌, ◌≡◌, refl, ap, ◌∙◌, Bool, if◌then◌else◌, List, [], ◌∷◌, some, arith, length,
}
use lumen_sdk.Base.Text.{Text}
use lumen_sdk.Discovery.Identity.{node_status}
use lumen_sdk.Discovery.NodeInfo.{NodeInfo, is_active}
use lumen_sdk.Client.Balancer.State.{
  Balancer, BalancerOptions, NodeRegistry, SubConnState, ConnState, is_ready, snapshot,
  RegisteredNode,
}
use lumen_sdk.Client.Balancer.Handlers.{build}
use lumen_sdk.Client.Balancer.Machine.{Steps}
use lumen_sdk.Client.Balancer.Machine.Registry.{Steps-IsSynced}
use lumen_sdk.Client.Balancer.Nodes.{
  availability_in, availability_from_registered, node_info, infos_of, node_infos, count_healthy,
  stats,
}

-- The ready SubConns of the map.
abbrev pub count_ready : (ℕ → SubConnState) → List (Text × ℕ) → ℕ
count_ready store [] = 0
count_ready store ((k, p) ∷ m) =
    if is_ready (store p).state then count_ready store m + 1 else count_ready store m

abbrev pub count_active : List NodeInfo → ℕ
count_active [] = 0
count_active (n ∷ ns) = if is_active n.status then count_active ns + 1 else count_active ns

length-snapshot :
    (store : ℕ → SubConnState) (m : List (Text × ℕ)) → length (snapshot store m) ≡ length m
unfolding snapshot
length-snapshot store [] = refl
length-snapshot store ((k, p) ∷ m) = omega (arith, length-snapshot store m)

count_healthy-snapshot :
    (store : ℕ → SubConnState) (m : List (Text × ℕ))
    → count_healthy (snapshot store m) ≡ count_ready store m
unfolding snapshot count_healthy
count_healthy-snapshot store [] = refl
count_healthy-snapshot store ((k, p) ∷ m) =
    ap (λ n. if is_ready (store p).state then n + 1 else n) (count_healthy-snapshot store m)

-- A node is active just if its connection is ready.
active_if_ready :
    (s : ConnState) (failures : ℕ)
    → is_active (node_status (availability_in s failures)) ≡ is_ready s
unfolding node_status
active_if_ready s failures = ground arith

count_active-infos_of :
    (m : List (Text × RegisteredNode)) → count_active (infos_of m) ≡ count_healthy m
unfolding infos_of node_info count_healthy availability_from_registered
count_active-infos_of [] = refl
count_active-infos_of ((k, rn) ∷ m) =
    ap (λ b. if b then count_active (infos_of m) + 1 else count_active (infos_of m))
      (active_if_ready rn.state rn.hard_failures)
    ∙ ap (λ n. if is_ready rn.state then n + 1 else n) (count_active-infos_of m)

-- In every history that starts with an empty registry, the counts of the pool are the number of nodes that
-- the balancer holds and the number of those whose connection is ready, and exactly so many nodes of the
-- pool's list are active.
pub Steps-stats :
    (o : BalancerOptions) (has_on_changed : Bool) (lb : Balancer) (r : NodeRegistry)
    → Steps (build o (some (record { nodes = []; has_on_changed = has_on_changed }))) lb
    → lb.registry ≡ some r
    → (stats r ≡ (length lb.sub_conns, count_ready lb.store lb.sub_conns))
      × (count_active (node_infos r) ≡ count_ready lb.store lb.sub_conns)
unfolding stats node_infos
Steps-stats o has_on_changed lb r s there =
    let listed = (Steps-IsSynced o has_on_changed lb s).nodes r there in
    let healthy = ap count_healthy listed ∙ count_healthy-snapshot lb.store lb.sub_conns in
    (
      cc (ap length listed ∙ length-snapshot lb.store lb.sub_conns, healthy),
      count_active-infos_of r.nodes ∙ healthy,
    )
