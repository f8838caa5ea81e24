-- ===== src/Client/Balancer/Machine/Registry.antt =====
-- The registry that the pool reads against the map of the balancer, through every history.
use lumen_sdk.Base.{
  ℕ, ◌≡◌, refl, sym, ap, ◌∙◌, Bool, List, [], ◌∷◌, Option, none, some, arith, Bool-cases,
  Option-cases, inl, inr,
}
use native.Mathlib.Decide.{ℕ_discrete}
use lumen_sdk.Base.Text.{Text}
use lumen_sdk.Types.Proto.{Capability}
use lumen_sdk.Base.Dict.{lookup}
use lumen_sdk.Client.Balancer.State.{
  Balancer, BalancerOptions, NodeRegistry, SubConnState, registered, snapshot, sync_registry,
  rebuild_picker, write, is_idle, Effect, count_failure,
}
use lumen_sdk.Client.Balancer.Handlers.{
  build, prune_inactive, visit_addresses, change_known, update_client_conn_state,
  handle_sub_conn_state_change, connect_idle, exit_idle,
}
use lumen_sdk.Client.Balancer.Picker.{RpcError, done, should_affect_node_health}
use lumen_sdk.Client.Balancer.Fetch.{
  Received, with_capabilities, receive, publish, publish_some, fetch_capabilities_for_node,
  end_fetch,
}
use lumen_sdk.Client.Balancer.Machine.{
  Step, resolved, state_changed, rpc_done, fetched, fetch_ended, idle_exited, Steps, start, next,
}

-- The registry lists each node of the map with its state.
pub record IsSynced (lb : Balancer) : Type 0 where
  pub nodes : (r : NodeRegistry) → lb.registry ≡ some r → r.nodes ≡ snapshot lb.store lb.sub_conns

sync-IsSynced : (lb : Balancer) → IsSynced (sync_registry lb)
unfolding sync_registry
sync-IsSynced lb = record { nodes = λ r e. ground arith }

update-IsSynced : (now : ℕ) (lb : Balancer) → IsSynced (rebuild_picker now (sync_registry lb))
unfolding rebuild_picker
update-IsSynced now lb = record { nodes = λ r e. (sync-IsSynced lb).nodes r e }

log-IsSynced :
    (lb : Balancer) (effects : List Effect)
    → IsSynced lb
    → IsSynced (record lb { effects = effects })
log-IsSynced lb effects s = record { nodes = s.nodes }

connect_idle-IsSynced :
    (m : List (Text × ℕ)) (lb : Balancer) → IsSynced lb → IsSynced (connect_idle m lb)
unfolding connect_idle
connect_idle-IsSynced [] lb s = s
connect_idle-IsSynced ((k, p) ∷ m) lb s = elim (Bool-cases (is_idle (lb.store p).state)) [
  | inl idle ↦ rw idle (connect_idle-IsSynced m _ (log-IsSynced lb _ s))
  | inr other ↦ rw other (connect_idle-IsSynced m lb s)
]

-- A write of what the registry does not show changes no snapshot.
snapshot-write :
    (p : ℕ) (s : SubConnState) (lb : Balancer) (m : List (Text × ℕ))
    → registered s ≡ registered (lb.store p)
    → snapshot (write p s lb).store m ≡ snapshot lb.store m
unfolding snapshot
snapshot-write p s lb [] e = refl
snapshot-write p s lb ((k, q) ∷ m) e = elim (ℕ_discrete q p) [
  | yes same ↦ ground (arith, snapshot-write p s lb m e, ap (λ x. registered (lb.store x)) same)
  | no other ↦ ground (arith, snapshot-write p s lb m e)
]

end_fetch-IsSynced : (k : Text) (lb : Balancer) → IsSynced lb → IsSynced (end_fetch k lb)
unfolding end_fetch
end_fetch-IsSynced k lb s = elim (Option-cases (lookup k lb.sub_conns)) [
  | inl e ↦ rw (e, end_fetch) s
  | inr (p, e) ↦
      rw (e, end_fetch)
        (record { nodes = λ r h. s.nodes r h ∙ sym (snapshot-write p _ lb lb.sub_conns refl) })
]

done-IsSynced :
    (p : ℕ) (outcome : Option RpcError) (now later : ℕ) (lb : Balancer)
    → IsSynced lb
    → IsSynced (done p outcome now later lb)
unfolding done
done-IsSynced p none now later lb s = sync-IsSynced _
done-IsSynced p (some e) now later lb s = elim (Bool-cases (should_affect_node_health e)) [
  | inl counts ↦
      rw counts (update-IsSynced later (write p (count_failure lb.options now (lb.store p)) lb))
  | inr ignored ↦ rw ignored s
]

publish-IsSynced :
    (k : Text) (caps : List Capability) (now : ℕ) (lb : Balancer) → IsSynced (publish k caps now lb)
unfolding publish
publish-IsSynced k caps now lb = elim (Option-cases (lookup k lb.sub_conns)) [
  | inl e ↦ rw (e, publish) (update-IsSynced now lb)
  | inr (p, e) ↦
      rw (e, publish) (update-IsSynced now (write p (with_capabilities caps (lb.store p)) lb))
]

fetch-IsSynced :
    (k : Text) (reply : Option (List Received)) (now : ℕ) (lb : Balancer)
    → IsSynced lb
    → IsSynced (fetch_capabilities_for_node k reply now lb).0
unfolding fetch_capabilities_for_node
fetch-IsSynced k none now lb s = s
fetch-IsSynced k (some rs) now lb s = go (receive rs)
  where
    go : (caps : List Capability) → IsSynced (publish_some k caps now lb).0
    go [] = s
    go (c ∷ cs) = publish-IsSynced k (c ∷ cs) now lb

Step-IsSynced : {b c : Balancer} → Step b c → IsSynced b → IsSynced c
unfolding update_client_conn_state handle_sub_conn_state_change exit_idle
Step-IsSynced (resolved dial addrs now lb) s =
    update-IsSynced now (prune_inactive (visit_addresses dial addrs [] lb))
Step-IsSynced (state_changed k state now later lb) s = elim (Option-cases (lookup k lb.sub_conns)) [
  | inl e ↦ rw (e, handle_sub_conn_state_change) s
  | inr (p, e) ↦
      rw (e, handle_sub_conn_state_change) (update-IsSynced later (change_known k p state now lb))
]
Step-IsSynced (rpc_done p outcome now later lb) s = done-IsSynced p outcome now later lb s
Step-IsSynced (fetched k reply now lb) s = fetch-IsSynced k reply now lb s
Step-IsSynced (fetch_ended k lb) s = end_fetch-IsSynced k lb s
Step-IsSynced (idle_exited lb) s = connect_idle-IsSynced lb.sub_conns lb s

-- In every history that starts with an empty registry, the registry lists exactly the nodes of the
-- balancer's map, each with its current state, tasks and failures.
pub Steps-IsSynced :
    (o : BalancerOptions) (has_on_changed : Bool) (lb : Balancer)
    → Steps (build o (some (record { nodes = []; has_on_changed = has_on_changed }))) lb
    → IsSynced lb
unfolding build snapshot
Steps-IsSynced o has_on_changed lb start = record { nodes = λ r e. ground arith }
Steps-IsSynced o has_on_changed lb (next s step) =
    Step-IsSynced step (Steps-IsSynced o has_on_changed _ s)
