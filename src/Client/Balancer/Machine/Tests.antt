-- ===== src/Client/Balancer/Machine/Tests.antt =====
-- Runs of the balancer, and the theorems at concrete states.
use lumen_sdk.Base.{
  ◌^◌, ℕ, ◌+◌, ◌<◌, ◌≡◌, ◌≢◌, ◌↔◌, ◌⊎◌, refl, true, false, [], ◌∷◌, none, some, arith, length, All,
}
use lumen_sdk.Base.Text.{codes}
use lumen_sdk.Client.Pool.{seconds}
use lumen_sdk.Client.Balancer.State.{
  Balancer, BalancerOptions, NodeAttr, Address, NodeRegistry, ConnState, add_duration,
  next_cooldown,
}
use lumen_sdk.Client.Balancer.Handlers.{
  build, update_client_conn_state, handle_sub_conn_state_change, Dial,
}
use lumen_sdk.Client.Balancer.Picker.{
  picked, no_node_supports_task, pick, done, should_affect_node_health, status_unavailable,
}
use lumen_sdk.Client.Balancer.Picker.Choice.{IsIn, Serves, IsRested, IsProbed, pick_sound}
use lumen_sdk.Client.Balancer.Picker.Stale.{done-unpicked}
use lumen_sdk.Client.Balancer.Fetch.{start_fetch}
use lumen_sdk.Client.Balancer.Fetch.Retry.{IsCurrent, after_failures, after_failures_iff, in_round}
use lumen_sdk.Client.Balancer.Machine.{Steps, start, next, resolved, state_changed, rpc_done}
use lumen_sdk.Base.Dict.{lookup}
use lumen_sdk.Base.Unique.{is_some}
use lumen_sdk.Client.Balancer.Machine.Membership.{names_key, update-members}
use lumen_sdk.Client.Balancer.Machine.Frame.{steps_taken}
use lumen_sdk.Client.Balancer.Machine.Cooldown.{IsSane, IsCooling, Steps-IsCooling}
use lumen_sdk.Client.Balancer.State.{snapshot}
use lumen_sdk.Client.Balancer.Nodes.{stats, node_infos}
use lumen_sdk.Client.Balancer.Nodes.Laws.{count_ready, count_active, Steps-stats}
use lumen_sdk.Client.Balancer.Machine.Registry.{IsSynced, Steps-IsSynced}

abbrev options : BalancerOptions
options = record {
  connect_timeout = seconds 10;
  rediscovery_backoff_min = seconds 10;
  rediscovery_backoff_max = seconds 120;
}

abbrev node_a : NodeAttr
node_a = record {
  identity = record { deployment_id = codes "local"; node_id = codes "a" };
  tasks = codes "embed" ∷ [];
  txt = none;
}

abbrev at_a : Address
at_a = record { addr = codes "h:1"; attr = some node_a }

abbrev dial : Dial
dial happened addr = some happened

abbrev registry : NodeRegistry
registry = record { nodes = []; has_on_changed = true }

abbrev s0 : Balancer
s0 = build options (some registry)

abbrev s1 : Balancer
s1 = update_client_conn_state dial (at_a ∷ []) 1 s0

abbrev s2 : Balancer
s2 = handle_sub_conn_state_change (codes "local-a") ConnState.ready 2 2 s1

abbrev s3 : Balancer
s3 = done 0 (some status_unavailable) 3 3 (done 0 (some status_unavailable) 3 3 s2)

abbrev s4 : Balancer
s4 = done 0 (some status_unavailable) 3 4 s3

history : Steps s0 s4
history =
    next
      (next
        (next
          (next (next start (resolved dial (at_a ∷ []) 1 s0))
            (state_changed (codes "local-a") ConnState.ready 2 2 s1))
          (rpc_done 0 (some status_unavailable) 3 3 s2))
        (rpc_done 0 (some status_unavailable) 3 3 (done 0 (some status_unavailable) 3 3 s2)))
      (rpc_done 0 (some status_unavailable) 3 4 s3)

routed : (pick s2.store s2.picker (codes "embed") 3).1 ≡ picked 0
unfolding build update_client_conn_state handle_sub_conn_state_change pick
routed = refl

unsupported : (pick s2.store s2.picker (codes "ocr") 3).1 ≡ no_node_supports_task
unfolding build update_client_conn_state handle_sub_conn_state_change pick
unsupported = refl

sane : IsSane options
sane = record { positive = omega arith; ordered = omega arith; small = omega arith }

few_steps : steps_taken history < 2 ^ 63
unfolding history
few_steps = omega arith

Steps-IsCooling_example : IsCooling options (s4.store 0)
Steps-IsCooling_example = Steps-IsCooling options (some registry) s4 sane history few_steps 0

Steps-IsSynced_example : IsSynced s4
Steps-IsSynced_example = Steps-IsSynced options true s4 history

pick_sound_example :
    Serves (s2.store 0) (codes "embed")
    × ((IsIn 0 s2.picker.ready × IsRested (s2.store 0) 3)
        ⊎ (IsIn 0 s2.picker.probes
            × IsProbed (s2.store 0) 3
            × ((r : ℕ)
                → IsIn r s2.picker.ready
                → Serves (s2.store r) (codes "embed")
                → ¬ IsRested (s2.store r) 3)))
pick_sound_example = pick_sound s2.store s2.picker (codes "embed") 3 0 routed

abbrev clock : ℕ → ℕ
clock k = 3 + k

s3_ready : (s3.store 0).state ≡ ConnState.ready
unfolding build update_client_conn_state handle_sub_conn_state_change done
s3_ready = refl

s3_failed : (s3.store 0).hard_failures ≡ 2
unfolding build update_client_conn_state handle_sub_conn_state_change done
s3_failed = refl

rested : add_duration 3 (next_cooldown s3.options (s3.store 0).cooldown) ≡ 3 + seconds 10
unfolding build update_client_conn_state handle_sub_conn_state_change done next_cooldown
rested = refl

done-unpicked_example :
    (pick s4.store
      (record (done 0 (some status_unavailable) 3 4 s3).picker { rr_idx = 7 })
      (codes "embed")
      (seconds 3600)).1
    ≢ picked 0
unfolding should_affect_node_health
done-unpicked_example =
    done-unpicked s3 0 3 4 status_unavailable s3_ready (rw s3_failed (omega arith))
      (rw s3_failed (omega arith)) refl (rw rested (omega arith)) s4.store 7 (codes "embed")
      (seconds 3600)

current : IsCurrent (codes "local-a") (codes "h:1") s2
unfolding build update_client_conn_state handle_sub_conn_state_change
current = (0, refl, refl, refl)

after_failures_iff_example :
    (after_failures (start_fetch (codes "local-a") (codes "h:1")) (s2 ∷ s2 ∷ [])
      ≡ some (in_round (codes "local-a") (codes "h:1") 2))
    ↔ (All (IsCurrent (codes "local-a") (codes "h:1")) (s2 ∷ s2 ∷ [])
        × (in_round (codes "local-a") (codes "h:1") 2
            ≡ in_round (codes "local-a") (codes "h:1") (length (s2 ∷ s2 ∷ []))))
after_failures_iff_example =
    after_failures_iff (codes "local-a") (codes "h:1") (s2 ∷ s2 ∷ [])
      (in_round (codes "local-a") (codes "h:1") 2)

update-members_example :
    (names_key (at_a ∷ []) (codes "local-a") ≡ false → lookup (codes "local-a") s1.sub_conns ≡ none)
    × ((p : ℕ)
        → names_key (at_a ∷ []) (codes "local-a") ≡ true
        → lookup (codes "local-a") s0.sub_conns ≡ some p
        → lookup (codes "local-a") s1.sub_conns ≡ some p)
    × (((n : ℕ) (a : Address) → is_some (dial n a) ≡ true)
        → names_key (at_a ∷ []) (codes "local-a") ≡ true
        → is_some (lookup (codes "local-a") s1.sub_conns) ≡ true)
update-members_example = update-members dial (at_a ∷ []) 1 s0 (codes "local-a")

abbrev registry_after : NodeRegistry
registry_after = record { nodes = snapshot s4.store s4.sub_conns; has_on_changed = true }

kept_registry : s4.registry ≡ some registry_after
unfolding build update_client_conn_state handle_sub_conn_state_change done snapshot
kept_registry = refl

Steps-stats_example :
    (stats registry_after ≡ (length s4.sub_conns, count_ready s4.store s4.sub_conns))
    × (count_active (node_infos registry_after) ≡ count_ready s4.store s4.sub_conns)
Steps-stats_example = Steps-stats options true s4 registry_after history kept_registry
