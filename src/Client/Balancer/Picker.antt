-- ===== src/Client/Balancer/Picker.antt =====
-- The picker: one RPC is routed to a SubConn, and its outcome is reported back.
pub mod Choice
pub mod Rotation
pub mod Stale
use lumen_sdk.Base.{
  ℕ, ◌+◌, ◌-◌, ◌%◌, ◌^◌, Bool, true, false, List, [], ◌∷◌, Option, none, some, not, ◌&&◌, ◌||◌,
  if◌then◌else◌, ltb, leb, ◌==◌, length, get_elem?,
}
use lumen_sdk.Base.Text.{Text, text_eq, is_empty}
use lumen_sdk.Client.Balancer.State.{
  Balancer, SubConnState, Picker, is_zero_time, is_over, is_before, write, clear_failures,
  count_failure, sync_registry, rebuild_picker, int64_max,
}

-- gRPC status codes, and the errors that are no status.
pub data RpcError : Type 0 where
  canceled deadline_exceeded : RpcError
  status_unavailable status_other : RpcError
  not_status : RpcError

-- pkg/client/client.go: shouldAffectNodeHealth, for the nil context that the picker passes.
unfoldable pub should_affect_node_health : RpcError → Bool
should_affect_node_health canceled = false
should_affect_node_health deadline_exceeded = false
should_affect_node_health status_unavailable = true
should_affect_node_health status_other = false
should_affect_node_health not_status = true

unfoldable pub node_supports_task_slice : List Text → Text → Bool
unfolding text_eq
node_supports_task_slice [] task = false
node_supports_task_slice (t ∷ ts) task = text_eq t task || node_supports_task_slice ts task

-- The tests of filterByTask: the candidate is passed over.
abbrev pub lacks_task : SubConnState → Text → Bool
lacks_task scs task = not (is_empty task) && not (node_supports_task_slice scs.tasks task)

abbrev pub is_cooling : Bool → ℕ → SubConnState → Bool
is_cooling require_expired now scs =
    if require_expired
    then is_zero_time scs.cooldown_until || is_before now scs.cooldown_until
    else not (is_zero_time scs.cooldown_until) && is_before now scs.cooldown_until

unfoldable pub filter_by_task : (ℕ → SubConnState) → List ℕ → Text → Bool → ℕ → List ℕ
unfolding node_supports_task_slice
filter_by_task store [] task require_expired now = []
filter_by_task store (p ∷ ps) task require_expired now =
    let rest = filter_by_task store ps task require_expired now in
    if lacks_task (store p) task
    then rest
    else if is_cooling require_expired now (store p)
    then rest
    else p ∷ rest

unfoldable pub any_supports_task : (ℕ → SubConnState) → List ℕ → Text → Bool
unfolding node_supports_task_slice
any_supports_task store [] task = false
any_supports_task store (p ∷ ps) task =
    node_supports_task_slice (store p).tasks task || any_supports_task store ps task

-- The result of Pick. `index_panic` is Go's panic on a negative index, once the counter has wrapped.
pub data PickResult : Type 0 where
  picked : ℕ → PickResult
  no_node_supports_task : PickResult
  no_sub_conn_available : PickResult
  index_panic : PickResult

abbrev pub or_probes : List ℕ → List ℕ → List ℕ
or_probes [] probes = probes
or_probes (p ∷ ps) probes = p ∷ ps

unfoldable pub candidates : (ℕ → SubConnState) → Picker → Text → ℕ → List ℕ
unfolding filter_by_task
candidates store p task now =
    or_probes (filter_by_task store p.ready task false now)
      (filter_by_task store p.probes task true now)

abbrev pub at_index : Option ℕ → PickResult
at_index none = index_panic
at_index (some q) = picked q

-- `candidates[idx % len]`: Go's remainder of a negative number is not positive.
unfoldable pub choose : List ℕ → ℕ → PickResult
choose cs idx =
    if leb idx int64_max
    then at_index (get_elem? cs (idx % length cs))
    else if (2 ^ 64 - idx) % length cs == 0
    then at_index (get_elem? cs 0)
    else index_panic

unfoldable pub refuse : (ℕ → SubConnState) → Picker → Text → PickResult
unfolding any_supports_task
refuse store p task =
    if not (is_empty task)
      && (not (any_supports_task store p.ready task) && not (any_supports_task store p.probes task))
    then no_node_supports_task
    else no_sub_conn_available

abbrev pub advance : Picker → ℕ
advance p = (p.rr_idx + 1) % 2 ^ 64

abbrev pub pick_from : (ℕ → SubConnState) → Picker → Text → List ℕ → Picker × PickResult
pick_from store p task [] = (p, refuse store p task)
pick_from store p task (c ∷ cs) = (record p { rr_idx = advance p }, choose (c ∷ cs) (advance p))

unfoldable pub pick : (ℕ → SubConnState) → Picker → Text → ℕ → Picker × PickResult
unfolding candidates choose refuse
pick store p task now = pick_from store p task (candidates store p task now)

-- The callback that Pick returns, for the SubConn at `p`; `none` is an RPC that succeeded.
unfoldable pub done : ℕ → Option RpcError → ℕ → ℕ → Balancer → Balancer
unfolding should_affect_node_health count_failure sync_registry rebuild_picker
done p none now later lb = sync_registry (write p (clear_failures (lb.store p)) lb)
done p (some e) now later lb =
    if should_affect_node_health e
    then rebuild_picker later
        (sync_registry (write p (count_failure lb.options now (lb.store p)) lb))
    else lb
