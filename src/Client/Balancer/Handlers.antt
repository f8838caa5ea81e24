-- ===== src/Client/Balancer/Handlers.antt =====
-- The handlers that gRPC calls on the balancer. The clock is read where the code reads it: `now` for a
-- cooldown, `later` for the picker. Whether gRPC creates a SubConn is an argument.
use lumen_sdk.Base.{
  ℕ, ◌+◌, true, false, List, [], ◌∷◌, Option, none, some, not, ◌&&◌, if◌then◌else◌, length,
}
use lumen_sdk.Base.Text.{Text, text_eq}
use lumen_sdk.Base.Dict.{lookup, insert, delete}
use lumen_sdk.Base.Unique.{is_some}
use lumen_sdk.Discovery.Identity.{key}
use lumen_sdk.Client.Pool.{merge_tasks}
use lumen_sdk.Client.Balancer.State.{
  Balancer, BalancerOptions, NodeRegistry, SubConnState, Address, NodeAttr, ConnState, Effect, log,
  write, is_ready, is_idle, is_transient_failure, count_failure, clear_failures, sync_registry,
  rebuild_picker,
}

-- A node that is known already: its address may have moved, and its hints are merged.
unfoldable pub refresh : Address → NodeAttr → SubConnState → SubConnState
refresh addr attr scs = record scs {
  addr = if text_eq scs.addr.addr addr.addr then scs.addr else addr;
  tasks = merge_tasks scs.tasks attr.tasks;
  txt = attr.txt;
}

abbrev pub moved : Address → SubConnState → Balancer → Balancer
moved addr scs lb = record lb {
  effects =
      if text_eq scs.addr.addr addr.addr
      then lb.effects
      else Effect.update_addresses scs.sc addr.addr ∷ lb.effects;
}

abbrev pub fresh_sub_conn : ℕ → Address → NodeAttr → SubConnState
fresh_sub_conn sc addr attr = record {
  sc = sc;
  addr = addr;
  identity = attr.identity;
  state = ConnState.idle;
  capabilities = [];
  tasks = attr.tasks;
  hard_failures = 0;
  cooldown_until = none;
  cooldown = 0;
  txt = attr.txt;
  cap_fetching = false;
}

-- A pointer to a new SubConn state.
abbrev pub allocate : Text → SubConnState → Balancer → Balancer
allocate k scs lb = record (write lb.next scs lb) {
  next = lb.next + 1;
  sub_conns = insert k lb.next lb.sub_conns;
  effects = Effect.connect scs.sc ∷ lb.effects;
}

-- `NewSubConn` of gRPC: the handle, or none for an error. It is told how much has happened before.
abbrev pub Dial : Type 0
Dial = ℕ → Address → Option ℕ

unfoldable pub add_node : Dial → Text → Address → NodeAttr → Balancer → Balancer
add_node dial k addr attr lb =
    let called = log (Effect.new_sub_conn addr.addr) lb in
    elim (dial (length lb.effects) addr) [
      | none ↦ called
      | some sc ↦ allocate k (fresh_sub_conn sc addr attr) called
    ]

unfoldable pub visit_node : Dial → Text → Address → NodeAttr → Balancer → Balancer
unfolding lookup add_node refresh
visit_node dial k addr attr lb = elim (lookup k lb.sub_conns) [
  | none ↦ add_node dial k addr attr lb
  | some p ↦ write p (refresh addr attr (lb.store p)) (moved addr (lb.store p) lb)
]

-- The first loop of UpdateClientConnState, with the keys that are active.
unfoldable pub visit_addresses :
    Dial → List Address → List (Text × Unit {0}) → Balancer → List (Text × Unit {0}) × Balancer
unfolding visit_node insert key
visit_addresses dial [] active lb = (active, lb)
visit_addresses dial (addr ∷ addrs) active lb = elim addr.attr [
  | none ↦ visit_addresses dial addrs active lb
  | some attr ↦
      visit_addresses dial addrs (insert (key attr.identity) tt active)
        (visit_node dial (key attr.identity) addr attr lb)
]

abbrev pub drop_sub_conn : Text → ℕ → Balancer → Balancer
drop_sub_conn k p lb =
    log (Effect.remove_sub_conn (lb.store p).sc) (record lb { sub_conns = delete k lb.sub_conns })

-- The second loop, over the SubConns as they were when it began.
unfoldable pub prune : List (Text × Unit {0}) → List (Text × ℕ) → Balancer → Balancer
unfolding lookup delete
prune active [] lb = lb
prune active ((k, p) ∷ m) lb =
    prune active m (if is_some (lookup k active) then lb else drop_sub_conn k p lb)

unfoldable pub prune_inactive : List (Text × Unit {0}) × Balancer → Balancer
unfolding prune
prune_inactive (active, lb) = prune active lb.sub_conns lb

unfoldable pub update_client_conn_state : Dial → List Address → ℕ → Balancer → Balancer
unfolding visit_addresses prune_inactive sync_registry rebuild_picker
update_client_conn_state dial addrs now lb =
    rebuild_picker now (sync_registry (prune_inactive (visit_addresses dial addrs [] lb)))

-- The node has become ready: its failures are forgotten, and its capabilities are fetched unless
-- a fetch is running. Either way `cap_fetching` is set then.
abbrev pub ready_again : SubConnState → SubConnState
ready_again scs = record (clear_failures (record scs { state = ConnState.ready })) {
  cap_fetching = true;
}

unfoldable pub become_ready : Text → ℕ → Balancer → Balancer
become_ready k p lb = record (write p (ready_again (lb.store p)) lb) {
  effects =
      if (lb.store p).cap_fetching
      then lb.effects
      else Effect.fetch_capabilities k (lb.store p).addr.addr ∷ lb.effects;
}

-- Any other change of state.
unfoldable pub after_change : BalancerOptions → ConnState → ℕ → SubConnState → SubConnState
unfolding count_failure
after_change o state now scs =
    let changed = record scs { state = state } in
    if is_transient_failure state then count_failure o now changed else changed

unfoldable pub change_state : ℕ → ConnState → ℕ → Balancer → Balancer
unfolding after_change
change_state p state now lb = record (write p (after_change lb.options state now (lb.store p)) lb) {
  effects = if is_idle state then Effect.connect (lb.store p).sc ∷ lb.effects else lb.effects;
}

unfoldable pub change_known : Text → ℕ → ConnState → ℕ → Balancer → Balancer
unfolding become_ready change_state
change_known k p state now lb =
    if is_ready state && not (is_ready (lb.store p).state)
    then become_ready k p lb
    else change_state p state now lb

unfoldable pub handle_sub_conn_state_change : Text → ConnState → ℕ → ℕ → Balancer → Balancer
unfolding lookup change_known sync_registry rebuild_picker
handle_sub_conn_state_change k state now later lb = elim (lookup k lb.sub_conns) [
  | none ↦ lb
  | some p ↦ rebuild_picker later (sync_registry (change_known k p state now lb))
]

unfoldable pub connect_idle : List (Text × ℕ) → Balancer → Balancer
connect_idle [] lb = lb
connect_idle ((k, p) ∷ m) lb =
    connect_idle m
      (if is_idle (lb.store p).state then log (Effect.connect (lb.store p).sc) lb else lb)

unfoldable pub exit_idle : Balancer → Balancer
unfolding connect_idle
exit_idle lb = connect_idle lb.sub_conns lb

abbrev pub blank_attr : NodeAttr
blank_attr = record {
  identity = record { deployment_id = []; node_id = [] };
  tasks = [];
  txt = none;
}

-- lumenBalancerBuilder.Build. Memory that is not allocated yet holds any state.
unfoldable pub build : BalancerOptions → Option NodeRegistry → Balancer
build options registry = record {
  store = λ _. fresh_sub_conn 0 (record { addr = []; attr = none }) blank_attr;
  next = 0;
  sub_conns = [];
  registry = registry;
  options = options;
  agg_state = ConnState.idle;
  picker = record { ready = []; probes = []; rr_idx = 0 };
  effects = [];
}
