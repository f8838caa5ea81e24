-- ===== src/Client/Balancer/State.antt =====
-- The state of the balancer. SubConn states are shared by pointer between the map of the balancer and
-- the pickers that gRPC holds: a pointer is a number, and `store` is the memory. A time is a number of
-- nanoseconds, the zero time is `none`; a duration is the bit pattern of an int64. What the balancer
-- calls on gRPC, and the goroutines that it starts, are recorded in `effects`, the latest first.
use lumen_sdk.Base.{
  ℕ, ◌+◌, ◌-◌, ◌*◌, ◌%◌, ◌^◌, Bool, true, false, List, [], ◌∷◌, Option, none, some, ◌&&◌, ◌||◌, not,
  if◌then◌else◌, ltb, leb, ◌==◌,
}
use lumen_sdk.Base.Text.{Text}
use lumen_sdk.Discovery.Identity.{NodeIdentity}
use lumen_sdk.Types.Proto.{Capability, Meta}
use lumen_sdk.Client.Pool.{hard_failure_threshold}

-- connectivity.State of gRPC
pub data ConnState : Type 0 where
  idle connecting ready transient_failure shutdown : ConnState

abbrev pub is_ready : ConnState → Bool
is_ready ConnState.ready = true
is_ready _ = false

abbrev pub is_idle : ConnState → Bool
is_idle ConnState.idle = true
is_idle _ = false

abbrev pub is_shutdown : ConnState → Bool
is_shutdown ConnState.shutdown = true
is_shutdown _ = false

abbrev pub is_transient_failure : ConnState → Bool
is_transient_failure ConnState.transient_failure = true
is_transient_failure _ = false

-- pkg/client/lumen_resolver.go: what the resolver attaches to an address.
pub record NodeAttr : Type 0 where
  pub identity : NodeIdentity
  pub tasks : List Text
  pub txt : Meta

-- resolver.Address of gRPC, with the attribute that `getNodeAttr` finds on it.
pub record Address : Type 0 where
  pub addr : Text
  pub attr : Option NodeAttr

pub record BalancerOptions : Type 0 where
  pub connect_timeout : ℕ
  pub rediscovery_backoff_min : ℕ
  pub rediscovery_backoff_max : ℕ

-- `sc` is gRPC's handle; `hard_failures` is the bit pattern of an int.
pub record SubConnState : Type 0 where
  pub sc : ℕ
  pub addr : Address
  pub identity : NodeIdentity
  pub state : ConnState
  pub capabilities : List Capability
  pub tasks : List Text
  pub hard_failures : ℕ
  pub cooldown_until : Option ℕ
  pub cooldown : ℕ
  pub txt : Meta
  pub cap_fetching : Bool

pub record RegisteredNode : Type 0 where
  pub identity : NodeIdentity
  pub addr : Text
  pub state : ConnState
  pub capabilities : List Capability
  pub tasks : List Text
  pub hard_failures : ℕ
  pub cooldown_until : Option ℕ
  pub cooldown : ℕ
  pub txt : Meta

pub record NodeRegistry : Type 0 where
  pub nodes : List (Text × RegisteredNode)
  pub has_on_changed : Bool

-- A picker holds pointers; `rr_idx` is the bit pattern of an int64.
pub record Picker : Type 0 where
  pub ready : List ℕ
  pub probes : List ℕ
  pub rr_idx : ℕ

pub data Effect : Type 0 where
  connect : (sc : ℕ) → Effect
  update_addresses : (sc : ℕ) → Text → Effect
  new_sub_conn : Text → Effect
  remove_sub_conn : (sc : ℕ) → Effect
  fetch_capabilities : (key addr : Text) → Effect
  notify_watchers : Effect

-- `agg_state` and `picker` are what gRPC was told last by `UpdateState`.
pub record Balancer : Type 0 where
  pub store : ℕ → SubConnState
  pub next : ℕ
  pub sub_conns : List (Text × ℕ)
  pub registry : Option NodeRegistry
  pub options : BalancerOptions
  pub agg_state : ConnState
  pub picker : Picker
  pub effects : List Effect

abbrev pub log : Effect → Balancer → Balancer
log e lb = record lb { effects = e ∷ lb.effects }

-- `*p = scs`
abbrev pub write : ℕ → SubConnState → Balancer → Balancer
write p scs lb = record lb { store = λ q. if q == p then scs else lb.store q }

abbrev pub int64_max : ℕ
int64_max = 2 ^ 63 - 1

-- `d > 0` of an int64.
abbrev pub is_positive : ℕ → Bool
is_positive d = ltb 0 d && leb d int64_max

-- `d > e` of a duration and one that is not negative.
abbrev pub exceeds : ℕ → ℕ → Bool
exceeds d e = ltb e d && leb d int64_max

-- `now.Add(d)`; no time lies before the epoch.
abbrev pub add_duration : ℕ → ℕ → ℕ
add_duration now d = if leb d int64_max then now + d else now - (2 ^ 64 - d)

-- The next cooldown after `cooldown`: the minimum at first, then twice the last one up to the maximum.
unfoldable pub next_cooldown : BalancerOptions → ℕ → ℕ
next_cooldown o cooldown =
    if is_positive cooldown
    then (let doubled = cooldown * 2 % 2 ^ 64 in
        if exceeds doubled o.rediscovery_backoff_max then o.rediscovery_backoff_max else doubled)
    else o.rediscovery_backoff_min

unfoldable pub start_cooldown : BalancerOptions → ℕ → SubConnState → SubConnState
start_cooldown o now scs =
    let next = next_cooldown o scs.cooldown in
    record scs { cooldown = next; cooldown_until = some (add_duration now next) }

-- `failures >= hardFailureThreshold` of an int.
abbrev pub reaches_threshold : ℕ → Bool
reaches_threshold failures = leb hard_failure_threshold failures && leb failures int64_max

-- One more hard failure, and a cooldown once there are enough.
unfoldable pub count_failure : BalancerOptions → ℕ → SubConnState → SubConnState
unfolding start_cooldown
count_failure o now scs =
    let failed = record scs { hard_failures = (scs.hard_failures + 1) % 2 ^ 64 } in
    if reaches_threshold failed.hard_failures then start_cooldown o now failed else failed

abbrev pub clear_failures : SubConnState → SubConnState
clear_failures scs = record scs { hard_failures = 0; cooldown_until = none; cooldown = 0 }

-- `now.After(t)`, and `!t.IsZero() && now.After(t)`
abbrev pub is_over : ℕ → Option ℕ → Bool
is_over now none = false
is_over now (some t) = ltb t now

abbrev pub is_zero_time : Option ℕ → Bool
is_zero_time none = true
is_zero_time (some t) = false

-- `now.Before(t)` for a time that is not zero
abbrev pub is_before : ℕ → Option ℕ → Bool
is_before now none = false
is_before now (some t) = ltb now t

-- The two tests of the loop of rebuildPickerLocked.
abbrev pub is_ready_candidate : ℕ → SubConnState → Bool
is_ready_candidate now scs =
    is_ready scs.state && (is_zero_time scs.cooldown_until || is_over now scs.cooldown_until)

abbrev pub is_probe_candidate : ℕ → SubConnState → Bool
is_probe_candidate now scs =
    not (is_ready scs.state) && (not (is_shutdown scs.state) && is_over now scs.cooldown_until)

unfoldable pub select : (SubConnState → Bool) → (ℕ → SubConnState) → List (Text × ℕ) → List ℕ
select test store [] = []
select test store ((key, p) ∷ m) =
    let rest = select test store m in if test (store p) then p ∷ rest else rest

abbrev pub aggregate : List ℕ → List (Text × ℕ) → ConnState
aggregate (p ∷ ps) m = ConnState.ready
aggregate [] [] = ConnState.idle
aggregate [] (b ∷ m) = ConnState.connecting

unfoldable pub rebuild_picker : ℕ → Balancer → Balancer
unfolding select
rebuild_picker now lb =
    let ready = select (is_ready_candidate now) lb.store lb.sub_conns in
    record lb {
      picker = record {
        ready = ready;
        probes = select (is_probe_candidate now) lb.store lb.sub_conns;
        rr_idx = 0;
      };
      agg_state = aggregate ready lb.sub_conns;
    }

abbrev pub registered : SubConnState → RegisteredNode
registered scs = record {
  identity = scs.identity;
  addr = scs.addr.addr;
  state = scs.state;
  capabilities = scs.capabilities;
  tasks = scs.tasks;
  hard_failures = scs.hard_failures;
  cooldown_until = scs.cooldown_until;
  cooldown = scs.cooldown;
  txt = scs.txt;
}

unfoldable pub snapshot : (ℕ → SubConnState) → List (Text × ℕ) → List (Text × RegisteredNode)
snapshot store [] = []
snapshot store ((key, p) ∷ m) = (key, registered (store p)) ∷ snapshot store m

abbrev with_nodes : List (Text × RegisteredNode) → Option NodeRegistry → Option NodeRegistry
with_nodes nodes none = none
with_nodes nodes (some r) = some (record r { nodes = nodes })

abbrev notify : Bool → List Effect → List Effect
notify true effects = notify_watchers ∷ effects
notify false effects = effects

abbrev notified : Option NodeRegistry → List Effect → List Effect
notified none effects = effects
notified (some r) effects = notify r.has_on_changed effects

-- A nil registry is left alone, and nobody is told.
unfoldable pub sync_registry : Balancer → Balancer
unfolding snapshot
sync_registry lb = record lb {
  registry = with_nodes (snapshot lb.store lb.sub_conns) lb.registry;
  effects = notified lb.registry lb.effects;
}
