-- ===== src/Client/Pool.antt =====
-- pkg/client/pool.go: the options of the pool, and the helpers on lists of tasks. Durations are int64
-- nanoseconds. The connection itself is gRPC's.
pub mod Laws
mod Tests
use lumen_sdk.Base.{
  ℕ, ◌+◌, ◌*◌, ◌≡◌, Bool, true, false, List, [], ◌∷◌, ◌++◌, map, Option, none, some, if◌then◌else◌,
}
use lumen_sdk.Base.Int.{ℤ, pos, negsuc, ltb_ℤ}
use lumen_sdk.Base.Text.{Text, is_empty, trim_space, text_eq}
use lumen_sdk.Base.Dict.{lookup, insert}
use lumen_sdk.Base.Unique.{Visited, nothing_seen, visit_all, is_some}
use lumen_sdk.Types.Proto.{Capability, IoTask}

abbrev pub hard_failure_threshold : ℕ
hard_failure_threshold = 3

abbrev pub seconds : ℕ → ℕ
seconds n = n * 1_000_000_000

pub record PoolOptions : Type 0 where
  pub connect_timeout : ℤ
  pub rediscovery_backoff_min : ℤ
  pub rediscovery_backoff_max : ℤ

-- `d <= 0`
abbrev pub is_unset : ℤ → Bool
is_unset d = ltb_ℤ d (pos 1)

default_connect_timeout : PoolOptions → PoolOptions
default_connect_timeout o =
    if is_unset o.connect_timeout then record o { connect_timeout = pos (seconds 10) } else o

default_backoff_min : PoolOptions → PoolOptions
default_backoff_min o =
    if is_unset o.rediscovery_backoff_min
    then record o { rediscovery_backoff_min = pos (seconds 10) }
    else o

default_backoff_max : PoolOptions → PoolOptions
default_backoff_max o =
    if ltb_ℤ o.rediscovery_backoff_max o.rediscovery_backoff_min
    then record o { rediscovery_backoff_max = pos (seconds 120) }
    else o

unfoldable pub normalized : PoolOptions → PoolOptions
unfolding default_connect_timeout default_backoff_min default_backoff_max
normalized o = default_backoff_max (default_backoff_min (default_connect_timeout o))

unfoldable pub merge_tasks : List Text → List Text → List Text
unfolding visit_all trim_space
merge_tasks current incoming =
    (visit_all trim_space (visit_all trim_space nothing_seen current) incoming).out

-- The names of the tasks of one capability that are not empty.
named_tasks : List IoTask → List Text
named_tasks [] = []
named_tasks (t ∷ ts) = let rest = named_tasks ts in if is_empty t.name then rest else t.name ∷ rest

all_named_tasks : List Capability → List Text
unfolding named_tasks
all_named_tasks [] = []
all_named_tasks (c ∷ cs) = named_tasks c.tasks ++ all_named_tasks cs

unfoldable pub tasks_from_capabilities : List Capability → List Text
unfolding merge_tasks all_named_tasks
tasks_from_capabilities caps = merge_tasks [] (all_named_tasks caps)

unfoldable pub tasks_to_io_tasks : List Text → List IoTask
tasks_to_io_tasks = map λ n. record {
  name = n;
  input_mimes = [];
  output_mimes = [];
  limits = none;
  tensor_preprocess_id = [];
  tensor_batching_supported = false;
}

-- The tasks kept so far, and their names.
record Listed : Type 0 where
  seen : List (Text × Unit {0})
  out : List IoTask

keep_task : Listed → IoTask → Listed
unfolding lookup insert
keep_task s t =
    if is_empty t.name
    then s
    else if is_some (lookup t.name s.seen)
    then s
    else record { seen = insert t.name tt s.seen; out = s.out ++ t ∷ [] }

keep_tasks : Listed → List IoTask → Listed
unfolding keep_task
keep_tasks s [] = s
keep_tasks s (t ∷ ts) = keep_tasks (keep_task s t) ts

keep_capabilities : Listed → List Capability → Listed
unfolding keep_tasks
keep_capabilities s [] = s
keep_capabilities s (c ∷ cs) = keep_capabilities (keep_tasks s c.tasks) cs

-- The fallback names that are not seen yet; they are not added to `seen`.
add_fallback : List (Text × Unit {0}) → List IoTask → List IoTask → List IoTask
unfolding lookup
add_fallback seen out [] = out
add_fallback seen out (t ∷ ts) =
    add_fallback seen (if is_some (lookup t.name seen) then out else out ++ t ∷ []) ts

unfoldable pub tasks_to_io_tasks_from_capabilities : List Capability → List Text → List IoTask
unfolding keep_capabilities add_fallback tasks_to_io_tasks
tasks_to_io_tasks_from_capabilities caps fallback_names =
    let s = keep_capabilities (record { seen = []; out = [] }) caps in
    add_fallback s.seen s.out (tasks_to_io_tasks fallback_names)
