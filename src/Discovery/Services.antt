-- ===== src/Discovery/Services.antt =====
-- pkg/discovery/types.go: which services and tasks a node offers. The cache of its tasks is nil or the set of
-- their names; a nil task or capability in a list is not modelled.
use lumen_sdk.Base.{Bool, false, ◌||◌, ◌&&◌, if◌then◌else◌, List, [], ◌∷◌, ◌++◌, Option, none, some}
use lumen_sdk.Base.Dict.{lookup, insert}
use lumen_sdk.Base.Text.{Text, text_eq, is_empty}
use lumen_sdk.Base.Unique.{is_some, nothing_seen, visit_all}
use lumen_sdk.Types.Proto.{IoTask, Capability}

-- The fields of a NodeInfo that its tasks are read from.
pub record NodeTasks : Type 0 where
  pub tasks : List IoTask
  pub capabilities : List Capability
  pub supported_tasks : Option (List (Text × Unit {0}))

abbrev pub add_names : List IoTask → List (Text × Unit {0}) → List (Text × Unit {0})
unfolding insert
add_names [] cache = cache
add_names (t ∷ ts) cache = add_names ts (insert t.name tt cache)

abbrev pub add_capabilities : List Capability → List (Text × Unit {0}) → List (Text × Unit {0})
unfolding insert
add_capabilities [] cache = cache
add_capabilities (c ∷ cs) cache = add_capabilities cs (add_names c.tasks cache)

unfoldable pub rebuild_supported_tasks_cache : NodeTasks → List (Text × Unit {0})
unfolding insert
rebuild_supported_tasks_cache n = add_capabilities n.capabilities (add_names n.tasks [])

abbrev pub answer_from : Text → NodeTasks → List (Text × Unit {0}) → Bool × NodeTasks
unfolding lookup
answer_from task n cache = (is_some (lookup task cache), record n { supported_tasks = some cache })

-- The answer, and the node with its cache.
unfoldable pub supports_task : Text → NodeTasks → Bool × NodeTasks
unfolding rebuild_supported_tasks_cache lookup
supports_task task n = elim n.supported_tasks [
  | none ↦ answer_from task n (rebuild_supported_tasks_cache n)
  | some cache ↦ answer_from task n cache
]

unfoldable pub invalidate_task_cache : NodeTasks → NodeTasks
invalidate_task_cache n = record n { supported_tasks = none }

-- A task of the list has the name.
abbrev pub has_task : Text → List IoTask → Bool
unfolding text_eq
has_task task [] = false
has_task task (t ∷ ts) = text_eq t.name task || has_task task ts

unfoldable pub offers_task : Text → Text → List Capability → Bool
unfolding text_eq
offers_task service task [] = false
offers_task service task (c ∷ cs) =
    (text_eq c.service_name service && has_task task c.tasks) || offers_task service task cs

unfoldable pub supports_service_task : Text → Text → NodeTasks → Bool × NodeTasks
unfolding supports_task offers_task
supports_service_task service task n =
    if is_empty service then supports_task task n else (offers_task service task n.capabilities, n)

-- The service's name for each of the tasks with the asked name.
abbrev pub offers : Text → Text → List IoTask → List Text
unfolding text_eq
offers service task [] = []
offers service task (t ∷ ts) =
    let rest = offers service task ts in if text_eq t.name task then service ∷ rest else rest

abbrev pub all_offers : Text → List Capability → List Text
unfolding text_eq
all_offers task [] = []
all_offers task (c ∷ cs) = offers c.service_name task c.tasks ++ all_offers task cs

unfoldable pub matching_services : Text → List Capability → List Text
unfolding visit_all text_eq
matching_services task cs = (visit_all (λ s. s) nothing_seen (all_offers task cs)).out
