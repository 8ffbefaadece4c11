-- ===== src/Context/Tests.antt =====
-- src/shyam/context over a registry that learns of a phone, and over a workflow of two steps.
use shyam.Base.{
  ℕ, All, ◌≤◌, true, false, ◌≡◌, refl, some, List, [], ◌∷◌, map, take, length, str_discrete,
}
use shyam.Base.Dict
use shyam.Context.Activity.{Heard, of_run, of_registry, receive_all, log, receive_all-newest}
use shyam.Context.Mirror.{watch, watch-context, touch-unseen}
use shyam.Context.Runs.{hear, told, run-forgotten}
use shyam.Context.Service.{ContextService, start}
use shyam.Context.Store.{EcosystemStateStore, new_store, get_state, new_item}
use shyam.Discovery.History.{Call, touch, is_touch}
use shyam.Discovery.Models.{DiscoveredNode, stale, available}
use shyam.Discovery.Registry.{EcosystemRegistry, create_snapshot, get_node, node_discovered}
use shyam.Discovery.Tests.{phone, empty, calls}
use shyam.Workflow.Executors.{executor_for}
use shyam.Workflow.Loop.{run}
use shyam.Workflow.Models.{WorkflowEvent, workflow_started, workflow_failed, is_success}
use shyam.Workflow.State.{step_state_discrete}
use shyam.Workflow.Tests.{calm, two_reads, registered, at_start}

abbrev idle : ContextService
idle = record { store = new_store 100; subscribed = false }

abbrev timed : List (ℕ × Call)
timed = map (λ c. (60, c)) calls

no_touches : All (λ (x : ℕ × Call). is_touch x.1 ≡ false) timed
unfolding is_touch
no_touches = (refl, (refl, (refl, (refl, tt))))

watch-context_example :
    (get_state (watch timed (empty, start empty idle)).1.store).discovery
    ≡ create_snapshot "" (watch timed (empty, start empty idle)).0
watch-context_example = watch-context timed empty idle refl refl no_touches

abbrev lapsed : DiscoveredNode
lapsed = record phone { state = stale }

abbrev with_lapsed : EcosystemRegistry
with_lapsed = record { nodes = ("phone", lapsed) ∷ []; has_bus = true }

abbrev informed : ContextService
informed = record {
  store = record (new_store 100) { discovery = some (create_snapshot "" with_lapsed) };
  subscribed = true;
}

abbrev after_touch : EcosystemRegistry × ContextService
after_touch = watch ((80, touch "phone" 70) ∷ []) (with_lapsed, informed)

lapsed_known : get_node "phone" with_lapsed ≡ some lapsed
unfolding get_node Dict.get str_discrete
lapsed_known = refl

touch-unseen_example :
    (get_node "phone" after_touch.0 ≡ some (record lapsed { state = available; last_seen = 70 }))
    × (Dict.get "phone" (get_state after_touch.1.store).discovery.nodes ≡ some lapsed)
touch-unseen_example = touch-unseen "phone" 70 80 lapsed with_lapsed informed refl lapsed_known refl

abbrev heard : List Heard
heard =
    of_registry with_lapsed 3 (node_discovered phone)
    ∷ of_run "wf" "reads" 4 (workflow_started 2)
    ∷ of_run "wf" "reads" 5 (workflow_failed "first" "disk full")
    ∷ []

receive_all-newest_example :
    ((receive_all (new_store 2) heard).activity ≡ take 2 (log heard []))
    × (length (receive_all (new_store 2) heard).activity ≤ 2)
    × (length (log heard []) ≤ (receive_all (new_store 2) heard).version)
receive_all-newest_example = receive_all-newest 2 heard

abbrev stamped : List (ℕ × WorkflowEvent)
stamped = map (λ e. (7, e)) (run calm registered two_reads at_start).0.events

-- Another workflow is under way.
abbrev busy : EcosystemStateStore
busy = record (new_store 100) { active_work = ("other", new_item "other" "sync" 1 2) ∷ [] }

told-stamped : told stamped ≡ (run calm registered two_reads at_start).0.events
unfolding run executor_for str_discrete is_success step_state_discrete Dict.get
told-stamped = refl

run-forgotten_example :
    (hear "wf" "reads" stamped busy).active_work ≡ Dict.pop "wf" busy.active_work
run-forgotten_example =
    run-forgotten calm registered two_reads at_start refl refl stamped busy told-stamped

-- The first event of the run, and those after it.
abbrev first : List (ℕ × WorkflowEvent)
first = (7, workflow_started 2) ∷ []

abbrev tail : List (ℕ × WorkflowEvent) → List (ℕ × WorkflowEvent)
tail [] = []
tail (e ∷ es) = es
