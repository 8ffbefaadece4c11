-- ===== src/Context/Service.antt =====
-- src/shyam/context/service.py: which events reach the store, and with which fresh snapshot. The
-- registry is the one that the service was built with.
use shyam.Base.{ℕ, String, Bool, true, false, List, [], ◌∷◌, if◌then◌else◌}
use shyam.Context.Store.{
  EcosystemStateStore, update_discovery, on_workflow_started, on_workflow_completed,
  on_workflow_failed, on_workflow_cancelled, on_step_started, on_node_discovered, on_node_updated,
  on_node_stale, on_node_lost,
}
use shyam.Discovery.Registry.{
  EcosystemRegistry, EcosystemEvent, node_discovered, node_updated, node_stale, node_lost,
  create_snapshot,
}
use shyam.Workflow.Models.{
  WorkflowEvent, workflow_started, workflow_completed, workflow_failed, workflow_cancelled,
  step_started, step_completed, step_failed, step_skipped,
}

pub record ContextService : Type 0 where
  pub store : EcosystemStateStore
  pub subscribed : Bool

-- `_sync_snapshot`
unfoldable pub sync_snapshot : EcosystemRegistry → EcosystemStateStore → EcosystemStateStore
unfolding update_discovery create_snapshot
sync_snapshot registry s = update_discovery (create_snapshot "" registry) s

unfoldable pub start : EcosystemRegistry → ContextService → ContextService
unfolding sync_snapshot
start registry c =
    if c.subscribed then c else record { store = sync_snapshot registry c.store; subscribed = true }

unfoldable pub stop : ContextService → ContextService
stop c = if c.subscribed then record c { subscribed = false } else c

-- `_on_node_discovered` and its three likes
unfoldable pub on_ecosystem_event :
    EcosystemRegistry → ℕ → EcosystemEvent → EcosystemStateStore → EcosystemStateStore
unfolding sync_snapshot on_node_discovered on_node_updated on_node_stale on_node_lost
on_ecosystem_event registry at (node_discovered node) s =
    sync_snapshot registry (on_node_discovered node at s)
on_ecosystem_event registry at (node_updated node _) s =
    sync_snapshot registry (on_node_updated node at s)
on_ecosystem_event registry at (node_stale id _ _) s =
    sync_snapshot registry (on_node_stale id at s)
on_ecosystem_event registry at (node_lost id _ _) s = sync_snapshot registry (on_node_lost id at s)

-- The handlers that are subscribed to the events of a workflow with an id and a name.
unfoldable pub on_workflow_event :
    String → String → ℕ → WorkflowEvent → EcosystemStateStore → EcosystemStateStore
unfolding on_workflow_started on_workflow_completed on_workflow_failed on_workflow_cancelled
    on_step_started
on_workflow_event id name at (workflow_started step_count) s =
    on_workflow_started id name step_count at s
on_workflow_event id name at (workflow_completed completed_steps) s =
    on_workflow_completed id completed_steps at s
on_workflow_event id name at (workflow_failed _ _) s = on_workflow_failed id at s
on_workflow_event id name at (workflow_cancelled _) s = on_workflow_cancelled id at s
on_workflow_event id name at (step_started _ _ target) s = on_step_started id target s
on_workflow_event id name at (step_completed _ _ _ _) s = s
on_workflow_event id name at (step_failed _ _ _) s = s
on_workflow_event id name at (step_skipped _ _ _) s = s

-- What the subscribed service makes of the events that a registry call published, all of them
-- handled before the next call; an unsubscribed one hears nothing.
unfoldable pub handle_all :
    EcosystemRegistry → ℕ → List EcosystemEvent → EcosystemStateStore → EcosystemStateStore
unfolding on_ecosystem_event
handle_all registry at [] s = s
handle_all registry at (e ∷ es) s = handle_all registry at es (on_ecosystem_event registry at e s)

unfoldable pub observe :
    EcosystemRegistry → ℕ → List EcosystemEvent → ContextService → ContextService
unfolding handle_all
observe registry at events c =
    if c.subscribed then record c { store = handle_all registry at events c.store } else c
