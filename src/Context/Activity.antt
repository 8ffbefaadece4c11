-- ===== src/Context/Activity.antt =====
-- src/shyam/context/store.py: the ring buffer of recent activity, against the whole log.
use shyam.Base.{
  ℕ, ◌≤◌, String, ◌≡◌, refl, sym, ◌∙◌, ap, Option, some, none, Option-cases, inl, inr, List, [],
  ◌∷◌, ◌++◌, length, length-take, take, take-cons_take, take-nil, arith,
}
use shyam.Base.Dict
use shyam.Base.Dict.{Dict}
use shyam.Context.Models.{ActiveWorkItem, ActivityKind, RecentActivityEntry}
use shyam.Context.Service.{sync_snapshot, on_ecosystem_event, on_workflow_event}
use shyam.Context.Store.{
  EcosystemStateStore, new_store, update_discovery, log_activity, of_workflow, of_node, put_work,
  pop_work, with_target, on_workflow_started, on_workflow_completed, on_workflow_failed,
  on_workflow_cancelled, on_step_started, on_node_discovered, on_node_updated, on_node_stale,
  on_node_lost,
}
use shyam.Discovery.Models.{EcosystemSnapshot}
use shyam.Navigation.Models.{NavigationCandidate}
use shyam.Discovery.Registry.{
  EcosystemRegistry, EcosystemEvent, node_discovered, node_updated, node_stale, node_lost,
}
use shyam.Workflow.Models.{
  WorkflowEvent, workflow_started, workflow_completed, workflow_failed, workflow_cancelled,
  step_started, step_completed, step_failed, step_skipped,
}

-- What reaches the store: the events of a workflow with an id and a name, and those of the registry.
pub data Heard : Type 0 where
  of_run : String → String → ℕ → WorkflowEvent → Heard
  of_registry : EcosystemRegistry → ℕ → EcosystemEvent → Heard

unfoldable pub receive : EcosystemStateStore → Heard → EcosystemStateStore
unfolding on_workflow_event on_ecosystem_event
receive s (of_run id name at e) = on_workflow_event id name at e s
receive s (of_registry registry at e) = on_ecosystem_event registry at e s

unfoldable pub receive_all : EcosystemStateStore → List Heard → EcosystemStateStore
receive_all s [] = s
receive_all s (h ∷ hs) = receive_all (receive s h) hs

-- What an event adds to the log.
unfoldable pub workflow_entries : String → ℕ → WorkflowEvent → List RecentActivityEntry
workflow_entries id at e = elim e [
  | workflow_started _ ↦ of_workflow ActivityKind.workflow_started at id ∷ []
  | workflow_completed _ ↦ of_workflow ActivityKind.workflow_completed at id ∷ []
  | workflow_failed _ _ ↦ of_workflow ActivityKind.workflow_failed at id ∷ []
  | workflow_cancelled _ ↦ of_workflow ActivityKind.workflow_cancelled at id ∷ []
  | _ ↦ []
]

unfoldable pub entries : Heard → List RecentActivityEntry
unfolding workflow_entries
entries (of_run id _ at e) = workflow_entries id at e
entries (of_registry _ at (node_discovered n)) =
    of_node ActivityKind.node_discovered at n.node_id ∷ []
entries (of_registry _ at (node_updated n _)) = of_node ActivityKind.node_updated at n.node_id ∷ []
entries (of_registry _ at (node_stale id _ _)) = of_node ActivityKind.node_stale at id ∷ []
entries (of_registry _ at (node_lost id _ _)) = of_node ActivityKind.node_lost at id ∷ []

-- The whole log, newest first, before the given older entries.
unfoldable pub log : List Heard → List RecentActivityEntry → List RecentActivityEntry
unfolding entries
log [] older = older
log (h ∷ hs) older = log hs (entries h ++ older)

-- The store after a log: the newest of it, and a version that counts each entry at least once.
pub record Keeps (max_activity : ℕ) (older : List RecentActivityEntry) (s : EcosystemStateStore)
    : Type 0 where
  pub bounded : s.max_activity ≡ max_activity
  pub newest : s.activity ≡ take max_activity older
  pub counted : length older ≤ s.version

module _ (m : ℕ) (older : List RecentActivityEntry) (s : EcosystemStateStore)
    (k : Keeps m older s) where
  logged-Keeps : (entry : RecentActivityEntry) → Keeps m (entry ∷ older) (log_activity entry s)
  unfolding log_activity
  logged-Keeps entry = record {
    bounded = k.bounded;
    newest = rw k.bounded (ap (λ l. take m (entry ∷ l)) k.newest ∙ take-cons_take m entry older);
    counted = omega (arith, k.counted);
  }

  worked-Keeps : (work : Dict ActiveWorkItem) → Keeps m older (record s { active_work = work })
  worked-Keeps work = record { bounded = k.bounded; newest = k.newest; counted = k.counted }

  updated-Keeps : (snapshot : EcosystemSnapshot) → Keeps m older (update_discovery snapshot s)
  unfolding update_discovery
  updated-Keeps snapshot = record {
    bounded = k.bounded;
    newest = k.newest;
    counted = omega (arith, k.counted);
  }

with_target-Keeps :
    (m : ℕ) (older : List RecentActivityEntry) (s : EcosystemStateStore) (id : String)
    (target : NavigationCandidate) (o : Option ActiveWorkItem)
    → Keeps m older s
    → Keeps m older (with_target id target o s)
unfolding with_target put_work
with_target-Keeps m older s id target none k = k
with_target-Keeps m older s id target (some item) k = elim (Option-cases item.target_node_id) [
  | inl e ↦ rw e (worked-Keeps m older s k _)
  | inr (t, e) ↦ rw e k
]

on_workflow_event-Keeps :
    (m : ℕ) (older : List RecentActivityEntry) (s : EcosystemStateStore) (id name : String) (at : ℕ)
    (e : WorkflowEvent)
    → Keeps m older s
    → Keeps m (workflow_entries id at e ++ older) (on_workflow_event id name at e s)
unfolding on_workflow_event workflow_entries on_workflow_started on_workflow_completed
    on_workflow_failed on_workflow_cancelled on_step_started put_work pop_work
on_workflow_event-Keeps m older s id name at (workflow_started n) k =
    logged-Keeps m older _ (worked-Keeps m older s k _) _
on_workflow_event-Keeps m older s id name at (workflow_completed n) k =
    elim (Option-cases (Dict.get id s.active_work)) [
      | inl e ↦ rw e (logged-Keeps m older _ (worked-Keeps m older s k _) _)
      | inr (item, e) ↦ rw e (logged-Keeps m older _ (worked-Keeps m older s k _) _)
    ]
on_workflow_event-Keeps m older s id name at (workflow_failed _ _) k =
    logged-Keeps m older _ (worked-Keeps m older s k _) _
on_workflow_event-Keeps m older s id name at (workflow_cancelled _) k =
    logged-Keeps m older _ (worked-Keeps m older s k _) _
on_workflow_event-Keeps m older s id name at (step_started _ _ none) k = k
on_workflow_event-Keeps m older s id name at (step_started _ _ (some t)) k =
    with_target-Keeps m older s id t (Dict.get id s.active_work) k
on_workflow_event-Keeps m older s id name at (step_completed _ _ _ _) k = k
on_workflow_event-Keeps m older s id name at (step_failed _ _ _) k = k
on_workflow_event-Keeps m older s id name at (step_skipped _ _ _) k = k

receive-Keeps :
    (m : ℕ) (older : List RecentActivityEntry) (s : EcosystemStateStore) (h : Heard)
    → Keeps m older s
    → Keeps m (entries h ++ older) (receive s h)
unfolding receive entries on_ecosystem_event sync_snapshot on_node_discovered on_node_updated
    on_node_stale on_node_lost
receive-Keeps m older s (of_run id name at e) k = on_workflow_event-Keeps m older s id name at e k
receive-Keeps m older s (of_registry r at (node_discovered n)) k =
    updated-Keeps m _ _ (logged-Keeps m older s k _) _
receive-Keeps m older s (of_registry r at (node_updated n _)) k =
    updated-Keeps m _ _ (logged-Keeps m older s k _) _
receive-Keeps m older s (of_registry r at (node_stale id _ _)) k =
    updated-Keeps m _ _ (logged-Keeps m older s k _) _
receive-Keeps m older s (of_registry r at (node_lost id _ _)) k =
    updated-Keeps m _ _ (logged-Keeps m older s k _) _

receive_all-Keeps :
    (m : ℕ) (hs : List Heard) (older : List RecentActivityEntry) (s : EcosystemStateStore)
    → Keeps m older s
    → Keeps m (log hs older) (receive_all s hs)
unfolding receive_all log
receive_all-Keeps m [] older s k = k
receive_all-Keeps m (h ∷ hs) older s k =
    receive_all-Keeps m hs (entries h ++ older) (receive s h) (receive-Keeps m older s h k)

-- After any events, a new store shows the newest activities of the whole log, at most as many as it
-- was built for, and its version is at least the length of the log.
pub receive_all-newest :
    (max_activity : ℕ) (hs : List Heard)
    → ((receive_all (new_store max_activity) hs).activity ≡ take max_activity (log hs []))
      × (length (receive_all (new_store max_activity) hs).activity ≤ max_activity)
      × (length (log hs []) ≤ (receive_all (new_store max_activity) hs).version)
unfolding new_store
receive_all-newest max_activity hs =
    let k =
      receive_all-Keeps max_activity hs [] (new_store max_activity)
        (record { bounded = refl; newest = sym (take-nil max_activity); counted = omega arith }) in
    (k.newest, omega (arith, ap length k.newest, length-take max_activity (log hs [])), k.counted)
