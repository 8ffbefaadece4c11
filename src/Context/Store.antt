-- ===== src/Context/Store.antt =====
-- src/shyam/context/store.py. The lock makes each handler one step; `at` is the timestamp of the event.
use shyam.Base.{
  ℕ, suc, ltb, String, Bool, true, false, Option, none, some, List, [], ◌∷◌, map, ite, keep, take,
}
use shyam.Base.Dict
use shyam.Base.Dict.{Dict}
use shyam.Context.Models.{
  WorkStatus, running, ActiveWorkItem, ActivityKind, RecentActivityEntry, EcosystemState,
  running_work_count, EcosystemContext,
}
use shyam.Discovery.Models.{EcosystemNodeState, state_discrete, DiscoveredNode, EcosystemSnapshot}
use shyam.Navigation.Models.{NavigationCandidate}

pub record EcosystemStateStore : Type 0 where
  pub version : ℕ
  pub discovery : Option EcosystemSnapshot
  pub active_work : Dict ActiveWorkItem
  pub activity : List RecentActivityEntry
  pub max_activity : ℕ

-- `EcosystemStateStore(max_activity)`; the default is 100.
unfoldable pub new_store : ℕ → EcosystemStateStore
new_store max_activity = record {
  version = 0;
  discovery = none;
  active_work = [];
  activity = [];
  max_activity = max_activity;
}

unfoldable pub update_discovery : EcosystemSnapshot → EcosystemStateStore → EcosystemStateStore
update_discovery snapshot s = record s { discovery = some snapshot; version = suc s.version }

-- `self._activity.appendleft(activity); self._version += 1`, on a deque with `maxlen`.
unfoldable pub log_activity : RecentActivityEntry → EcosystemStateStore → EcosystemStateStore
log_activity entry s = record s {
  activity = take s.max_activity (entry ∷ s.activity);
  version = suc s.version;
}

-- Activities of workflows and of nodes.
abbrev pub of_workflow : ActivityKind → ℕ → String → RecentActivityEntry
of_workflow kind at id = record {
  kind = kind;
  occurred_at = at;
  related_node_id = none;
  related_workflow_id = some id;
}

abbrev pub of_node : ActivityKind → ℕ → String → RecentActivityEntry
of_node kind at id = record {
  kind = kind;
  occurred_at = at;
  related_node_id = some id;
  related_workflow_id = none;
}

-- `self._active_work[id] = item` and `self._active_work.pop(id, None)`
unfoldable pub put_work : String → ActiveWorkItem → EcosystemStateStore → EcosystemStateStore
put_work id item s = record s { active_work = Dict.put id item s.active_work }

unfoldable pub pop_work : String → EcosystemStateStore → EcosystemStateStore
pop_work id s = record s { active_work = Dict.pop id s.active_work }

abbrev pub new_item : String → String → ℕ → ℕ → ActiveWorkItem
new_item id name step_count at = record {
  workflow_id = id;
  workflow_name = name;
  status = running;
  step_count = step_count;
  completed_steps = 0;
  target_node_id = none;
  target_provider_id = none;
  started_at = at;
  finished_at = none;
  error = none;
}

unfoldable pub on_workflow_started :
    String → String → ℕ → ℕ → EcosystemStateStore → EcosystemStateStore
unfolding put_work log_activity
on_workflow_started id name step_count at s =
    log_activity (of_workflow ActivityKind.workflow_started at id)
      (put_work id (new_item id name step_count at) s)

-- The item is taken out, put back as completed and deleted.
unfoldable pub on_workflow_completed : String → ℕ → ℕ → EcosystemStateStore → EcosystemStateStore
unfolding put_work pop_work log_activity
on_workflow_completed id completed_steps at s =
    log_activity (of_workflow ActivityKind.workflow_completed at id)
      (elim (Dict.get id s.active_work) [
        | none ↦ pop_work id s
        | some existing ↦ pop_work id (
            put_work id
              (record existing {
                status = WorkStatus.completed;
                completed_steps = completed_steps;
                finished_at = some at;
              })
              (pop_work id s))
      ])

unfoldable pub on_workflow_failed : String → ℕ → EcosystemStateStore → EcosystemStateStore
unfolding pop_work log_activity
on_workflow_failed id at s =
    log_activity (of_workflow ActivityKind.workflow_failed at id) (pop_work id s)

unfoldable pub on_workflow_cancelled : String → ℕ → EcosystemStateStore → EcosystemStateStore
unfolding pop_work log_activity
on_workflow_cancelled id at s =
    log_activity (of_workflow ActivityKind.workflow_cancelled at id) (pop_work id s)

-- `if existing and existing.target_node_id is None: …`
unfoldable pub with_target :
    String → NavigationCandidate → Option ActiveWorkItem → EcosystemStateStore → EcosystemStateStore
unfolding put_work
with_target id target none s = s
with_target id target (some existing) s = elim existing.target_node_id [
  | some _ ↦ s
  | none ↦
      put_work id
        (record existing {
          target_node_id = some target.node_id;
          target_provider_id = some target.provider_id;
        })
        s
]

unfoldable pub on_step_started :
    String → Option NavigationCandidate → EcosystemStateStore → EcosystemStateStore
unfolding with_target
on_step_started id none s = s
on_step_started id (some target) s = with_target id target (Dict.get id s.active_work) s

unfoldable pub on_node_discovered : DiscoveredNode → ℕ → EcosystemStateStore → EcosystemStateStore
unfolding log_activity
on_node_discovered node at s = log_activity (of_node ActivityKind.node_discovered at node.node_id) s

unfoldable pub on_node_updated : DiscoveredNode → ℕ → EcosystemStateStore → EcosystemStateStore
unfolding log_activity
on_node_updated node at s = log_activity (of_node ActivityKind.node_updated at node.node_id) s

unfoldable pub on_node_stale : String → ℕ → EcosystemStateStore → EcosystemStateStore
unfolding log_activity
on_node_stale id at s = log_activity (of_node ActivityKind.node_stale at id) s

unfoldable pub on_node_lost : String → ℕ → EcosystemStateStore → EcosystemStateStore
unfolding log_activity
on_node_lost id at s = log_activity (of_node ActivityKind.node_lost at id) s

-- `self._discovery or EcosystemSnapshot(local_node_id="unknown", nodes={})`
abbrev pub or_empty : Option EcosystemSnapshot → EcosystemSnapshot
or_empty none = record { local_node_id = "unknown"; nodes = [] }
or_empty (some snapshot) = snapshot

unfoldable pub get_state : EcosystemStateStore → EcosystemState
get_state s = record {
  version = s.version;
  discovery = or_empty s.discovery;
  active_work = Dict.values s.active_work;
  recent_activity = s.activity;
}

is_stale : DiscoveredNode → Bool
unfolding state_discrete
is_stale n = ite (state_discrete n.state EcosystemNodeState.stale) true false

unfoldable pub get_context : EcosystemStateStore → EcosystemContext
unfolding get_state is_stale running_work_count
get_context s =
    let state = get_state s in
    record {
      state = state;
      local_node_id = state.discovery.local_node_id;
      has_active_work = ltb 0 (running_work_count state);
      stale_node_ids = map (λ n. n.node_id) (keep is_stale (Dict.values state.discovery.nodes));
    }
