-- ===== src/Context/Models.antt =====
-- src/shyam/context/models.py. The texts that describe an activity and its empty metadata are left
-- out, as is the time of a snapshot: no code reads them.
use shyam.Base.{ℕ, String, Bool, Option, List, length}
use shyam.Discovery.Models.{EcosystemSnapshot, total_nodes, active_nodes}

pub data WorkStatus : Type 0 where
  running completed failed cancelled : WorkStatus

pub record ActiveWorkItem : Type 0 where
  pub workflow_id : String
  pub workflow_name : String
  pub status : WorkStatus
  pub step_count : ℕ
  pub completed_steps : ℕ
  pub target_node_id : Option String
  pub target_provider_id : Option String
  pub started_at : ℕ
  pub finished_at : Option ℕ
  pub error : Option String

pub data ActivityKind : Type 0 where
  node_discovered node_updated node_stale node_lost : ActivityKind
  workflow_started workflow_completed workflow_failed workflow_cancelled : ActivityKind

pub record RecentActivityEntry : Type 0 where
  pub kind : ActivityKind
  pub occurred_at : ℕ
  pub related_node_id : Option String
  pub related_workflow_id : Option String

pub record EcosystemState : Type 0 where
  pub version : ℕ
  pub discovery : EcosystemSnapshot
  pub active_work : List ActiveWorkItem
  pub recent_activity : List RecentActivityEntry

unfoldable pub state_total_nodes : EcosystemState → ℕ
unfolding total_nodes
state_total_nodes s = total_nodes s.discovery

unfoldable pub active_node_count : EcosystemState → ℕ
unfolding active_nodes
active_node_count s = length (active_nodes s.discovery)

unfoldable pub running_work_count : EcosystemState → ℕ
running_work_count s = length s.active_work

pub record EcosystemContext : Type 0 where
  pub state : EcosystemState
  pub local_node_id : String
  pub has_active_work : Bool
  pub stale_node_ids : List String
