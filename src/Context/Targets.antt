-- ===== src/Context/Targets.antt =====
-- src/shyam/context/store.py: what `on_step_started` learns of the target of a run of
-- src/shyam/workflow/engine.py.
use shyam.Base.{String, Bool, true, false, ◌≡◌, none, some}
use shyam.Base.Dict
use shyam.Base.Dict.{Dict}
use shyam.Context.Models.{ActiveWorkItem}
use shyam.Context.Store.{EcosystemStateStore}
use shyam.Workflow.Models.{WorkflowEvent, step_started, Workflow}

has_target : WorkflowEvent → Bool
has_target e = elim e [
  | step_started _ _ target ↦ elim target [ none ↦ false | some _ ↦ true ]
  | _ ↦ false
]

-- The work item of the workflow, if there is one, has no target node.
abbrev pub Untargeted : String → EcosystemStateStore → Type 0
Untargeted id s =
    (item : ActiveWorkItem) → Dict.get id s.active_work ≡ some item → item.target_node_id ≡ none
