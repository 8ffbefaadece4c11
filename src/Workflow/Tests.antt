-- ===== src/Workflow/Tests.antt =====
-- src/shyam/workflow on a workflow of two steps, with a provider that answers and one that raises.
use mathlib.Core.List.{Mem}
use shyam.Base.{
  String, true, ◌≡◌, ◌≢◌, refl, none, some, List, [], ◌∷◌, ◌++◌, str_discrete, All, length,
}
use shyam.Base.Dict
use shyam.Base.Dict.{Dict}
use shyam.Capabilities.{AvailabilityStatus}
use shyam.Discovery.Models.{EcosystemNodeState}
use shyam.Navigation.Models.{
  NavigationCandidate, NavigationRequest, NavigationResult, no_constraints,
}
use shyam.Values.{other}
use shyam.Workflow.Engine.{publish, Environment, Attempt, Run, new_token, returned, raised}
use shyam.Workflow.Executors.{executor_for}
use shyam.Workflow.Courses.{AreServed, IsDone, IsUntried}
use shyam.Workflow.FailFast.{run-IsServed, run-fail_fast}
use shyam.Workflow.Loop.{run}
use shyam.Workflow.Models.{
  WorkflowStep, StepResult, Workflow, WorkflowEvent, workflow_failed, workflow_cancelled,
  workflow_started, is_success,
}
use shyam.Workflow.Course.{failure_message, cancelled_result}
use shyam.Workflow.Outcome.{rounds}
use shyam.Workflow.Results.{RunCourse, run-Course, run-events, closing}
use shyam.Workflow.State.{WorkflowState, StepState, step_state_discrete}
use shyam.Workflow.Terminal.{run-ends_twice}

abbrev pub disk_target : NavigationCandidate
disk_target = record {
  node_id = "laptop";
  node_name = "laptop";
  provider_id = "local.filesystem";
  provider_name = "files";
  capability_id = "file.read";
  is_local = true;
  node_state = EcosystemNodeState.available;
  provider_status = AvailabilityStatus.available;
  capability_availability = AvailabilityStatus.available;
  metadata = [];
}

-- The providers keep no state.
abbrev pub World : Type 0
World = Unit

abbrev pub finds_disk : NavigationRequest → World → Attempt NavigationResult × World × List String
finds_disk request w = (
  returned (record {
    capability = request.capability;
    selected = some disk_target;
    reason = "";
    alternatives = [];
    rejected = [];
  }),
  w,
  [],
)

-- The provider answers, and nobody cancels.
abbrev pub calm : Environment World String
calm = record {
  navigator = finds_disk;
  execute = λ e target input w. (returned (other "data"), w, []);
  deliver = λ event w. (w, []);
}

abbrev cancels_on_failure : WorkflowEvent → World → World × List String
cancels_on_failure (workflow_failed id error) w = (w, "enough" ∷ [])
cancels_on_failure _ w = (w, [])

-- The provider raises, and a subscriber cancels when it hears of it.
abbrev stormy : Environment World String
stormy = record {
  navigator = finds_disk;
  execute = λ e target input w. (raised "disk full", w, []);
  deliver = cancels_on_failure;
}

abbrev pub step_of : String → WorkflowStep
step_of id = record {
  step_id = id;
  capability = "file.read";
  constraints = no_constraints;
  input_data = [];
}

abbrev pub two_reads : Workflow
two_reads = record {
  workflow_id = "wf";
  name = "reads";
  steps = step_of "first" ∷ step_of "second" ∷ [];
}

abbrev pub registered : Dict String
registered = ("local.filesystem", "adapter") ∷ []

abbrev pub at_start : Run World
at_start = record { world = tt; token = new_token; events = [] }

calm_completes : (run calm registered two_reads at_start).1.state ≡ WorkflowState.completed
unfolding run executor_for str_discrete is_success step_state_discrete Dict.get
calm_completes = refl

abbrev failed_first : StepResult
failed_first = record {
  step_id = "first";
  capability = "file.read";
  state = StepState.failed;
  target = some disk_target;
  output = none;
  error = some "disk full";
}

abbrev cancelled_second : StepResult
cancelled_second = cancelled_result (step_of "second") "enough"

stormy_results :
    (run stormy registered two_reads at_start).1.step_results
    ≡ [] ++ failed_first ∷ cancelled_second ∷ []
unfolding run executor_for str_discrete is_success step_state_discrete Dict.get
stormy_results = refl

stormy_is_cancelled : (run stormy registered two_reads at_start).1.state ≡ WorkflowState.cancelled
unfolding run executor_for str_discrete is_success step_state_discrete Dict.get
stormy_is_cancelled = refl

run-Course_example :
    RunCourse calm registered two_reads at_start
      (run calm registered two_reads at_start).1.state
      (run calm registered two_reads at_start).1.step_results
run-Course_example = run-Course calm registered two_reads at_start

run-events_example :
    (reason : String) × ((run stormy registered two_reads at_start).0.events
      ≡ []
        ++ workflow_started (length two_reads.steps) ∷ []
        ++ rounds (run stormy registered two_reads at_start).1.step_results
        ++ closing
            (length two_reads.steps)
            reason
            (run stormy registered two_reads at_start).1.state)
run-events_example = run-events stormy registered two_reads at_start refl

run-IsServed_example :
    AreServed calm registered
      (publish calm (workflow_started 2) at_start)
      two_reads.steps
      (run calm registered two_reads at_start).1.step_results
run-IsServed_example = run-IsServed calm registered two_reads at_start calm_completes

run-fail_fast_example :
    All IsDone []
    × All IsUntried (cancelled_second ∷ [])
    × ((run stormy registered two_reads at_start).1.state ≢ WorkflowState.completed)
run-fail_fast_example =
    run-fail_fast stormy registered two_reads at_start [] (cancelled_second ∷ []) failed_first
      stormy_results refl

run-ends_twice_example :
    Mem
      (workflow_failed "first" (failure_message failed_first))
      (run stormy registered two_reads at_start).0.events
    × ((reason : String) × Mem
          (workflow_cancelled reason)
          (run stormy registered two_reads at_start).0.events)
run-ends_twice_example =
    run-ends_twice stormy registered two_reads at_start [] (cancelled_second ∷ []) failed_first refl
      stormy_results refl stormy_is_cancelled
