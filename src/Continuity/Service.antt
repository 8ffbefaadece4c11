-- ===== src/Continuity/Service.antt =====
-- `request_continuity` of src/shyam/continuity/service.py: the guard against a second attempt, and the
-- run of the pipeline. Its `except Exception` has no model: each stage catches what its calls raise.
use shyam.Base.{String, Option, none, some, if◌then◌else◌}
use shyam.Base.Dict
use shyam.Base.Dict.{Dict}
use shyam.Continuity.Ends.{IsEnded, Ends}
use shyam.Continuity.Models.{ContinuityRequest, ContinuitySession, new_session}
use shyam.Continuity.Pipeline.{run_pipeline}
use shyam.Continuity.Stages.{Environment, Machine, Stage, moved, invalid, nonempty}
use shyam.Continuity.State.{is_terminal}

pub record ServiceState (W : Type 0) : Type 0 where
  pub machine : Machine W
  pub work_continuities : Dict String

-- The session that is returned, or the `ContinuityError` that is raised.
pub data Answer : Type 0 where
  answered : ContinuitySession → Answer
  duplicate : String → Answer
  invalid_transition : Answer

-- The id of the attempt for a work that is still under way.
unfoldable pub active : Option String → Dict ContinuitySession → Option String
active none sessions = none
active (some id) sessions = elim (Dict.get id sessions) [
  | none ↦ none
  | some s ↦ if is_terminal s.state then none else some id
]

unfoldable pub answer_of : Stage → Answer
answer_of (moved s) = answered s
answer_of invalid = invalid_transition

module _ {W : Type 0} (env : Environment W) where
  -- The attempt with a fresh id, past the guard.
  unfoldable pub begin : String → ContinuityRequest → ServiceState W → ServiceState W × Answer
  unfolding run_pipeline answer_of
  begin id request v =
      let s = new_session id request in
      let m = record v.machine { sessions = Dict.put id s v.machine.sessions } in
      let (m', last) = run_pipeline env s m in
      (
        record {
          machine = m';
          work_continuities = Dict.put request.work_id id v.work_continuities;
        },
        answer_of last,
      )

  -- `if existing and not is_terminal(existing.state): raise …`
  unfoldable pub guard :
      Option String → String → ContinuityRequest → ServiceState W → ServiceState W × Answer
  unfolding begin
  guard (some existing) id request v = (v, duplicate existing)
  guard none id request v = begin id request v

  unfoldable pub request_continuity :
      String → ContinuityRequest → ServiceState W → ServiceState W × Answer
  unfolding guard
  request_continuity id request v =
      guard (active (nonempty (Dict.get request.work_id v.work_continuities)) v.machine.sessions) id
        request v

  abbrev pub IsAnswered : ServiceState W → Answer → Type 0
  IsAnswered v (answered s) = IsEnded env v.machine s
  IsAnswered v (duplicate id) = ⊥
  IsAnswered v invalid_transition = ⊥

  pub Ends-IsAnswered :
      (m : Machine W) (r : Stage) (works : Dict String)
      → Ends env (m, r)
      → IsAnswered (record { machine = m; work_continuities = works }) (answer_of r)
  unfolding answer_of
  Ends-IsAnswered m (moved s) works h = h
  Ends-IsAnswered m invalid works h = h
