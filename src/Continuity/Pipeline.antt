-- ===== src/Continuity/Pipeline.antt =====
-- `_run_pipeline` of src/shyam/continuity/service.py, with the stages that call the environment.
use shyam.Base.{
  String, ◌<>◌, Bool, true, false, Option, none, some, List, [], ◌∷◌, ite, if◌then◌else◌,
  str_discrete,
}
use shyam.Continuity.Models.{ContinuityOutcome, success, failure, uncertain, ContinuitySession}
use shyam.Continuity.Stages.{
  VerificationOutcome, verified_success, verified_failure, not_verified, outcome_value,
  Continuation, Environment, Machine, Stage, moved, invalid, nonempty, or_instead,
  continuation_request, result_with, save, transition, fail, validate, on_selection, on_record,
  without_target,
}
use shyam.Continuity.State.{
  ContinuityState, validating, target_selected, authorized, preparing, transferring, reconstructing,
  continuing, verifying, completed, failed, unknown, is_terminal,
}
use shyam.Navigation.Navigator.{navigate}
use shyam.Workflow.Engine.{Attempt, returned, raised}

-- `_map_zarya_outcome`
unfoldable pub map_zarya_outcome : VerificationOutcome → ContinuityOutcome
map_zarya_outcome verified_success = success
map_zarya_outcome verified_failure = failure
map_zarya_outcome not_verified = uncertain

-- The loop over the artifacts: the id of the last transfer, or why it stopped.
pub data Sent : Type 0 where
  sent : Option String → Sent
  stopped : String → Sent

unfoldable pub bad_status : String → Bool
bad_status status =
    ite (str_discrete status "FAILED") true (ite (str_discrete status "CANCELLED") true false)

abbrev pub continued : Continuation → ContinuitySession → ContinuitySession
continued c s = record s {
  operation_id = some c.operation_id;
  result = some (record {
    outcome = map_zarya_outcome c.outcome;
    transfer_completed = true;
    reconstruction_completed = c.reconstruction_completed;
    execution_completed = c.execution_completed;
    zarya_outcome = some (outcome_value c.outcome);
    reason = c.summary;
  });
}

-- The final outcome and state for a raw Zarya outcome.
unfoldable pub judge : Option String → ContinuityOutcome × ContinuityState
judge none = (uncertain, unknown)
judge (some text) =
    ite (str_discrete text (outcome_value verified_success)) (success, completed)
      (ite (str_discrete text (outcome_value verified_failure)) (failure, failed)
        (uncertain, unknown))

module _ {W : Type 0} where
  unfoldable pub verify_result : ContinuitySession → Machine W → Machine W × Stage
  unfolding transition judge
  verify_result s m = elim s.result [
    | none ↦ transition unknown (some (result_with uncertain "No result to verify.")) s m
    | some r ↦
        let (outcome, state) = judge r.zarya_outcome in
        transition state (some (record r { outcome = outcome })) s m
  ]

  -- The next stage, unless the session was refused or is terminal.
  unfoldable pub and_then :
      Machine W × Stage → (ContinuitySession → Machine W → Machine W × Stage) → Machine W × Stage
  and_then (m, invalid) f = (m, invalid)
  and_then (m, moved s) f = if is_terminal s.state then (m, moved s) else f s m

  -- The next lines, unless the session was refused.
  unfoldable pub then_run :
      Machine W × Stage → (ContinuitySession → Machine W → Machine W × Stage) → Machine W × Stage
  then_run (m, invalid) f = (m, invalid)
  then_run (m, moved s) f = f s m

  -- `self._transition(session, state)` and the work of that stage
  unfoldable pub stage :
      ContinuityState
      → (ContinuitySession → Machine W → Machine W × Stage)
      → ContinuitySession
      → Machine W
      → Machine W × Stage
  unfolding transition then_run
  stage state f s m = then_run (transition state none s m) f

  -- Stage 4 determines nothing yet: it returns the session.
  unfoldable pub prepare_artifacts : ContinuitySession → Machine W → Machine W × Stage
  prepare_artifacts s m = (m, moved s)

module _ {W : Type 0} (env : Environment W) where
  unfoldable pub select_target : ContinuitySession → Machine W → Machine W × Stage
  unfolding on_selection
  select_target s m =
      on_selection env.invalid_target
        (navigate (continuation_request s.request) (env.snapshot m.world)) s m

  unfoldable pub verify_trust : ContinuitySession → Machine W → Machine W × Stage
  unfolding on_record
  verify_trust s m =
      without_target "No target selected" s.target
        (λ target s m.
          let (answer, w) = env.get_record target.device_id m.world in
          on_record target answer s (record m { world = w }))
        s m

  unfoldable pub transfer_all : String → List String → Option String → W → W × Sent
  transfer_all peer [] last w = (w, sent last)
  transfer_all peer (path ∷ paths) last w =
      let (answer, w') = env.transfer peer path w in
      elim answer [
        | raised error ↦ (w', stopped ("Artifact transfer failed: " <> error))
        | returned t ↦
            let rest = transfer_all peer paths t.transfer_id w' in
            if bad_status t.status
            then (w', stopped ("Artifact transfer failed with status: " <> t.status))
            else rest
      ]

  unfoldable pub on_sent : W × Sent → ContinuitySession → Machine W → Machine W × Stage
  unfolding save fail
  on_sent (w, sent last) s m = save (record s { transfer_id = last }) (record m { world = w })
  on_sent (w, stopped reason) s m = fail reason s (record m { world = w })

  unfoldable pub transfer_artifacts : ContinuitySession → Machine W → Machine W × Stage
  unfolding on_sent transfer_all
  transfer_artifacts s m =
      without_target "No target for transfer" s.target
        (λ target s m. elim s.request.artifact_paths [
          | [] ↦
              save
                (record s {
                  result = some (record (result_with success "") { transfer_completed = true });
                })
                m
          | path ∷ paths ↦
              on_sent
                (transfer_all (or_instead target.flux_peer_id target.node_id) (path ∷ paths) none
                  m.world)
                s m
        ])
        s m

  unfoldable pub on_continuation :
      Attempt Continuation → ContinuitySession → Machine W → Machine W × Stage
  unfolding save fail
  on_continuation (returned c) s m = save (continued c s) m
  on_continuation (raised error) s m = fail ("Target continuation failed: " <> error) s m

  unfoldable pub continue_on_target : ContinuitySession → Machine W → Machine W × Stage
  unfolding on_continuation
  continue_on_target s m =
      without_target "No target for continuation" s.target
        (λ target s m.
          let (answer, w) =
            env.continue_work s.request.portable_work s.request.source_device_id s.continuity_id
              (nonempty target.zarya_url) m.world in
          on_continuation answer s (record m { world = w }))
        s m

  unfoldable pub run_pipeline : ContinuitySession → Machine W → Machine W × Stage
  unfolding stage and_then
  run_pipeline s m =
      let r₁ = stage validating validate s m in
      let r₂ = and_then r₁ (stage target_selected select_target) in
      let r₃ = and_then r₂ (stage authorized verify_trust) in
      let r₄ = and_then r₃ (stage preparing prepare_artifacts) in
      let r₅ = and_then r₄ (stage transferring transfer_artifacts) in
      let r₆ = and_then r₅ (stage reconstructing (stage continuing continue_on_target)) in
      and_then r₆ (stage verifying verify_result)
