-- ===== src/Continuity/Ends.antt =====
-- src/shyam/continuity/service.py: how a run of the pipeline ends.
use shyam.Base.{
  String, true, false, ◌≡◌, refl, sym, ap, subst, ◌∙◌, some, inl, inr, arith, str_discrete,
}
use shyam.Base.Dict
use shyam.Base.Dict.{Dict, get-put}
use shyam.Continuity.Models.{ContinuityResult, ContinuitySession}
use shyam.Continuity.Stages.{
  VerificationOutcome, verified_success, verified_failure, not_verified, outcome_value, Environment,
  Machine, Stage, moved, invalid, save, transition, validate,
}
use shyam.Continuity.Pipeline.{
  select_target, verify_trust, transfer_artifacts, continue_on_target, verify_result, judge,
  and_then, then_run, stage, prepare_artifacts, run_pipeline,
}
use shyam.Continuity.State.{
  ContinuityState, requested, validating, target_selected, authorized, preparing, transferring,
  reconstructing, continuing, verifying, completed, is_valid_transition, is_terminal,
  continuity_state_discrete, valid_transitions,
}
use shyam.Continuity.Reaches.{
  Reaches, At, get-put_self, transition-valid, and_then-Reaches, stage-valid, stage-Reaches,
  validate-Reaches,
}
use shyam.Continuity.Progress.{
  IsChosen, IsTrusted, IsContinued, Chosen, Trusting, Continued, select_target-Reaches,
  verify_trust-Reaches, transfer_artifacts-Reaches, continue_on_target-Reaches,
}

module _ {W : Type 0} (env : Environment W) where
  -- The session has ended as the service keeps it. If it is COMPLETED, the navigator chose its
  -- target, the trust service answered TRUSTED for it, and Zarya answered VERIFIED_SUCCESS.
  pub record IsEnded (m : Machine W) (s : ContinuitySession) : Type 0 where
    pub terminal : is_terminal s.state ≡ true
    pub stored : Dict.get s.continuity_id m.sessions ≡ some s
    pub chosen : s.state ≡ completed → IsChosen env s.request s.target
    pub trusted : s.state ≡ completed → IsTrusted env s.target
    pub verified :
        s.state ≡ completed
        → (c : IsContinued env s.request s.continuity_id s.result) × (c.answer.outcome
            ≡ verified_success)

  abbrev pub Ends : Machine W × Stage → Type 0
  Ends (m, invalid) = ⊥
  Ends (m, moved s) = IsEnded m s

  transition-Ends :
      (b : ContinuityState) (r : ContinuityResult) (s : ContinuitySession) (m : Machine W)
      → is_valid_transition s.state b ≡ true
      → is_terminal b ≡ true
      → IsChosen env s.request s.target
      → IsTrusted env s.target
      → (b ≡ completed
          → (c : IsContinued env s.request s.continuity_id (some r)) × (c.answer.outcome
              ≡ verified_success))
      → Ends (transition b (some r) s m)
  unfolding save
  transition-Ends b r s m v t chosen trusted verified =
      rw (transition-valid b (some r) s m v) (record {
        terminal = t;
        stored = get-put_self m _;
        chosen = λ _. chosen;
        trusted = λ _. trusted;
        verified = verified;
      })

  judge-terminal :
      (o : VerificationOutcome)
      → (is_valid_transition verifying (judge (some (outcome_value o))).1 ≡ true)
        × (is_terminal (judge (some (outcome_value o))).1 ≡ true)
        × ((judge (some (outcome_value o))).1 ≡ completed → o ≡ verified_success)
  unfolding judge outcome_value str_discrete is_valid_transition is_terminal valid_transitions
      continuity_state_discrete
  judge-terminal verified_success = (refl, refl, λ e. refl)
  judge-terminal verified_failure = (refl, refl, λ e. absurd (cc))
  judge-terminal not_verified = (refl, refl, λ e. absurd (cc))

  verify_result-raw :
      (s : ContinuitySession) (m : Machine W) (r : ContinuityResult) (t : String)
      → s.result ≡ some r
      → r.zarya_outcome ≡ some t
      → verify_result s m
        ≡ transition (judge (some t)).1 (some (record r { outcome = (judge (some t)).0 })) s m
  unfolding verify_result
  verify_result-raw s m r t e f = ground arith

  verify_result-Ends :
      (s : ContinuitySession) (m : Machine W)
      → Continued env verifying m s
      → Ends (verify_result s m)
  verify_result-Ends s m (h, (chosen, trusted, c)) =
      let o = c.answer.outcome in
      let (valid, ends, verified) = judge-terminal o in
      let final : ContinuityResult = record c.result {
        outcome = (judge (some (outcome_value o))).0;
      } in
      rw (verify_result-raw s m c.result (outcome_value o) c.kept c.raw) (
        transition-Ends (judge (some (outcome_value o))).1 final s m
          (ap (λ x. is_valid_transition x (judge (some (outcome_value o))).1) h ∙ valid) ends chosen
          trusted
          (λ e. (
            record {
              world = c.world;
              url = c.url;
              answer = c.answer;
              answered = c.answered;
              result = final;
              kept = refl;
              raw = c.raw;
            },
            verified e,
          )))

  and_then-Ends :
      (K : Machine W → ContinuitySession → Type 0)
      (f : ContinuitySession → Machine W → Machine W × Stage) (r : Machine W × Stage)
      → Reaches K r
      → ((m : Machine W) (s : ContinuitySession)
          → K m s
          → (is_terminal s.state ≡ false) × Ends (f s m))
      → Ends (and_then r f)
  unfolding and_then
  and_then-Ends K f (m, invalid) h g = elim h [ ]
  and_then-Ends K f (m, moved s) (inl o) g = rw o.terminal (record {
    terminal = o.terminal;
    stored = o.stored;
    chosen = λ e. absurd (o.incomplete e);
    trusted = λ e. absurd (o.incomplete e);
    verified = λ e. absurd (o.incomplete e);
  })
  and_then-Ends K f (m, moved s) (inr k) g = let (t, rest) = g m s k in rw t rest

  stage-Ends :
      {a : ContinuityState} (b : ContinuityState)
      (f : ContinuitySession → Machine W → Machine W × Stage) (s : ContinuitySession)
      (m : Machine W)
      → s.state ≡ a
      → is_valid_transition a b ≡ true
      → ((m' : Machine W) → Ends (f (record s { state = b }) m'))
      → Ends (stage b f s m)
  stage-Ends b f s m e v h =
      let (m', same) = stage-valid b f s m (ap (λ x. is_valid_transition x b) e ∙ v) in
      subst Ends (sym same) (h m')

  -- From a session in REQUESTED, whatever its environment answers, the pipeline never meets a
  -- transition that its table forbids, and it returns a terminal session that the service keeps;
  -- if it is COMPLETED, the navigator chose its target, the trust service answered TRUSTED for it,
  -- and Zarya answered VERIFIED_SUCCESS.
  pub run_pipeline-Ends :
      (s : ContinuitySession) (m : Machine W) → s.state ≡ requested → Ends (run_pipeline env s m)
  unfolding run_pipeline is_terminal is_valid_transition valid_transitions continuity_state_discrete
      stage then_run transition save prepare_artifacts
  run_pipeline-Ends s m h =
      and_then-Ends (Continued env continuing) _ _
        (and_then-Reaches (Trusting env transferring) (Continued env continuing) _ _
          (and_then-Reaches (Trusting env preparing) (Trusting env transferring) _ _
            (and_then-Reaches (Trusting env authorized) (Trusting env preparing) _ _
              (and_then-Reaches (Chosen env target_selected) (Trusting env authorized) _ _
                (and_then-Reaches (At validating (λ s. Unit {0})) (Chosen env target_selected) _ _
                  (stage-Reaches (At validating (λ s. Unit {0})) validating validate s m h refl
                    (λ m. validate-Reaches _ m refl))
                  (λ m s (h, u). (
                    rw h refl,
                    stage-Reaches (Chosen env target_selected) target_selected (select_target env) s
                        m h refl (λ m. select_target-Reaches env _ m refl),
                  )))
                (λ m s (h, c). (
                  rw h refl,
                  stage-Reaches (Trusting env authorized) authorized (verify_trust env) s m h refl
                      (λ m. verify_trust-Reaches env _ m refl c),
                )))
              (λ m s (h, facts). (
                rw h refl,
                stage-Reaches (Trusting env preparing) preparing prepare_artifacts s m h refl
                    (λ m. inr (refl, facts)),
              )))
            (λ m s (h, facts). (
              rw h refl,
              stage-Reaches (Trusting env transferring) transferring (transfer_artifacts env) s m h
                  refl (λ m. transfer_artifacts-Reaches env _ m (refl, facts)),
            )))
          (λ m s (h, facts). (
            rw h refl,
            stage-Reaches (Continued env continuing) reconstructing
                (stage continuing (continue_on_target env)) s m h refl
                (λ m.
                  stage-Reaches (Continued env continuing) continuing (continue_on_target env)
                    (record s { state = reconstructing }) m refl refl
                    (λ m. continue_on_target-Reaches env _ m (refl, facts))),
          )))
        (λ m s (h, facts). (
          rw h refl,
          stage-Ends verifying verify_result s m h refl (λ m. verify_result-Ends _ m (refl, facts)),
        ))
