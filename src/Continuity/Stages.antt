-- ===== src/Continuity/Stages.antt =====
-- The stages of `_run_pipeline` in src/shyam/continuity/service.py. The trust service, Flux and Zarya
-- are an `Environment`; the navigator is the one of Navigation. A failure inside a `try` block that
-- the transition table refused would be caught and refused again, so it is written once.
use shyam.Base.{
  String, ◌<>◌, Bool, true, false, Option, none, some, [], ◌∷◌, ite, if◌then◌else◌, str_discrete,
}
use shyam.Base.Dict
use shyam.Base.Dict.{Dict}
use shyam.Continuity.Models.{
  ContinuityOutcome, failure, no_support, ContinuityRequest, ContinuityTarget, ContinuityResult,
  ContinuitySession,
}
use shyam.Continuity.State.{ContinuityState, failed, unsupported, is_valid_transition}
use shyam.Discovery.Models.{EcosystemSnapshot}
use shyam.Navigation.Models.{NavigationRequest, NavigationCandidate, NavigationResult}
use shyam.Trust.Models.{TrustStatus, TrustRecord}
use shyam.Values.{Value, other, dict, end, field, entries}
use shyam.Workflow.Engine.{Attempt, returned, raised}

-- src/shyam/providers/zarya/models.py
pub data VerificationOutcome : Type 0 where
  verified_success verified_failure not_verified : VerificationOutcome

unfoldable pub outcome_value : VerificationOutcome → String
outcome_value verified_success = "VERIFIED_SUCCESS"
outcome_value verified_failure = "VERIFIED_FAILURE"
outcome_value not_verified = "UNKNOWN"

pub record Continuation : Type 0 where
  pub operation_id : String
  pub outcome : VerificationOutcome
  pub reconstruction_completed : Bool
  pub execution_completed : Bool
  pub summary : String

pub record Transfer : Type 0 where
  pub transfer_id : Option String
  pub status : String

pub record Environment (W : Type 0) : Type 0 where
  pub snapshot : W → EcosystemSnapshot
  pub invalid_target : NavigationCandidate → String
  pub get_record : String → W → Attempt TrustRecord × W
  pub transfer : String → String → W → Attempt Transfer × W
  pub continue_work : Dict Value → String → String → Option String → W → Attempt Continuation × W

-- The world and `self._sessions`.
pub record Machine (W : Type 0) : Type 0 where
  pub world : W
  pub sessions : Dict ContinuitySession

-- The session a stage returns, or `InvalidContinuityTransitionError`.
pub data Stage : Type 0 where
  moved : ContinuitySession → Stage
  invalid : Stage

-- `value or None` on texts
abbrev pub nonempty : Option String → Option String
nonempty none = none
nonempty (some t) = ite (str_discrete t "") none (some t)

abbrev pub or_instead : Option String → String → String
or_instead none default = default
or_instead (some t) default = ite (str_discrete t "") default t

-- `selected.metadata.get(part, {})` where it is a dict
unfoldable pub part_of : String → Dict Value → Dict Value
part_of part meta = elim (Dict.get part meta) [
  | none ↦ []
  | some (other t) ↦ []
  | some (dict fields) ↦ entries fields
]

-- Whether a value counts as true.
unfoldable pub truthy : Value → Bool
truthy (other t) = ite (str_discrete t "") false true
truthy (dict end) = false
truthy (dict (field _ _ _)) = true

-- `a or b` on values that may be absent
unfoldable pub or_value : Option Value → Option Value → Option Value
unfolding truthy
or_value none b = b
or_value (some v) b = if truthy v then some v else b

unfoldable pub lookup : String → Dict Value → Option Value
unfolding or_value part_of Dict.get
lookup key meta =
    or_value (Dict.get key meta)
      (or_value (Dict.get key (part_of "provider" meta)) (Dict.get key (part_of "node" meta)))

-- A field of type `str | None`; `none` is `ValidationError`. Of the other values, which the model does
-- not tell apart, a text is assumed.
unfoldable pub as_text : Option Value → Option (Option String)
as_text none = some none
as_text (some (other t)) = some (nonempty (some t))
as_text (some (dict fields)) = none

-- `ContinuityTarget(…)` with its two texts
unfoldable pub build_target :
    NavigationCandidate → Option (Option String) → Option (Option String) → Option ContinuityTarget
build_target selected none zarya_url = none
build_target selected (some flux_peer_id) none = none
build_target selected (some flux_peer_id) (some zarya_url) = some (record {
  node_id = selected.node_id;
  provider_id = selected.provider_id;
  device_id = selected.node_id;
  trust_verified = false;
  flux_peer_id = flux_peer_id;
  zarya_url = zarya_url;
})

unfoldable pub target_of : NavigationCandidate → Option ContinuityTarget
unfolding lookup as_text build_target
target_of selected =
    build_target selected (as_text (lookup "flux_peer_id" selected.metadata))
      (as_text (lookup "zarya_url" selected.metadata))

abbrev pub continuation_request : ContinuityRequest → NavigationRequest
continuation_request req = record {
  capability = "zarya.work.continue";
  constraints = req.target_constraints;
}

abbrev pub result_with : ContinuityOutcome → String → ContinuityResult
result_with outcome reason = record {
  outcome = outcome;
  transfer_completed = false;
  reconstruction_completed = false;
  execution_completed = false;
  zarya_outcome = none;
  reason = reason;
}

module _ {W : Type 0} where
  -- `self._sessions[session.continuity_id] = session`
  unfoldable pub save : ContinuitySession → Machine W → Machine W × Stage
  save s m = (record m { sessions = Dict.put s.continuity_id s m.sessions }, moved s)

  -- `_transition`
  unfoldable pub transition :
      ContinuityState → Option ContinuityResult → ContinuitySession → Machine W → Machine W × Stage
  unfolding save
  transition target result s m =
      if is_valid_transition s.state target
      then save
          (record s { state = target; result = elim result [ none ↦ s.result | some r ↦ some r ] })
          m
      else (m, invalid)

  -- `_fail`
  unfoldable pub fail : String → ContinuitySession → Machine W → Machine W × Stage
  unfolding transition
  fail reason s m = transition failed (some (result_with failure reason)) s m

  unfoldable pub validate : ContinuitySession → Machine W → Machine W × Stage
  unfolding fail
  validate s m = elim s.request.portable_work [
    | [] ↦ fail "Empty portable_work" s m
    | _ ∷ _ ↦ ite (str_discrete s.request.work_id "") (fail "Missing work_id" s m) (
        ite (str_discrete s.request.continuity_intent "MIGRATION")
          (transition unsupported
            (some (result_with no_support "MIGRATION intent not supported in S16 first slice.")) s
            m)
          (m, moved s))
  ]

  -- `invalid_target` is the text of the `ValidationError` of a target.
  unfoldable pub on_selection :
      (NavigationCandidate → String)
      → NavigationResult
      → ContinuitySession
      → Machine W
      → Machine W × Stage
  unfolding fail save target_of
  on_selection invalid_target found s m = elim found.selected [
    | none ↦ fail ("No eligible target: " <> found.reason) s m
    | some selected ↦ elim (target_of selected) [
      | none ↦ fail ("Target selection failed: " <> invalid_target selected) s m
      | some target ↦ save (record s { target = some target }) m
    ]
  ]

  unfoldable pub on_record :
      ContinuityTarget → Attempt TrustRecord → ContinuitySession → Machine W → Machine W × Stage
  unfolding fail save
  on_record target (raised error) s m = fail ("Trust verification failed: " <> error) s m
  on_record target (returned r) s m = elim r.status [
    | TrustStatus.unknown ↦ fail ("No trust relationship with " <> target.device_id) s m
    | TrustStatus.revoked ↦ fail "Target trust status: revoked" s m
    | TrustStatus.trusted ↦
        save (record s { target = some (record target { trust_verified = true }) }) m
  ]

  abbrev pub without_target :
      String
      → Option ContinuityTarget
      → (ContinuityTarget → ContinuitySession → Machine W → Machine W × Stage)
      → ContinuitySession
      → Machine W
      → Machine W × Stage
  without_target reason none f s m = fail reason s m
  without_target reason (some target) f s m = f target s m
