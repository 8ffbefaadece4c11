-- ===== src/Continuity/Progress.antt =====
-- src/shyam/continuity/service.py: what each stage adds to a session that goes on.
use shyam.Base.{none, arith, String, true, ◌≡◌, refl, ap, ◌∙◌, Option, some, inr}
use shyam.Continuity.Models.{
  ContinuityTarget, ContinuityRequest, ContinuityResult, ContinuitySession,
}
use shyam.Continuity.Stages.{
  outcome_value, Continuation, Environment, Machine, nonempty, continuation_request, save,
  on_selection, on_record, build_target, target_of,
}
use shyam.Continuity.Pipeline.{
  select_target, verify_trust, transfer_artifacts, on_sent, Sent, sent, stopped, continue_on_target,
  on_continuation,
}
use shyam.Continuity.State.{
  ContinuityState, target_selected, authorized, transferring, continuing, is_valid_transition,
  continuity_state_discrete, valid_transitions,
}
use shyam.Navigation.Models.{NavigationCandidate}
use shyam.Navigation.Navigator.{navigate}
use shyam.Trust.Models.{TrustStatus, TrustRecord}
use shyam.Workflow.Engine.{Attempt, returned, raised}
use shyam.Continuity.Reaches.{
  Reaches, At, fail-Reaches, option-Reaches, status-Reaches, without_target-Reaches, list-Reaches,
}

build_target-same_node :
    (c : NavigationCandidate) (flux_peer_id zarya_url : Option (Option String))
    (t : ContinuityTarget)
    → build_target c flux_peer_id zarya_url ≡ some t
    → t.node_id ≡ c.node_id
unfolding build_target
build_target-same_node c none zarya_url t e = absurd (ground (arith, e))
build_target-same_node c (some flux_peer_id) none t e = absurd (ground (arith, e))
build_target-same_node c (some flux_peer_id) (some zarya_url) t e = cc

same_target :
    {o : Option ContinuityTarget} (s t : ContinuityTarget) → o ≡ some s → o ≡ some t → s ≡ t
same_target s t p q = cc

module _ {W : Type 0} (env : Environment W) where
  -- The target is the selection of the navigator on a snapshot of the ecosystem.
  pub record IsChosen (request : ContinuityRequest) (chosen : Option ContinuityTarget)
      : Type 0 where
    pub world : W
    pub candidate : NavigationCandidate
    pub target : ContinuityTarget
    pub selected :
        (navigate (continuation_request request) (env.snapshot world)).selected ≡ some candidate
    pub kept : chosen ≡ some target
    pub same_node : target.node_id ≡ candidate.node_id

  -- The trust service answered TRUSTED for the device of the target.
  pub record IsTrusted (chosen : Option ContinuityTarget) : Type 0 where
    pub world : W
    pub target : ContinuityTarget
    pub trust : TrustRecord
    pub kept : chosen ≡ some target
    pub answered : (env.get_record target.device_id world).0 ≡ returned trust
    pub standing : trust.status ≡ TrustStatus.trusted

  -- The provider on the target answered, with the outcome that the result holds.
  pub record IsContinued (request : ContinuityRequest) (continuity_id : String)
      (held : Option ContinuityResult) : Type 0 where
    pub world : W
    pub url : Option String
    pub answer : Continuation
    pub answered :
        (env.continue_work request.portable_work request.source_device_id continuity_id url world).0
        ≡ returned answer
    pub result : ContinuityResult
    pub kept : held ≡ some result
    pub raw : result.zarya_outcome ≡ some (outcome_value answer.outcome)

  abbrev pub Chosen : ContinuityState → Machine W → ContinuitySession → Type 0
  Chosen a = At a (λ s. IsChosen s.request s.target)

  pub select_target-Reaches :
      (s : ContinuitySession) (m : Machine W)
      → s.state ≡ target_selected
      → Reaches (Chosen target_selected) (select_target env s m)
  unfolding select_target on_selection save target_of is_valid_transition valid_transitions
      continuity_state_discrete
  select_target-Reaches s m h =
      let K = Chosen target_selected in
      let found = navigate (continuation_request s.request) (env.snapshot m.world) in
      option-Reaches K found.selected _ _ (fail-Reaches K _ s m (rw h refl)) (λ c e.
        option-Reaches K (target_of c) _ _ (fail-Reaches K _ s m (rw h refl)) (λ t b. inr (
          h,
          record {
            world = m.world;
            candidate = c;
            target = t;
            selected = e;
            kept = refl;
            same_node = build_target-same_node c _ _ t b;
          },
        )))

  -- A session in state `a` with a target that was chosen and is trusted.
  abbrev pub Trusting : ContinuityState → Machine W → ContinuitySession → Type 0
  Trusting a = At a (λ s. IsChosen s.request s.target × IsTrusted s.target)

  pub on_record-Reaches :
      (target : ContinuityTarget) (answer : Attempt TrustRecord) (w : W) (s : ContinuitySession)
      (m : Machine W)
      → s.state ≡ authorized
      → IsChosen s.request s.target
      → s.target ≡ some target
      → (env.get_record target.device_id w).0 ≡ answer
      → Reaches (Trusting authorized) (on_record target answer s m)
  unfolding on_record save is_valid_transition valid_transitions continuity_state_discrete
  on_record-Reaches target (raised error) w s m h c k e =
      fail-Reaches (Trusting authorized) _ s m (rw h refl)
  on_record-Reaches target (returned r) w s m h c k e =
      status-Reaches (Trusting authorized) r.status _ _ _
        (fail-Reaches (Trusting authorized) _ s m (rw h refl))
        (fail-Reaches (Trusting authorized) _ s m (rw h refl))
        (λ t. inr (
          h,
          (
            record {
              world = c.world;
              candidate = c.candidate;
              target = record target { trust_verified = true };
              selected = c.selected;
              kept = refl;
              same_node =
                  ap (λ (x : ContinuityTarget). x.node_id) (same_target target c.target k c.kept)
                  ∙ c.same_node;
            },
            record {
              world = w;
              target = record target { trust_verified = true };
              trust = r;
              kept = refl;
              answered = e;
              standing = t;
            },
          ),
        ))

  pub verify_trust-Reaches :
      (s : ContinuitySession) (m : Machine W)
      → s.state ≡ authorized
      → IsChosen s.request s.target
      → Reaches (Trusting authorized) (verify_trust env s m)
  unfolding verify_trust
  verify_trust-Reaches s m h c =
      without_target-Reaches (Trusting authorized) s.target c.target _ _ s m c.kept (
        on_record-Reaches c.target (env.get_record c.target.device_id m.world).0 m.world s _ h c
          c.kept refl)

  pub on_sent-Reaches :
      (q : W × Sent) (s : ContinuitySession) (m : Machine W)
      → Trusting transferring m s
      → Reaches (Trusting transferring) (on_sent env q s m)
  unfolding on_sent save is_valid_transition valid_transitions continuity_state_discrete
  on_sent-Reaches (w, sent last) s m (h, facts) = inr (h, facts)
  on_sent-Reaches (w, stopped reason) s m (h, facts) =
      fail-Reaches (Trusting transferring) _ s _ (rw h refl)

  pub transfer_artifacts-Reaches :
      (s : ContinuitySession) (m : Machine W)
      → Trusting transferring m s
      → Reaches (Trusting transferring) (transfer_artifacts env s m)
  unfolding transfer_artifacts save
  transfer_artifacts-Reaches s m (h, (c, t)) =
      without_target-Reaches (Trusting transferring) s.target c.target _ _ s m c.kept (
        list-Reaches (Trusting transferring) s.request.artifact_paths _ _ (inr (h, (c, t)))
          (λ path paths. on_sent-Reaches _ s m (h, (c, t))))

  -- A session in state `a` whose work was continued on a chosen and trusted target.
  abbrev pub Continued : ContinuityState → Machine W → ContinuitySession → Type 0
  Continued a = At a (λ s.
      IsChosen s.request s.target
      × IsTrusted s.target
      × IsContinued s.request s.continuity_id s.result)

  pub on_continuation-Reaches :
      (url : Option String) (w : W) (answer : Attempt Continuation) (s : ContinuitySession)
      (m : Machine W)
      → Trusting continuing m s
      → (env.continue_work s.request.portable_work s.request.source_device_id s.continuity_id url
          w).0
        ≡ answer
      → Reaches (Continued continuing) (on_continuation env answer s m)
  unfolding on_continuation save is_valid_transition valid_transitions continuity_state_discrete
  on_continuation-Reaches url w (returned a) s m (h, (c, t)) e = inr (
    h,
    (
      c,
      t,
      record {
        world = w;
        url = url;
        answer = a;
        answered = e;
        result = _;
        kept = refl;
        raw = refl;
      },
    ),
  )
  on_continuation-Reaches url w (raised error) s m (h, (c, t)) e =
      fail-Reaches (Continued continuing) _ s m (rw h refl)

  pub continue_on_target-Reaches :
      (s : ContinuitySession) (m : Machine W)
      → Trusting continuing m s
      → Reaches (Continued continuing) (continue_on_target env s m)
  unfolding continue_on_target
  continue_on_target-Reaches s m (h, (c, t)) =
      without_target-Reaches (Continued continuing) s.target c.target _ _ s m c.kept
        (on_continuation-Reaches (nonempty c.target.zarya_url) m.world _ s _ (h, (c, t)) refl)
