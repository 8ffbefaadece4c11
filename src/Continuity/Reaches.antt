-- ===== src/Continuity/Reaches.antt =====
-- src/shyam/continuity/service.py: the moves of a session over the transition table.
use shyam.Base.{
  String, true, false, ◌≡◌, ◌≢◌, refl, sym, ap, subst, ◌∙◌, Option, none, some, List, [], ◌∷◌, ◌⊎◌,
  inl, inr, ite, arith, str_discrete,
}
use shyam.Base.Dict
use shyam.Base.Dict.{Dict, get-put}
use shyam.Continuity.Models.{
  failure, no_support, ContinuityTarget, ContinuityResult, ContinuitySession,
}
use shyam.Continuity.Stages.{
  Machine, Stage, moved, invalid, result_with, save, transition, fail, validate, without_target,
}
use shyam.Continuity.Pipeline.{and_then, then_run, stage}
use shyam.Continuity.State.{
  ContinuityState, validating, completed, failed, unsupported, is_valid_transition, is_terminal,
  continuity_state_discrete, valid_transitions,
}
use shyam.Trust.Models.{TrustStatus}

-- States from which the table lets a session fail.
abbrev pub CanFail : ContinuityState → Type 0
CanFail a = is_valid_transition a failed ≡ true

module _ {W : Type 0} where
  -- The session is terminal, not COMPLETED, and the one the service keeps.
  pub record IsOver (m : Machine W) (s : ContinuitySession) : Type 0 where
    pub terminal : is_terminal s.state ≡ true
    pub incomplete : s.state ≢ completed
    pub stored : Dict.get s.continuity_id m.sessions ≡ some s

  -- The transition table never refuses; the session is over or satisfies `K`.
  abbrev pub Reaches : (Machine W → ContinuitySession → Type 0) → Machine W × Stage → Type 0
  Reaches K (m, invalid) = ⊥
  Reaches K (m, moved s) = IsOver m s ⊎ K m s

  pub get-put_self :
      (m : Machine W) (s : ContinuitySession)
      → Dict.get s.continuity_id (Dict.put s.continuity_id s m.sessions) ≡ some s
  get-put_self m s = ground (arith, get-put s.continuity_id s.continuity_id s m.sessions)

  pub transition-valid :
      (b : ContinuityState) (result : Option ContinuityResult) (s : ContinuitySession)
      (m : Machine W)
      → is_valid_transition s.state b ≡ true
      → transition b result s m
        ≡ save
            (record s { state = b; result = elim result [ none ↦ s.result | some r ↦ some r ] })
            m
  unfolding transition
  transition-valid b result s m h = ground arith

  pub transition-Reaches :
      (K : Machine W → ContinuitySession → Type 0) (b : ContinuityState)
      (result : Option ContinuityResult) (s : ContinuitySession) (m : Machine W)
      → is_valid_transition s.state b ≡ true
      → is_terminal b ≡ true
      → b ≢ completed
      → Reaches K (transition b result s m)
  unfolding save
  transition-Reaches K b result s m v t n =
      rw (transition-valid b result s m v)
        (inl (record { terminal = t; incomplete = n; stored = get-put_self m _ }))

  pub fail-Reaches :
      (K : Machine W → ContinuitySession → Type 0) (reason : String) (s : ContinuitySession)
      (m : Machine W)
      → CanFail s.state
      → Reaches K (fail reason s m)
  unfolding fail is_terminal continuity_state_discrete
  fail-Reaches K reason s m v =
      transition-Reaches K failed (some (result_with failure reason)) s m v refl (λ e. cc)

  pub ite-Reaches :
      {P : Type 0} (K : Machine W → ContinuitySession → Type 0) (d : Dec P)
      (x y : Machine W × Stage)
      → Reaches K x
      → Reaches K y
      → Reaches K (ite d x y)
  ite-Reaches K (yes p) x y hx hy = hx
  ite-Reaches K (no n) x y hx hy = hy

  pub option-Reaches :
      {A : Type 0} (K : Machine W → ContinuitySession → Type 0) (o : Option A)
      (x : Machine W × Stage) (f : A → Machine W × Stage)
      → Reaches K x
      → ((a : A) → o ≡ some a → Reaches K (f a))
      → Reaches K (elim o [ none ↦ x | some a ↦ f a ])
  option-Reaches K none x f hx hf = hx
  option-Reaches K (some a) x f hx hf = hf a refl

  pub status-Reaches :
      (K : Machine W → ContinuitySession → Type 0) (t : TrustStatus) (x y z : Machine W × Stage)
      → Reaches K x
      → Reaches K y
      → (t ≡ TrustStatus.trusted → Reaches K z)
      → Reaches K
          (elim t [ TrustStatus.unknown ↦ x | TrustStatus.revoked ↦ y | TrustStatus.trusted ↦ z ])
  status-Reaches K TrustStatus.unknown x y z hx hy hz = hx
  status-Reaches K TrustStatus.revoked x y z hx hy hz = hy
  status-Reaches K TrustStatus.trusted x y z hx hy hz = hz refl

  pub without_target-Reaches :
      (K : Machine W → ContinuitySession → Type 0) (o : Option ContinuityTarget)
      (t : ContinuityTarget) (reason : String)
      (f : ContinuityTarget → ContinuitySession → Machine W → Machine W × Stage)
      (s : ContinuitySession) (m : Machine W)
      → o ≡ some t
      → Reaches K (f t s m)
      → Reaches K (without_target reason o f s m)
  without_target-Reaches K o t reason f s m e h = rw e h

  pub list-Reaches :
      {A : Type 0} (K : Machine W → ContinuitySession → Type 0) (xs : List A)
      (x : Machine W × Stage) (f : A → List A → Machine W × Stage)
      → Reaches K x
      → ((z : A) (zs : List A) → Reaches K (f z zs))
      → Reaches K (elim xs [ [] ↦ x | z ∷ zs ↦ f z zs ])
  list-Reaches K [] x f hx hf = hx
  list-Reaches K (z ∷ zs) x f hx hf = hf z zs

  pub and_then-Reaches :
      (K L : Machine W → ContinuitySession → Type 0)
      (f : ContinuitySession → Machine W → Machine W × Stage) (r : Machine W × Stage)
      → Reaches K r
      → ((m : Machine W) (s : ContinuitySession)
          → K m s
          → (is_terminal s.state ≡ false) × Reaches L (f s m))
      → Reaches L (and_then r f)
  unfolding and_then
  and_then-Reaches K L f (m, invalid) h g = elim h [ ]
  and_then-Reaches K L f (m, moved s) (inl o) g = rw o.terminal (inl o)
  and_then-Reaches K L f (m, moved s) (inr k) g = let (t, rest) = g m s k in rw t rest

  pub stage-valid :
      (b : ContinuityState) (f : ContinuitySession → Machine W → Machine W × Stage)
      (s : ContinuitySession) (m : Machine W)
      → is_valid_transition s.state b ≡ true
      → (m' : Machine W) × (stage b f s m ≡ f (record s { state = b }) m')
  unfolding stage then_run save
  stage-valid b f s m h = (
    record m { sessions = Dict.put s.continuity_id (record s { state = b }) m.sessions },
    rw (transition-valid b none s m h) refl,
  )

  pub stage-Reaches :
      (K : Machine W → ContinuitySession → Type 0) {a : ContinuityState} (b : ContinuityState)
      (f : ContinuitySession → Machine W → Machine W × Stage) (s : ContinuitySession)
      (m : Machine W)
      → s.state ≡ a
      → is_valid_transition a b ≡ true
      → ((m' : Machine W) → Reaches K (f (record s { state = b }) m'))
      → Reaches K (stage b f s m)
  stage-Reaches K b f s m e v h =
      let (m', same) = stage-valid b f s m (ap (λ x. is_valid_transition x b) e ∙ v) in
      subst (Reaches K) (sym same) (h m')

  -- A session in state `a` of which `F` holds.
  abbrev pub At :
      ContinuityState → (ContinuitySession → Type 0) → Machine W → ContinuitySession → Type 0
  At a F m s = (s.state ≡ a) × F s

  pub validate-Reaches :
      (s : ContinuitySession) (m : Machine W)
      → s.state ≡ validating
      → Reaches (At validating (λ s. Unit)) (validate s m)
  unfolding validate is_terminal continuity_state_discrete is_valid_transition valid_transitions
  validate-Reaches s m h =
      let K = At validating (λ s. Unit {0}) in
      let can_fail : CanFail s.state = rw h refl in
      list-Reaches K s.request.portable_work _ _ (fail-Reaches K _ s m can_fail) (λ _ _.
        ite-Reaches K (str_discrete s.request.work_id "") _ _ (fail-Reaches K _ s m can_fail) (
          ite-Reaches K (str_discrete s.request.continuity_intent "MIGRATION") _ _
            (transition-Reaches K unsupported
              (some (result_with no_support "MIGRATION intent not supported in S16 first slice.")) s
              m (rw h refl) refl (λ e. cc))
            (inr (h, tt))))
