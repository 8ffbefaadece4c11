-- ===== src/Continuity/Guard.antt =====
-- src/shyam/continuity/service.py: which requests `request_continuity` refuses, and what it leaves of the
-- others.
use shyam.Base.{
  String, true, false, ◌≡◌, ◌≢◌, refl, sym, ap, ◌∙◌, Option, none, some, ◌⊎◌, inl, inr,
  Option-cases, ite, str_discrete, arith,
}
use shyam.Base.Dict
use shyam.Base.Dict.{Dict, get-put_self}
use shyam.Continuity.Ends.{run_pipeline-Ends}
use shyam.Continuity.Models.{ContinuityRequest, ContinuitySession, new_session}
use shyam.Continuity.Service.{
  ServiceState, Answer, duplicate, active, begin, guard, request_continuity, IsAnswered,
  Ends-IsAnswered,
}
use shyam.Continuity.Stages.{Environment, nonempty}
use shyam.Continuity.State.{
  ContinuityState, requested, validating, target_selected, authorized, preparing, transferring,
  reconstructing, continuing, verifying, completed, failed, cancelled, unsupported, unknown,
  is_terminal, continuity_state_discrete,
}

-- The states in which an attempt is over.
abbrev pub IsOver : ContinuityState → Type 0
IsOver completed = Unit
IsOver failed = Unit
IsOver cancelled = Unit
IsOver unsupported = Unit
IsOver unknown = Unit
IsOver _ = ⊥

-- The attempt for a work that is under way: the one recorded for it, whose session is kept and not
-- over.
pub record IsUnderway {W : Type 0} (v : ServiceState W) (work_id id : String) : Type 0 where
  pub recorded : Dict.get work_id v.work_continuities ≡ some id
  pub named : id ≢ ""
  pub session : ContinuitySession
  pub kept : Dict.get id v.machine.sessions ≡ some session
  pub unfinished : ¬ IsOver session.state

IsOver-cases :
    (s : ContinuityState)
    → (IsOver s × (is_terminal s ≡ true)) ⊎ ((¬ IsOver s) × (is_terminal s ≡ false))
unfolding is_terminal continuity_state_discrete
IsOver-cases requested = inr (λ h. h, refl)
IsOver-cases validating = inr (λ h. h, refl)
IsOver-cases target_selected = inr (λ h. h, refl)
IsOver-cases authorized = inr (λ h. h, refl)
IsOver-cases preparing = inr (λ h. h, refl)
IsOver-cases transferring = inr (λ h. h, refl)
IsOver-cases reconstructing = inr (λ h. h, refl)
IsOver-cases continuing = inr (λ h. h, refl)
IsOver-cases verifying = inr (λ h. h, refl)
IsOver-cases completed = inl (tt, refl)
IsOver-cases failed = inl (tt, refl)
IsOver-cases cancelled = inl (tt, refl)
IsOver-cases unsupported = inl (tt, refl)
IsOver-cases unknown = inl (tt, refl)

active-underway :
    {W : Type 0} (v : ServiceState W) (work_id id : String)
    → IsUnderway v work_id id
    → active (nonempty (Dict.get work_id v.work_continuities)) v.machine.sessions ≡ some id
unfolding active
active-underway v work_id id u = elim (IsOver-cases u.session.state) [
  | inl (over, _) ↦ absurd (u.unfinished over)
  | inr (_, t) ↦ ground (arith, u.recorded, u.named, u.kept, t)
]

active-some :
    (t id : String) (sessions : Dict ContinuitySession) (o : Option ContinuitySession)
    → Dict.get t sessions ≡ o
    → active (some t) sessions ≡ some id
    → (t ≡ id)
      × (s : ContinuitySession) × (Dict.get t sessions ≡ some s)
      × (is_terminal s.state ≡ false)
unfolding active
active-some t id sessions none g e = absurd (ground (arith, g, e))
active-some t id sessions (some s) g e = (ground (arith, g, e), s, g, ground (arith, g, e))

active-found :
    (recorded : Option String) (sessions : Dict ContinuitySession) (id : String)
    → active (nonempty recorded) sessions ≡ some id
    → (recorded ≡ some id)
      × (id ≢ "")
      × (s : ContinuitySession) × (Dict.get id sessions ≡ some s)
      × (is_terminal s.state ≡ false)
unfolding active
active-found none sessions id e = absurd (ground (arith, e))
active-found (some t) sessions id e =
    elim (str_discrete t "")
        as (λ q.
          active (ite q none (some t)) sessions ≡ some id
          → (some t ≡ some id)
            × (id ≢ "")
            × (s : ContinuitySession) × (Dict.get id sessions ≡ some s)
            × (is_terminal s.state ≡ false)) [
              | yes _ ↦ λ e. absurd (ground (arith, e))
              | no n ↦ λ e.
                  let (same, s, kept, t') =
                    active-some t id sessions (Dict.get t sessions) refl e in
                  (
                    ap some same,
                    λ p. n (same ∙ p),
                    s,
                    ap (λ k. Dict.get k sessions) (sym same) ∙ kept,
                    t',
                  )
            ]
      e

found-IsUnderway :
    {W : Type 0} (v : ServiceState W) (work_id id : String)
    → active (nonempty (Dict.get work_id v.work_continuities)) v.machine.sessions ≡ some id
    → IsUnderway v work_id id
found-IsUnderway v work_id id e =
    let (recorded, named, s, kept, t) =
      active-found (Dict.get work_id v.work_continuities) v.machine.sessions id e in
    record {
      recorded = recorded;
      named = named;
      session = s;
      kept = kept;
      unfinished = elim (IsOver-cases s.state) [
        | inl (_, over) ↦ absurd (ground (arith, over, t))
        | inr (unfinished, _) ↦ unfinished
      ];
    }

module _ {W : Type 0} (env : Environment W) (id : String) (request : ContinuityRequest)
    (v : ServiceState W) where
  begin-IsAnswered :
      IsAnswered env (begin env id request v).0 (begin env id request v).1
      × (Dict.get request.work_id (begin env id request v).0.work_continuities ≡ some id)
  unfolding begin
  begin-IsAnswered = (
    Ends-IsAnswered env _ _ (Dict.put request.work_id id v.work_continuities)
        (run_pipeline-Ends env (new_session id request) _ refl),
    get-put_self request.work_id id v.work_continuities,
  )

  -- What became of a request: refused for the attempt under way, with nothing changed, or, with none
  -- under way, answered and recorded.
  abbrev pub IsGuarded : ServiceState W × Answer → Type 0
  IsGuarded (after, answer) =
      ((existing : String) × IsUnderway v request.work_id existing
        × (after ≡ v)
        × (answer ≡ duplicate existing))
      ⊎ (((existing : String) → ¬ IsUnderway v request.work_id existing)
          × IsAnswered env after answer
          × (Dict.get request.work_id after.work_continuities ≡ some id))

  -- If the attempt recorded for the work is kept in a state that is not over, a request for the work
  -- raises DuplicateContinuityError with the id of that attempt and changes nothing. Otherwise it raises
  -- nothing, returns a session that has ended and that the service keeps, and records the new attempt
  -- for the work.
  pub request_continuity-IsGuarded : IsGuarded (request_continuity env id request v)
  unfolding request_continuity guard
  request_continuity-IsGuarded =
      elim (Option-cases
        (active (nonempty (Dict.get request.work_id v.work_continuities)) v.machine.sessions)) [
          | inl e ↦ inr (
            λ existing u. ground (arith, e, active-underway v request.work_id existing u),
            rw e begin-IsAnswered.0,
            rw e begin-IsAnswered.1,
          )
          | inr (existing, e) ↦ inl (
            existing,
            found-IsUnderway v request.work_id existing e,
            ap (λ o. (guard env o id request v).0) e,
            ap (λ o. (guard env o id request v).1) e,
          )
        ]
