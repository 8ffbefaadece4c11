-- ===== src/Continuity/State.antt =====
-- src/shyam/continuity/state.py.
use shyam.Base.{Bool, true, false, List, [], ◌∷◌, ite, any}

pub data ContinuityState : Type 0 where
  requested validating target_selected authorized preparing transferring reconstructing continuing
        verifying completed failed cancelled unsupported unknown :
      ContinuityState

unfoldable pub continuity_state_discrete : Discrete ContinuityState
continuity_state_discrete = hlevel

-- `TERMINAL_STATES`
abbrev terminal_states : List ContinuityState
terminal_states = completed ∷ failed ∷ cancelled ∷ unsupported ∷ unknown ∷ []

-- `_VALID_TRANSITIONS`
unfoldable pub valid_transitions : ContinuityState → List ContinuityState
valid_transitions requested = validating ∷ failed ∷ cancelled ∷ unsupported ∷ []
valid_transitions validating = target_selected ∷ failed ∷ cancelled ∷ unsupported ∷ []
valid_transitions target_selected = authorized ∷ failed ∷ cancelled ∷ []
valid_transitions authorized = preparing ∷ failed ∷ cancelled ∷ []
valid_transitions preparing = transferring ∷ failed ∷ cancelled ∷ []
valid_transitions transferring = reconstructing ∷ failed ∷ cancelled ∷ []
valid_transitions reconstructing = continuing ∷ failed ∷ cancelled ∷ []
valid_transitions continuing = verifying ∷ failed ∷ cancelled ∷ []
valid_transitions verifying = completed ∷ failed ∷ unknown ∷ []
valid_transitions completed = []
valid_transitions failed = []
valid_transitions cancelled = []
valid_transitions unsupported = []
valid_transitions unknown = []

abbrev holds_state : ContinuityState → List ContinuityState → Bool
holds_state s states = any (λ x. ite (continuity_state_discrete x s) true false) states

unfoldable pub is_valid_transition : ContinuityState → ContinuityState → Bool
unfolding valid_transitions continuity_state_discrete
is_valid_transition current target = holds_state target (valid_transitions current)

unfoldable pub is_terminal : ContinuityState → Bool
unfolding continuity_state_discrete
is_terminal state = holds_state state terminal_states
