-- ===== src/Core/Lifecycle.antt =====
-- src/shyam/core/lifecycle.py and src/shyam/core/state.py.
use shyam.Base.{ℕ, String, Bool, true, false, Option, none, some, if◌then◌else◌}

pub data LifecycleState : Type 0 where
  created initializing running stopping stopped error : LifecycleState

-- `target in VALID_TRANSITIONS[current]`
unfoldable pub is_valid : LifecycleState → LifecycleState → Bool
is_valid created target = elim target [ initializing ↦ true | error ↦ true | _ ↦ false ]
is_valid initializing target = elim target [
  | running ↦ true
  | error ↦ true
  | stopping ↦ true
  | _ ↦ false
]
is_valid running target = elim target [ stopping ↦ true | error ↦ true | _ ↦ false ]
is_valid stopping target = elim target [ stopped ↦ true | error ↦ true | _ ↦ false ]
is_valid stopped target = false
is_valid error target = elim target [ stopped ↦ true | _ ↦ false ]

pub record RuntimeState : Type 0 where
  pub status : LifecycleState
  pub started_at : Option ℕ
  pub stopped_at : Option ℕ
  pub error_detail : Option String

-- The state of a fresh runtime.
abbrev pub fresh : RuntimeState
fresh = record { status = created; started_at = none; stopped_at = none; error_detail = none }

unfoldable pub stamp : LifecycleState → Option String → ℕ → RuntimeState → RuntimeState
stamp running detail now s = record s { status = running; started_at = some now }
stamp stopped detail now s = record s { status = stopped; stopped_at = some now }
stamp error detail now s = record s { status = error; error_detail = detail }
stamp created detail now s = record s { status = created }
stamp initializing detail now s = record s { status = initializing }
stamp stopping detail now s = record s { status = stopping }

-- `none` is `InvalidStateTransitionError`.
unfoldable pub transition_to :
    LifecycleState → Option String → ℕ → RuntimeState → Option RuntimeState
unfolding is_valid stamp
transition_to next detail now s =
    if is_valid s.status next then some (stamp next detail now s) else none
