-- ===== src/Lifecycle/Phase.antt =====
-- The immutable phase data of helper/lifecycle.py.
use zephyr_remote_openocd.Shared.{String, Bool, false, Option, none, some, List}
use zephyr_remote_openocd.Outcome.{
  CompletionPolicy, Diagnostic, ChildResult, Outcome, TerminalSnapshot,
}

-- The read-only startup policy of a validated request.
pub record StartupRequest : Type 0 where
  pub completion_policy : CompletionPolicy
  pub readiness_evidence : List String

-- The fields that `ProducingAttempt` and `OwnedAttempt` have in common.
pub record Running : Type 0 where
  pub termination_requested : Bool
  pub child_result : Option ChildResult

-- The fields' defaults.
abbrev pub fresh : Running
fresh = record { termination_requested = false; child_result = none }

pub data Attempt : Type 0 where
  authorized : Attempt
  producing : Running → Attempt
  owned : Running → Attempt
  settled : Option ChildResult → Attempt

-- The frozen set `evidence` is a list that `insert` keeps free of repetitions.
pub data LifecyclePhase : Type 0 where
  created : LifecyclePhase
  starting : StartupRequest → Attempt → List String → LifecyclePhase
  active : StartupRequest → Running → LifecyclePhase
  terminating : Option Attempt → Outcome → LifecyclePhase
  closed : Option Attempt → TerminalSnapshot → List Diagnostic → LifecyclePhase

-- `_current_attempt`
unfoldable pub current_attempt : LifecyclePhase → Option Attempt
current_attempt created = none
current_attempt (starting request attempt evidence) = some attempt
current_attempt (active request attempt) = some (owned attempt)
current_attempt (terminating attempt outcome) = attempt
current_attempt (closed attempt snapshot local) = attempt

-- `attempt.child_result`, `None` where there is no attempt or it is only authorized.
unfoldable pub attempt_result : Option Attempt → Option ChildResult
attempt_result none = none
attempt_result (some authorized) = none
attempt_result (some (producing a)) = a.child_result
attempt_result (some (owned a)) = a.child_result
attempt_result (some (settled r)) = r
