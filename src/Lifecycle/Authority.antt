-- ===== src/Lifecycle/Authority.antt =====
-- The methods of `LifecycleAuthority`, each an action on the phase. A method that raises keeps the
-- phase that it had written by then.
use zephyr_remote_openocd.Shared.{
  String, Bool, true, false, not, ◌&&◌, Option, none, some, List, [], ◌∷◌, ◌++◌, if◌then◌else◌,
  is_none, is_some, string_eq, member, subset, insert, ℤ, ok, raised, Exec, pure, raise, lift,
  ◌>>=◌, ◌>>◌, lifecycle_error,
}
use zephyr_remote_openocd.Outcome.{
  is_live_server, Trigger, output_failure, child_exit, Diagnostic, diagnostic, Details, ChildResult,
  Outcome, make_outcome, with_failure, with_child_result, child_unconfirmed, CleanupReport,
  LogReport, TerminalSnapshot, make_snapshot,
}
use zephyr_remote_openocd.Lifecycle.{
  StartupRequest, Running, fresh, Attempt, authorized, producing, owned, settled, LifecyclePhase,
  created, starting, active, terminating, closed, current_attempt, attempt_result,
}

unfoldable pub start : StartupRequest → Exec LifecyclePhase (Unit {0})
start request created = (ok tt, starting request authorized [])
start request s = (raised (lifecycle_error "START is valid only in Created"), s)

unfoldable pub replace_attempt : Attempt → Exec LifecyclePhase (Unit {0})
replace_attempt a (starting request attempt evidence) = (ok tt, starting request a evidence)
replace_attempt a (terminating attempt outcome) = (ok tt, terminating (some a) outcome)
replace_attempt (owned a) (active request attempt) = (ok tt, active request a)
replace_attempt a s = (raised (lifecycle_error "attempt update is incompatible with the phase"), s)

-- What `terminate` does once its `Outcome` is constructed.
terminate_with : Outcome → Option Diagnostic → Exec LifecyclePhase (Unit {0})
terminate_with outcome none (closed attempt snapshot local) = (ok tt, closed attempt snapshot local)
terminate_with outcome (some f) (closed attempt snapshot local) =
    (ok tt, closed attempt snapshot (local ++ (f ∷ [])))
terminate_with outcome none (terminating attempt old) = (ok tt, terminating attempt old)
terminate_with outcome (some f) (terminating attempt old) =
    (do new ← lift (with_failure old f); λ _. (ok tt, terminating attempt new))
      (terminating attempt old)
terminate_with outcome failure s = (ok tt, terminating (current_attempt s) outcome)

unfoldable pub terminate : Trigger → Option Diagnostic → Exec LifecyclePhase (Unit {0})
unfolding current_attempt attempt_result terminate_with
terminate trigger failure s =
    (do
      outcome ← lift (make_outcome trigger failure [] (attempt_result (current_attempt s)))
      terminate_with outcome failure)
      s

unfoldable pub enter_attempt : Bool → Exec LifecyclePhase Bool
unfolding terminate replace_attempt
enter_attempt admitted (starting request authorized evidence) =
    (if admitted then (do replace_attempt (producing fresh); pure true) else (do
      terminate output_failure
          (some (diagnostic "ATTEMPT_ADMISSION" "admission failed" Details.nil))
      pure false))
      (starting request authorized evidence)
enter_attempt admitted s = (ok false, s)

-- The end of `adopt_attempt` in `Starting`, after the attempt is replaced.
activate_one_shot : StartupRequest → Running → Exec LifecyclePhase Bool
unfolding terminate is_live_server
activate_one_shot request a =
    if is_live_server request.completion_policy
    then pure true
    else if is_none a.child_result
    then (λ _. (ok true, active request a))
    else (do terminate child_exit none; pure true)

unfoldable pub adopt_attempt : Exec LifecyclePhase Bool
unfolding replace_attempt activate_one_shot
adopt_attempt (starting request (producing a) evidence) =
    (do replace_attempt (owned a); activate_one_shot request a)
      (starting request (producing a) evidence)
adopt_attempt (terminating (some (producing a)) outcome) =
    (do replace_attempt (owned a); pure true) (terminating (some (producing a)) outcome)
adopt_attempt s = (ok false, s)

unfoldable pub observe_evidence : String → Exec LifecyclePhase Bool
unfolding is_live_server
observe_evidence name (starting request (owned a) evidence) =
    if is_live_server request.completion_policy
      && (is_none a.child_result && member name request.readiness_evidence)
    then (ok true, starting request (owned a) (insert name evidence))
    else (ok false, starting request (owned a) evidence)
observe_evidence name s = (ok false, s)

-- The conjunction that `ready` tests on the request, the attempt and the evidence.
unfoldable pub ready_eligible : StartupRequest → Running → List String → Bool
unfolding is_live_server
ready_eligible request a evidence =
    is_live_server request.completion_policy
    && (is_none a.child_result && subset request.readiness_evidence evidence)

unfoldable pub ready : Bool → Bool → Exec LifecyclePhase Bool
unfolding terminate ready_eligible
ready child_live admitted (starting request (owned a) evidence) =
    (if ready_eligible request a evidence && child_live
        then if admitted then (λ _. (ok true, active request a)) else (do
          terminate output_failure
              (some (diagnostic "READY_ADMISSION" "admission failed" Details.nil))
          pure false)
        else pure false)
      (starting request (owned a) evidence)
ready child_live admitted s = (ok false, s)

-- The end of `observe_child_exit`, after the attempt has its result.
after_exit : ChildResult → Exec LifecyclePhase Bool
unfolding terminate
after_exit result (terminating attempt outcome) =
    (do new ← lift (with_child_result outcome result); λ _. (ok true, terminating attempt new))
      (terminating attempt outcome)
after_exit result (active request attempt) =
    (do terminate child_exit none; pure true) (active request attempt)
after_exit result s = (ok true, s)

-- `replace(attempt, child_result=result)` keeps the attempt's class, `rebuild` here.
exit_of : (Running → Attempt) → Running → ℤ → Exec LifecyclePhase Bool
unfolding replace_attempt after_exit
exit_of rebuild a returncode = if is_some a.child_result then pure false else (do
  let result : ChildResult = record {
    returncode = returncode;
    termination_requested = a.termination_requested;
  }
  replace_attempt (rebuild (record a { child_result = some result }))
  after_exit result)

exit_of_attempt : Option Attempt → ℤ → Exec LifecyclePhase Bool
unfolding exit_of
exit_of_attempt (some (producing a)) returncode = exit_of producing a returncode
exit_of_attempt (some (owned a)) returncode = exit_of owned a returncode
exit_of_attempt _ returncode = pure false

unfoldable pub observe_child_exit : ℤ → Exec LifecyclePhase Bool
unfolding exit_of_attempt current_attempt
observe_child_exit returncode (closed attempt snapshot local) =
    (ok false, closed attempt snapshot local)
observe_child_exit returncode s = exit_of_attempt (current_attempt s) returncode s

unfoldable pub record_child_termination : Exec LifecyclePhase Bool
unfolding replace_attempt
record_child_termination (terminating (some (producing a)) outcome) =
    (if is_some a.child_result then pure false else (do
      replace_attempt (producing (record a { termination_requested = true }))
      pure true))
      (terminating (some (producing a)) outcome)
record_child_termination (terminating (some (owned a)) outcome) =
    (if is_some a.child_result
        then pure false
        else (do replace_attempt (owned (record a { termination_requested = true })); pure true))
      (terminating (some (owned a)) outcome)
record_child_termination s = (ok false, s)

unfoldable pub settle_attempt : Bool → Bool → Exec LifecyclePhase Bool
unfolding replace_attempt attempt_result
settle_attempt producer_quiescent resources_disposed (starting request attempt evidence) =
    (if producer_quiescent && resources_disposed
        then (do replace_attempt (settled (attempt_result (some attempt))); pure true)
        else pure false)
      (starting request attempt evidence)
settle_attempt producer_quiescent resources_disposed (terminating (some attempt) outcome) =
    (if producer_quiescent && resources_disposed
        then (do replace_attempt (settled (attempt_result (some attempt))); pure true)
        else pure false)
      (terminating (some attempt) outcome)
settle_attempt producer_quiescent resources_disposed s = (ok false, s)

-- `isinstance(attempt, (ProducingAttempt, OwnedAttempt))`
unfoldable pub is_unsettled : Option Attempt → Bool
is_unsettled (some (producing a)) = true
is_unsettled (some (owned a)) = true
is_unsettled _ = false

unfoldable pub freeze : CleanupReport → Option LogReport → Exec LifecyclePhase TerminalSnapshot
unfolding is_unsettled
freeze cleanup log (closed attempt snapshot local) = (ok snapshot, closed attempt snapshot local)
freeze cleanup log (terminating attempt outcome) =
    (if is_unsettled attempt && not (child_unconfirmed cleanup.child_disposal)
        then raise (lifecycle_error "unsettled attempt cannot claim confirmed disposal")
        else (do
          snapshot ← lift (make_snapshot outcome cleanup log)
          λ _. (ok snapshot, closed attempt snapshot [])))
      (terminating attempt outcome)
freeze cleanup log s = (raised (lifecycle_error "terminal snapshot requires termination"), s)
