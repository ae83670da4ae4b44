-- ===== src/Lifecycle/Tests.antt =====
-- Concrete sequences of calls on the authority.
use zephyr_remote_openocd.Shared.{
  ◌≡◌, refl, true, none, some, List, [], ◌∷◌, ◌++◌, ok, ℤ, any, subset, if◌then◌else◌, string_eq,
}
use zephyr_remote_openocd.Outcome.{
  make_outcome, with_child_result, is_live_server, live_server, controller_eof, helper_failure,
  Diagnostic, diagnostic, Details, ChildResult, ChildDisposal, WorkspaceDisposal, TerminalSnapshot,
}
use zephyr_remote_openocd.Lifecycle.{
  StartupRequest, fresh, LifecyclePhase, created, active, closed, settled, current_attempt,
  attempt_result,
}
use zephyr_remote_openocd.Lifecycle.Authority
use zephyr_remote_openocd.Lifecycle.Steps.{Operation, step, run}
use zephyr_remote_openocd.Lifecycle.Invariant.{Inv, run-Inv}
use zephyr_remote_openocd.Lifecycle.Progress.{
  HasResult, run-HasResult, run-closed, observe_child_exit_lem, awaits_exit, exit_result,
}
use zephyr_remote_openocd.Lifecycle.Readiness.{
  reported, active_needs_evidence, is_signal, requested_exit_needs_signal,
}

abbrev server : StartupRequest
server = record { completion_policy = live_server; readiness_evidence = "gdb" ∷ "tcl" ∷ [] }

-- A server comes up.
abbrev opening : List Operation
opening =
    Operation.start server
    ∷ Operation.enter_attempt true
    ∷ Operation.adopt_attempt
    ∷ Operation.observe_evidence "tcl"
    ∷ Operation.observe_evidence "gdb"
    ∷ Operation.ready true true
    ∷ []

-- It is signalled by the cleanup and exits.
abbrev ending : List Operation
ending =
    Operation.terminate controller_eof none
    ∷ Operation.record_child_termination
    ∷ Operation.observe_child_exit (ℤ.negsuc 14)
    ∷ []

abbrev exited : ChildResult
exited = record { returncode = ℤ.negsuc 14; termination_requested = true }

opened : run created opening ≡ active server fresh
unfolding run step Authority.start Authority.enter_attempt Authority.adopt_attempt
    Authority.observe_evidence Authority.ready
opened = refl

stopped : HasResult (run created (opening ++ ending)) exited
unfolding run step Authority.start Authority.enter_attempt Authority.adopt_attempt
    Authority.observe_evidence Authority.ready Authority.terminate
    Authority.record_child_termination Authority.observe_child_exit current_attempt attempt_result
    make_outcome with_child_result
stopped = refl

run-Inv_example : Inv (run created (opening ++ ending))
run-Inv_example = run-Inv (opening ++ ending)

active_needs_evidence_example : subset server.readiness_evidence (reported [] opening) ≡ true
unfolding is_live_server
active_needs_evidence_example = active_needs_evidence opening server fresh opened refl

requested_exit_needs_signal_example : any (opening ++ ending) is_signal ≡ true
requested_exit_needs_signal_example =
    requested_exit_needs_signal (opening ++ ending) exited stopped refl

run-HasResult_example :
    HasResult
      (run (run created (opening ++ ending)) (Operation.observe_child_exit (ℤ.pos 0) ∷ []))
      exited
run-HasResult_example =
    run-HasResult (run created (opening ++ ending)) (Operation.observe_child_exit (ℤ.pos 0) ∷ [])
      exited stopped

abbrev serving : LifecyclePhase
serving = active server fresh

observe_child_exit_lem_example :
    (Authority.observe_child_exit (ℤ.pos 7) serving).0 ≡ ok (awaits_exit serving)
    × (attempt_result (current_attempt (Authority.observe_child_exit (ℤ.pos 7) serving).1) ≡ (
        if awaits_exit serving
        then some (exit_result (ℤ.pos 7) serving)
        else attempt_result (current_attempt serving)))
observe_child_exit_lem_example = observe_child_exit_lem (ℤ.pos 7) serving refl

abbrev frozen : TerminalSnapshot
frozen = record {
  outcome = record {
    trigger = controller_eof;
    primary_failure = none;
    diagnostics = [];
    child_result = some exited;
  };
  cleanup = record {
    child_disposal = ChildDisposal.confirmed;
    workspace_disposal = WorkspaceDisposal.confirmed;
    residual_resources = [];
  };
  log = none;
}

abbrev late : List Operation
late =
    Operation.terminate helper_failure (some (diagnostic "OUTPUT" "late" Details.nil))
    ∷ Operation.start server
    ∷ []

run-closed_example :
    (l : List Diagnostic) × (run (closed (some (settled (some exited))) frozen []) late
      ≡ closed (some (settled (some exited))) frozen ([] ++ l))
run-closed_example = run-closed (some (settled (some exited))) frozen [] late
