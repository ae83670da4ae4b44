-- ===== src/Outcome/Tests.antt =====
-- Outcomes of concrete sessions.
use zephyr_remote_openocd.Shared.{arith, ◌≡◌, refl, true, false, none, some, [], ◌∷◌, ok, ℤ}
use zephyr_remote_openocd.Outcome.{
  child_exit, Diagnostic, diagnostic, Details, Outcome, ChildDisposal, WorkspaceDisposal,
  child_group, workspace, CleanupReport, make_cleanup, child_failure_is_primary, TerminalSnapshot,
  natural_failure, needs_failure, residual_eq,
}
use zephyr_remote_openocd.Outcome.Failures.{
  IsValid, with_failures, is_established, with_failures-fresh,
}

abbrev lost_link : Diagnostic
lost_link = diagnostic "HELPER" "link lost" Details.nil

abbrev late : Diagnostic
late = diagnostic "CLEANUP" "late" Details.nil

-- The child exited by itself with status 0, and with status 3.
abbrev clean : Outcome
clean = record {
  trigger = child_exit;
  primary_failure = none;
  diagnostics = [];
  child_result = some (record { returncode = ℤ.pos 0; termination_requested = false });
}

abbrev broken : Outcome
broken = record clean {
  child_result = some (record { returncode = ℤ.pos 3; termination_requested = false });
}

clean-IsValid : IsValid clean
unfolding needs_failure
clean-IsValid = record { failure_given = λ e. ground arith; result_given = λ e. refl }

broken-IsValid : IsValid broken
unfolding needs_failure
broken-IsValid = record { failure_given = λ e. ground arith; result_given = λ e. refl }

clean_open : is_established clean ≡ false
unfolding child_failure_is_primary natural_failure
clean_open = refl

broken_established : is_established broken ≡ true
unfolding child_failure_is_primary natural_failure
broken_established = refl

with_failures-fresh_example :
    with_failures clean (lost_link ∷ late ∷ [])
    ≡ ok (record clean { primary_failure = some lost_link; diagnostics = late ∷ [] })
with_failures-fresh_example =
    with_failures-fresh clean lost_link (late ∷ []) clean-IsValid clean_open

abbrev abandoned : CleanupReport
abandoned = record {
  child_disposal = ChildDisposal.unconfirmed;
  workspace_disposal = WorkspaceDisposal.unconfirmed;
  residual_resources = child_group ∷ workspace ∷ [];
}

abandoned_made :
    make_cleanup ChildDisposal.unconfirmed WorkspaceDisposal.unconfirmed
      (child_group ∷ workspace ∷ [])
    ≡ ok abandoned
unfolding make_cleanup
abandoned_made = refl

abbrev finished : TerminalSnapshot
finished = record {
  outcome = clean;
  cleanup = record {
    child_disposal = ChildDisposal.confirmed;
    workspace_disposal = WorkspaceDisposal.confirmed;
    residual_resources = [];
  };
  log = none;
}
