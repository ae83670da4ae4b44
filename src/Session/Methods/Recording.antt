-- ===== src/Session/Methods/Recording.antt =====
-- The methods of `SessionAuthority` that record a failure.
use Prim.Native.String.{String}
use zephyr_remote_openocd.Shared.{
  false, ◌&&◌, ◌||◌, Option, none, some, List, [], ◌∷◌, ◌++◌, if◌then◌else◌, is_some, is_none, ℤ,
  is_zero,
}
use zephyr_remote_openocd.Outcome.{
  Diagnostic, Outcome, ChildResult, child_failure_is_primary, TerminalSnapshot, LogReport,
  snapshot_failed,
}
use zephyr_remote_openocd.Gate.{fail, end}
use zephyr_remote_openocd.Session.{
  Fault, Key, of_error, named, Deferred, SessionAuthority, ◌&◌, render_diagnostic, joined, rendered,
  failure, has_key, has_error, is_deferred, noted,
}
use zephyr_remote_openocd.Session.Methods.{record_log_failure, publish_failure, make_fault}

module _ (from_exception : String → Fault → Diagnostic) where
  -- The part of `record_failure` that records
  unfoldable pub commit_failure : String → Fault → Key → SessionAuthority → SessionAuthority
  commit_failure code error key a =
      let detail = from_exception code error in
      record a {
        failures = a.failures ++ (record { key = key; error = error; detail = detail } ∷ []);
        notes = noted (failure a) error a.notes;
        error_reported = false;
        gate = fail detail a.gate;
      }

  -- `record_failure` with a key
  unfoldable pub record_keyed : String → Fault → Key → SessionAuthority → SessionAuthority
  record_keyed code error key a =
      if has_key key a.failures || has_error error.identity a.failures
      then a
      else if a.control_observation_pending && error.ending
      then if is_deferred error.identity a.deferred_refusals then a else record a {
        deferred_refusals =
            a.deferred_refusals ++ (record { code = code; error = error; key = key } ∷ []);
      }
      else commit_failure code error key a

  -- `record_failure` without a key
  unfoldable pub record_failure : String → Fault → SessionAuthority → SessionAuthority
  record_failure code error a = record_keyed code error (of_error code error.identity) a

  -- `record_failure` of a new exception
  unfoldable pub record_made :
      String → String → List String → Key → SessionAuthority → SessionAuthority
  record_made code text own_notes key a =
      let (error, b) = make_fault text own_notes a in record_keyed code error key b

  unfoldable pub record_reader_failure : Fault → SessionAuthority → SessionAuthority
  record_reader_failure error a =
      record_made "READER_FAILURE"
        ("helper event stream failed: " & render_diagnostic (from_exception "READER_FAILURE" error))
        [] (named "reader") a

  -- The loop over the deferred refusals
  unfoldable pub record_refusals : List Deferred → SessionAuthority → SessionAuthority
  record_refusals [] a = a
  record_refusals (d ∷ ds) a = record_refusals ds (record_keyed d.code d.error d.key a)

  unfoldable pub control_ended_failure : SessionAuthority → SessionAuthority
  control_ended_failure a =
      if is_some a.terminal
      then a
      else record_made "CONTROL_ENDED" "remote helper control transport ended without SESSION_ENDED"
          [] (named "control_ended") a

  unfoldable pub finish_control_exit : SessionAuthority → SessionAuthority
  finish_control_exit a =
      let b = control_ended_failure a in
      record_refusals b.deferred_refusals
        (record b { control_observation_pending = false; deferred_refusals = [] })

  unfoldable pub resolve_effect_failure : Fault → SessionAuthority → Fault × SessionAuthority
  resolve_effect_failure error a =
      let (selected, b) = publish_failure (record_failure "OPERATION_FAILURE" error a) in
      elim selected [ none ↦ (error, b) | some primary ↦ (primary, b) ]

  unfoldable pub resolve_optional_failure :
      Fault → SessionAuthority → Option Fault × SessionAuthority
  resolve_optional_failure error a =
      if is_none (failure a)
      then (none, a)
      else let (primary, b) = resolve_effect_failure error a in (some primary, b)

  module _ (decimal : ℤ → String) where
    unfoldable pub record_control_status : Option ℤ → SessionAuthority → SessionAuthority
    record_control_status none a = a
    record_control_status (some status) a =
        if is_zero status
        then a
        else record_made "CONTROL_PROCESS_FAILURE"
            ("remote helper/SSH exited with status " & decimal status) [] (named "control_status") a

    -- The log part of `record_terminal`
    unfoldable pub record_log_report : Option LogReport → SessionAuthority → SessionAuthority
    record_log_report none a = a
    record_log_report (some r) a = elim r.diagnostic [
      | none ↦ a
      | some d ↦
          let (error, b) =
            make_fault ("OpenOCD log relay is incomplete: " & render_diagnostic d) [] a in
          record_log_failure error b
    ]

    abbrev also_failed : List Diagnostic → List String
    also_failed [] = []
    also_failed (d ∷ ds) = ("remote session also failed: " & render_diagnostic d) ∷ also_failed ds

    -- `details`
    abbrev details_of : Outcome → List String
    details_of o = elim o.primary_failure [
      | none ↦ rendered o.diagnostics
      | some d ↦ rendered (d ∷ o.diagnostics)
    ]

    abbrev exit_text : ChildResult → String
    exit_text r = "remote OpenOCD failed with exit status " & decimal r.returncode

    abbrev outcome_text : List String → Option ChildResult → String
    outcome_text [] none = "remote session ended without an operation result"
    outcome_text [] (some r) = exit_text r
    outcome_text (d ∷ ds) result = joined (d ∷ ds)

    abbrev exit_notes : List String → Option ChildResult → List String
    exit_notes (d ∷ ds) (some r) =
        ("remote OpenOCD also exited with status " & decimal r.returncode) ∷ []
    exit_notes _ _ = []

    unfoldable pub failed_outcome : TerminalSnapshot → SessionAuthority → SessionAuthority
    failed_outcome t a =
        if snapshot_failed t a.policy
        then record_made "TERMINAL_FAILURE"
            (outcome_text (details_of t.outcome) t.outcome.child_result)
            (exit_notes (details_of t.outcome) t.outcome.child_result) (named "terminal") a
        else a

    -- The failure of a terminal snapshot with this child result
    unfoldable pub record_outcome :
        Option ChildResult → TerminalSnapshot → SessionAuthority → SessionAuthority
    record_outcome none t a = failed_outcome t a
    record_outcome (some r) t a =
        if child_failure_is_primary t.outcome
        then record_made "TERMINAL_FAILURE" (exit_text r) (also_failed t.outcome.diagnostics)
            (named "terminal") a
        else failed_outcome t a

    unfoldable pub record_terminal : TerminalSnapshot → SessionAuthority → SessionAuthority
    record_terminal t a =
        let b =
          record_outcome t.outcome.child_result t
            (record_log_report t.log (record a { terminal = some t })) in
        record b { gate = end b.gate }
