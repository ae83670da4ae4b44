-- ===== src/Session/Primary.antt =====
-- What the calls of the authority keep.
use Prim.Native.String.{String}
use zephyr_remote_openocd.Shared.{
  ◌+◌, ◌≡◌, refl, Bool, true, false, ◌||◌, Option, none, some, List, [], ◌∷◌, ◌++◌, arith,
  if◌then◌else◌, is_some, ℤ, is_zero, any,
}
use zephyr_remote_openocd.Outcome.{
  CompletionPolicy, Diagnostic, TerminalSnapshot, LogReport, ChildResult, snapshot_failed,
  child_failure_is_primary,
}
use zephyr_remote_openocd.Gate.{
  ForwardSpec, forward_eq, end, fail, cancel as cancel_gate, prepare, enter, observe_forwarded,
  observe_remote_ready,
}
use zephyr_remote_openocd.Session.{
  Fault, Key, Deferred, FailureRecord, SessionAllocation, SessionAuthority, failure, first_error,
  named,
}
use zephyr_remote_openocd.Session.Methods.{
  set_policy, record_created, record_ready, record_log_failure, cancel, begin_control_exit,
  publish_failure, take_unreported_failure, make_fault, project_on, project_result,
  operation_status, enter_gate, admit_work, admit_helper_effect, admit_start_write,
}
use zephyr_remote_openocd.Session.Methods.Recording.{
  commit_failure, record_keyed, record_failure, record_made, record_reader_failure, record_refusals,
  control_ended_failure, finish_control_exit, resolve_effect_failure, resolve_optional_failure,
  record_control_status, record_log_report, failed_outcome, record_outcome, record_terminal,
}
use zephyr_remote_openocd.Session.Calls.{
  Call, reports_ready, step, run, sets_policy, creates, is_ready, fails, fails_as, fails_log,
  projects, terminates, cancels, fails_reader, begins_exit, finishes_exit, exits, publishes,
  takes_unreported, asks_status, resolves, resolves_optional, admits_work, admits_effect,
  admits_write,
}

first_error-append :
    (e : Fault) (rs ss : List FailureRecord)
    → first_error rs ≡ some e
    → first_error (rs ++ ss) ≡ some e
first_error-append e [] ss h = absurd (ground arith)
first_error-append e (r ∷ rs) ss h = ground arith

module _ (e : Fault) (ready : Bool) where
  -- From the first state to the second the primary failure `e` stays, and so do the facts that end
  -- admission; and the gate knows of READY only if it knew before or `ready` allows it.
  abbrev pub Stays : SessionAuthority → SessionAuthority → Type 0
  Stays a b =
      (failure a ≡ some e → failure b ≡ some e)
      × (a.closing ≡ true → b.closing ≡ true)
      × (is_some a.terminal ≡ true → is_some b.terminal ≡ true)
      × (a.control_ended ≡ true → b.control_ended ≡ true)
      × (b.gate.remote_ready ≡ true → (ready || a.gate.remote_ready) ≡ true)

  then-Stays : (a b c : SessionAuthority) → Stays a b → Stays b c → Stays a c
  then-Stays a b c h k = ground arith

  either :
      (test : Bool) (a b c : SessionAuthority)
      → Stays a b
      → Stays a c
      → Stays a (if test then b else c)
  either true a b c h k = h
  either false a b c h k = k

  publish_failure-Stays : (a : SessionAuthority) → Stays a (publish_failure a).1
  unfolding publish_failure failure
  publish_failure-Stays a = ground arith

  set_policy-Stays :
      (policy : CompletionPolicy) (a : SessionAuthority) → Stays a (set_policy policy a)
  unfolding set_policy failure
  set_policy-Stays policy a = ground arith

  record_created-Stays :
      (allocation : SessionAllocation) (a : SessionAuthority)
      → Stays a (record_created allocation a)
  unfolding record_created failure
  record_created-Stays allocation a = ground arith

  record_ready-Stays :
      (address : Option String) (a : SessionAuthority)
      → ready ≡ true
      → Stays a (record_ready address a)
  unfolding record_ready failure observe_remote_ready
  record_ready-Stays address a allowed = ground arith

  record_log_failure-Stays :
      (error : Fault) (a : SessionAuthority) → Stays a (record_log_failure error a)
  unfolding record_log_failure failure
  record_log_failure-Stays error a = ground arith

  cancel-Stays : (a : SessionAuthority) → Stays a (cancel a)
  unfolding cancel cancel_gate failure
  cancel-Stays a = ground arith

  begin_control_exit-Stays : (a : SessionAuthority) → Stays a (begin_control_exit a)
  unfolding begin_control_exit failure
  begin_control_exit-Stays a = ground arith

  take_unreported_failure-Stays : (a : SessionAuthority) → Stays a (take_unreported_failure a).1
  unfolding take_unreported_failure publish_failure failure
  take_unreported_failure-Stays a = ground arith

  project_result-Stays : (a : SessionAuthority) → Stays a (project_result a).1
  unfolding project_result project_on publish_failure failure
  project_result-Stays a = ground arith

  operation_status-Stays : (a : SessionAuthority) → Stays a (operation_status a).1
  unfolding operation_status publish_failure failure
  operation_status-Stays a = ground arith

  enter_gate-Stays :
      (required forwarded : List ForwardSpec) (final : Option Fault) (a : SessionAuthority)
      → Stays a (enter_gate required forwarded final a).1
  unfolding enter_gate failure prepare enter observe_forwarded
  enter_gate-Stays required forwarded final a = ground arith

  admit_work-Stays :
      (required forwarded : List ForwardSpec) (final : Option Fault) (a : SessionAuthority)
      → Stays a (admit_work required forwarded final a).1
  unfolding admit_work enter_gate publish_failure failure prepare enter observe_forwarded
  admit_work-Stays required forwarded final a = ground arith

  admit_helper_effect-Stays :
      (effect : String) (final : Option Fault) (a : SessionAuthority)
      → Stays a (admit_helper_effect effect final a).1
  unfolding admit_helper_effect publish_failure failure
  admit_helper_effect-Stays effect final a = ground arith

  admit_start_write-Stays : (a : SessionAuthority) → Stays a (admit_start_write a).1
  unfolding admit_start_write publish_failure failure
  admit_start_write-Stays a = ground arith

  module _ (from_exception : String → Fault → Diagnostic) where
    record_keyed-Stays :
        (code : String) (error : Fault) (key : Key) (a : SessionAuthority)
        → Stays a (record_keyed from_exception code error key a)
    unfolding record_keyed commit_failure failure fail cancel_gate
    record_keyed-Stays code error key a = ground (arith, first_error-append e a.failures)

    record_failure-Stays :
        (code : String) (error : Fault) (a : SessionAuthority)
        → Stays a (record_failure from_exception code error a)
    unfolding record_failure
    record_failure-Stays code error a = record_keyed-Stays code error _ a

    record_made-Stays :
        (code text : String) (own_notes : List String) (key : Key) (a : SessionAuthority)
        → Stays a (record_made from_exception code text own_notes key a)
    unfolding record_made make_fault failure
    record_made-Stays code text own_notes key a =
        record_keyed-Stays code _ key (record a { made_count = a.made_count + 1 })

    record_reader_failure-Stays :
        (error : Fault) (a : SessionAuthority)
        → Stays a (record_reader_failure from_exception error a)
    unfolding record_reader_failure
    record_reader_failure-Stays error a = record_made-Stays "READER_FAILURE" _ [] _ a

    pub record_refusals-Stays :
        (ds : List Deferred) (a : SessionAuthority) → Stays a (record_refusals from_exception ds a)
    unfolding record_refusals
    record_refusals-Stays [] a = ground arith
    record_refusals-Stays (d ∷ ds) a =
        then-Stays a _ _ (record_keyed-Stays d.code d.error d.key a) (record_refusals-Stays ds _)

    control_ended_failure-Stays :
        (a : SessionAuthority) → Stays a (control_ended_failure from_exception a)
    unfolding control_ended_failure
    control_ended_failure-Stays a =
        either (is_some a.terminal) a a _ (ground arith)
          (record_made-Stays "CONTROL_ENDED" _ [] (named "control_ended") a)

    pub finish_control_exit-Stays :
        (a : SessionAuthority) → Stays a (finish_control_exit from_exception a)
    unfolding finish_control_exit failure
    finish_control_exit-Stays a =
        let b = control_ended_failure from_exception a in
        let c = record b { control_observation_pending = false; deferred_refusals = [] } in
        let d = record_refusals from_exception b.deferred_refusals c in
        then-Stays a b d (control_ended_failure-Stays a)
          (then-Stays b c d (ground arith) (record_refusals-Stays b.deferred_refusals c))

    resolve_effect_failure-Stays :
        (error : Fault) (a : SessionAuthority)
        → Stays a (resolve_effect_failure from_exception error a).1
    unfolding resolve_effect_failure
    resolve_effect_failure-Stays error a =
        let b = record_failure from_exception "OPERATION_FAILURE" error a in
        ground (
          arith,
          then-Stays a b _ (record_failure-Stays "OPERATION_FAILURE" error a)
              (publish_failure-Stays b),
        )

    resolve_optional_failure-Stays :
        (error : Fault) (a : SessionAuthority)
        → Stays a (resolve_optional_failure from_exception error a).1
    unfolding resolve_optional_failure
    resolve_optional_failure-Stays error a = ground (arith, resolve_effect_failure-Stays error a)

    module _ (decimal : ℤ → String) where
      record_control_status-Stays :
          (status : Option ℤ) (a : SessionAuthority)
          → Stays a (record_control_status from_exception decimal status a)
      unfolding record_control_status
      record_control_status-Stays none a = ground arith
      record_control_status-Stays (some s) a =
          either (is_zero s) a a _ (ground arith)
            (record_made-Stays "CONTROL_PROCESS_FAILURE" _ [] (named "control_status") a)

      record_log_report-Stays :
          (log : Option LogReport) (a : SessionAuthority)
          → Stays a (record_log_report from_exception decimal log a)
      unfolding record_log_report make_fault record_log_failure failure
      record_log_report-Stays log a = ground arith

      failed_outcome-Stays :
          (t : TerminalSnapshot) (a : SessionAuthority)
          → Stays a (failed_outcome from_exception decimal t a)
      unfolding failed_outcome
      failed_outcome-Stays t a =
          either (snapshot_failed t a.policy) a _ a
            (record_made-Stays "TERMINAL_FAILURE" _ _ (named "terminal") a) (ground arith)

      record_outcome-Stays :
          (result : Option ChildResult) (t : TerminalSnapshot) (a : SessionAuthority)
          → Stays a (record_outcome from_exception decimal result t a)
      unfolding record_outcome
      record_outcome-Stays none t a = failed_outcome-Stays t a
      record_outcome-Stays (some r) t a =
          either (child_failure_is_primary t.outcome) a _ _
            (record_made-Stays "TERMINAL_FAILURE" _ _ (named "terminal") a)
            (failed_outcome-Stays t a)

      record_terminal-Stays :
          (t : TerminalSnapshot) (a : SessionAuthority)
          → Stays a (record_terminal from_exception decimal t a)
      unfolding record_terminal failure end
      record_terminal-Stays t a =
          let b = record a { terminal = some t } in
          let c = record_log_report from_exception decimal t.log b in
          let d = record_outcome from_exception decimal t.outcome.child_result t c in
          let last = record d { gate = end d.gate } in
          then-Stays a b last (ground arith) (
            then-Stays b c last (record_log_report-Stays t.log b) (
              then-Stays c d last (record_outcome-Stays t.outcome.child_result t c) (ground arith)))

      step-Stays :
          (c : Call) (a : SessionAuthority)
          → (reports_ready c ≡ true → ready ≡ true)
          → Stays a (step from_exception decimal c a)
      unfolding step
      step-Stays (sets_policy policy) a h = set_policy-Stays policy a
      step-Stays (creates allocation) a h = record_created-Stays allocation a
      step-Stays (is_ready address) a h = record_ready-Stays address a (h refl)
      step-Stays (fails code error) a h = record_failure-Stays code error a
      step-Stays (fails_as code error key) a h = record_keyed-Stays code error key a
      step-Stays (fails_log error) a h = record_log_failure-Stays error a
      step-Stays projects a h = project_result-Stays a
      step-Stays (terminates t) a h = record_terminal-Stays t a
      step-Stays cancels a h = cancel-Stays a
      step-Stays (fails_reader error) a h = record_reader_failure-Stays error a
      step-Stays begins_exit a h = begin_control_exit-Stays a
      step-Stays finishes_exit a h = finish_control_exit-Stays a
      step-Stays (exits status) a h = record_control_status-Stays status a
      step-Stays publishes a h = publish_failure-Stays a
      step-Stays takes_unreported a h = take_unreported_failure-Stays a
      step-Stays asks_status a h = operation_status-Stays a
      step-Stays (resolves error) a h = resolve_effect_failure-Stays error a
      step-Stays (resolves_optional error) a h = resolve_optional_failure-Stays error a
      step-Stays (admits_work required forwarded final) a h =
          admit_work-Stays required forwarded final a
      step-Stays (admits_effect effect final) a h = admit_helper_effect-Stays effect final a
      step-Stays admits_write a h = admit_start_write-Stays a

      pub run-Stays :
          (cs : List Call) (a : SessionAuthority)
          → (any cs reports_ready ≡ true → ready ≡ true)
          → Stays a (run from_exception decimal cs a)
      unfolding run
      run-Stays [] a h = ground arith
      run-Stays (c ∷ cs) a h =
          let b = step from_exception decimal c a in
          then-Stays a b (run from_exception decimal cs b) (step-Stays c a (λ k. h (ground arith)))
            (run-Stays cs b (λ k. h (ground arith)))

module _ (from_exception : String → Fault → Diagnostic) (decimal : ℤ → String) where
  -- Whatever is called, in whatever order, the first failure that was recorded stays the primary one.
  pub primary_stays :
      (cs : List Call) (a : SessionAuthority) (e : Fault)
      → failure a ≡ some e
      → failure (run from_exception decimal cs a) ≡ some e
  primary_stays cs a e h = (run-Stays e true from_exception decimal cs a (λ k. refl)).0 h
