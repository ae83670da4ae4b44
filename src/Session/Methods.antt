-- ===== src/Session/Methods.antt =====
-- The methods of `SessionAuthority`. The lock, which every method holds, and the call of `notify` behind
-- a change are left out.
pub mod Recording
use Prim.Native.String.{String}
use zephyr_remote_openocd.Shared.{
  ℕ, ◌+◌, Bool, true, false, ◌&&◌, ◌||◌, Option, none, some, List, [], ◌∷◌, ◌++◌, if◌then◌else◌,
  is_some, is_none, ℤ, is_zero, leb, drop, length, ok, raised,
}
use zephyr_remote_openocd.Outcome.{
  CompletionPolicy, Diagnostic, Outcome, ChildResult, child_failure_is_primary, TerminalSnapshot,
  LogReport, snapshot_failed,
}
use zephyr_remote_openocd.Gate.{
  ForwardSpec, prepare, observe_remote_ready, observe_forwarded, enter, cancel as cancel_gate, fail,
  end,
}
use zephyr_remote_openocd.Session.{
  Identity, made, Fault, Key, of_error, named, Deferred, SessionAllocation, SessionAuthority,
  recorded, session_error, session_closed, session_ending, gate_error, final_error, Answer, returns,
  raises, ◌&◌, render_diagnostic, joined, rendered, failure, has_key, has_error, is_deferred,
  is_log_failure, add_failure_note, noted,
}

unfoldable pub set_policy : CompletionPolicy → SessionAuthority → SessionAuthority
set_policy policy a = record a { policy = policy }

unfoldable pub record_created : SessionAllocation → SessionAuthority → SessionAuthority
record_created allocation a = record a { allocation = some allocation }

unfoldable pub record_ready : Option String → SessionAuthority → SessionAuthority
record_ready none a = record a { gate = observe_remote_ready a.gate }
record_ready (some address) a = record a {
  ready_address = some address;
  gate = observe_remote_ready a.gate;
}

unfoldable pub record_log_failure : Fault → SessionAuthority → SessionAuthority
record_log_failure error a =
    if is_log_failure error.identity a.log_failures
    then a
    else record a { log_failures = a.log_failures ++ (error ∷ []) }

unfoldable pub cancel : SessionAuthority → SessionAuthority
cancel a = record a { closing = true; gate = cancel_gate a.gate }

unfoldable pub begin_control_exit : SessionAuthority → SessionAuthority
begin_control_exit a = record a { control_ended = true; control_observation_pending = true }

-- `publish_failure`
unfoldable pub publish_failure : SessionAuthority → Option Fault × SessionAuthority
publish_failure a = elim (failure a) [
  | none ↦ (none, a)
  | some error ↦ (some error, record a { error_reported = true })
]

unfoldable pub take_unreported_failure : SessionAuthority → Option Fault × SessionAuthority
take_unreported_failure a = if a.error_reported then (none, a) else publish_failure a

-- An exception that the authority makes: a new object.
unfoldable pub make_fault : String → List String → SessionAuthority → Fault × SessionAuthority
make_fault text own_notes a = (
  record { identity = made a.made_count; ending = false; text = text; own_notes = own_notes },
  record a { made_count = a.made_count + 1 },
)

-- The loop of `project_result` over the log failures.
unfoldable pub note_all : Fault → List Fault → List (Identity × String) → List (Identity × String)
note_all primary [] notes = notes
note_all primary (e ∷ es) notes =
    note_all primary es (add_failure_note primary "OpenOCD log file also failed" e notes)

-- `project_result` with a primary failure, from the log failure with the number `first`.
unfoldable pub project_on : Fault → ℕ → SessionAuthority → SessionAuthority
unfolding note_all
project_on primary first a = record a {
  notes = note_all primary (drop first a.log_failures) a.notes;
  log_failures_projected = length a.log_failures;
}

-- `max(first, 1)`
abbrev at_least_one : ℕ → ℕ
at_least_one n = if leb 1 n then n else 1

unfoldable pub project_result : SessionAuthority → Option Fault × SessionAuthority
project_result a = elim (publish_failure a).0 [
  | some primary ↦ (some primary, project_on primary a.log_failures_projected (publish_failure a).1)
  | none ↦ elim a.log_failures [
    | [] ↦ (none, a)
    | e ∷ es ↦ (some e, project_on e (at_least_one a.log_failures_projected) a)
  ]
]

unfoldable pub operation_status : SessionAuthority → Answer (Option ℤ) × SessionAuthority
operation_status a = elim (failure a) [
  | some error ↦ (raises (recorded error), (publish_failure a).1)
  | none ↦ if a.control_observation_pending then (returns none, a) else elim a.terminal [
    | none ↦ (returns none, a)
    | some t ↦ elim t.outcome.child_result [
      | none ↦ (returns none, a)
      | some r ↦ (returns (some r.returncode), a)
    ]
  ]
]

abbrev closed_text : String
closed_text = "operation no longer permits dependent launch"

-- `admit_work` behind the checks of the session: the gate.
unfoldable pub enter_gate :
    List ForwardSpec
    → List ForwardSpec
    → Option Fault
    → SessionAuthority
    → Answer (Unit {0}) × SessionAuthority
enter_gate required forwarded final a =
    let (answer, prepared) = prepare required a.gate in
    elim answer [
      | raised e ↦ (raises (gate_error e), record a { gate = prepared })
      | ok ticket ↦
          let observed = observe_forwarded forwarded prepared in
          elim final [
            | some error ↦ (raises (final_error error), record a { gate = observed })
            | none ↦
                let (entered, gate) = enter ticket observed in
                (
                  (if entered
                      then returns tt
                      else raises (
                          session_error "dependent launch requires READY and required forwarding")),
                  record a { gate = gate },
                )
          ]
    ]

unfoldable pub admit_work :
    List ForwardSpec
    → List ForwardSpec
    → Option Fault
    → SessionAuthority
    → Answer (Unit {0}) × SessionAuthority
admit_work required forwarded final a = elim (failure a) [
  | some error ↦ (raises (recorded error), (publish_failure a).1)
  | none ↦
      if a.closing
      then (raises (session_closed closed_text), a)
      else if a.control_observation_pending
      then (raises (session_ending closed_text), a)
      else if is_some a.terminal || a.control_ended
      then (raises (session_closed closed_text), a)
      else enter_gate required forwarded final a
]

unfoldable pub admit_helper_effect :
    String → Option Fault → SessionAuthority → Answer (Unit {0}) × SessionAuthority
admit_helper_effect effect final a = elim (failure a) [
  | some error ↦ (raises (recorded error), (publish_failure a).1)
  | none ↦
      if a.control_observation_pending
      then (raises (session_ending ("helper session ended before " & effect)), a)
      else if is_some a.terminal || a.control_ended
      then (raises (session_error ("helper session ended before " & effect)), a)
      else elim final [ some error ↦ (raises (final_error error), a) | none ↦ (returns tt, a) ]
]

unfoldable pub admit_start_write : SessionAuthority → Answer Bool × SessionAuthority
admit_start_write a = elim (failure a) [
  | some error ↦ (raises (recorded error), (publish_failure a).1)
  | none ↦
      if a.control_observation_pending
      then (returns false, a)
      else if is_some a.terminal || a.control_ended
      then (raises (session_error "helper session ended during START"), a)
      else (returns true, a)
]
