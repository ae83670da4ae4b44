-- ===== src/Session/Calls.antt =====
-- The calls of `SessionAuthority` as data, and what they keep.
use Prim.Native.String.{String}
use zephyr_remote_openocd.Shared.{Bool, true, false, Option, List, [], ◌∷◌, ℤ}
use zephyr_remote_openocd.Outcome.{CompletionPolicy, Diagnostic, TerminalSnapshot}
use zephyr_remote_openocd.Gate.{ForwardSpec}
use zephyr_remote_openocd.Session.{Fault, Key, SessionAllocation, SessionAuthority}
use zephyr_remote_openocd.Session.Methods.{
  set_policy, record_created, record_ready, record_log_failure, cancel, begin_control_exit,
  publish_failure, take_unreported_failure, project_result, operation_status, admit_work,
  admit_helper_effect, admit_start_write,
}
use zephyr_remote_openocd.Session.Methods.Recording.{
  record_keyed, record_failure, record_reader_failure, finish_control_exit, resolve_effect_failure,
  resolve_optional_failure, record_control_status, record_terminal,
}

pub data Call : Type 0 where
  sets_policy : CompletionPolicy → Call
  creates : SessionAllocation → Call
  is_ready : Option String → Call
  fails : String → Fault → Call
  fails_as : String → Fault → Key → Call
  fails_log : Fault → Call
  projects : Call
  terminates : TerminalSnapshot → Call
  cancels : Call
  fails_reader : Fault → Call
  begins_exit finishes_exit : Call
  exits : Option ℤ → Call
  publishes takes_unreported asks_status : Call
  resolves resolves_optional : Fault → Call
  admits_work : List ForwardSpec → List ForwardSpec → Option Fault → Call
  admits_effect : String → Option Fault → Call
  admits_write : Call

abbrev pub reports_ready : Call → Bool
reports_ready (is_ready address) = true
reports_ready _ = false

module _ (from_exception : String → Fault → Diagnostic) (decimal : ℤ → String) where
  unfoldable pub step : Call → SessionAuthority → SessionAuthority
  step (sets_policy policy) a = set_policy policy a
  step (creates allocation) a = record_created allocation a
  step (is_ready address) a = record_ready address a
  step (fails code error) a = record_failure from_exception code error a
  step (fails_as code error key) a = record_keyed from_exception code error key a
  step (fails_log error) a = record_log_failure error a
  step projects a = (project_result a).1
  step (terminates t) a = record_terminal from_exception decimal t a
  step cancels a = cancel a
  step (fails_reader error) a = record_reader_failure from_exception error a
  step begins_exit a = begin_control_exit a
  step finishes_exit a = finish_control_exit from_exception a
  step (exits status) a = record_control_status from_exception decimal status a
  step publishes a = (publish_failure a).1
  step takes_unreported a = (take_unreported_failure a).1
  step asks_status a = (operation_status a).1
  step (resolves error) a = (resolve_effect_failure from_exception error a).1
  step (resolves_optional error) a = (resolve_optional_failure from_exception error a).1
  step (admits_work required forwarded final) a = (admit_work required forwarded final a).1
  step (admits_effect effect final) a = (admit_helper_effect effect final a).1
  step admits_write a = (admit_start_write a).1

  unfoldable pub run : List Call → SessionAuthority → SessionAuthority
  unfolding step
  run [] a = a
  run (c ∷ cs) a = run cs (step c a)
