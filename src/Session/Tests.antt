-- ===== src/Session/Tests.antt =====
-- A session whose helper connection breaks, and one that lets a client in.
use Prim.Native.String.{String}
use zephyr_remote_openocd.Shared.{ℤ, ◌≡◌, refl, true, false, none, some, [], ◌∷◌, string_eq, subset}
use zephyr_remote_openocd.Outcome.{Diagnostic, diagnostic, nil}
use zephyr_remote_openocd.Gate.{
  ForwardSpec, forward_eq, new as new_gate, prepare, enter, observe_forwarded, observe_remote_ready,
}
use zephyr_remote_openocd.Session.{given, Fault, SessionAuthority, new, failure}
use zephyr_remote_openocd.Session.Methods.{
  project_result, make_fault, admit_work, admit_helper_effect, enter_gate, record_ready,
  begin_control_exit,
}
use zephyr_remote_openocd.Session.Methods.Recording.{
  record_failure, record_keyed, commit_failure, finish_control_exit,
}
use zephyr_remote_openocd.Session.Calls.{
  is_ready, fails, fails_log, begins_exit, publishes, step, run,
}
use zephyr_remote_openocd.Session.Primary.{primary_stays}
use zephyr_remote_openocd.Session.Admission.{
  returned, is_settled, over_admits_nothing, admit_work-needs,
}
use zephyr_remote_openocd.Session.Accounting.{
  finish_control_exit-primary, project_result-again, ended_text,
}

abbrev from_exception : String → Fault → Diagnostic
from_exception code error = diagnostic code error.text nil

abbrev decimal : ℤ → String
decimal n = "1"

abbrev lost : Fault
lost = record { identity = given 1; ending = false; text = "connection lost"; own_notes = [] }

abbrev refusal : Fault
refusal = record { identity = given 2; ending = true; text = "session ends"; own_notes = [] }

abbrev gdb : ForwardSpec
gdb = record { name = "gdb"; local_port = 3333; remote_port = 3333 }

abbrev broken : SessionAuthority
broken = run from_exception decimal (fails "READER" lost ∷ []) new

lost_is_primary : failure broken ≡ some lost
unfolding failure run step record_failure record_keyed commit_failure new new_gate
lost_is_primary = refl

primary_stays_example :
    failure (
      run from_exception decimal
        (fails "OPERATION" refusal ∷ begins_exit ∷ is_ready none ∷ publishes ∷ [])
        broken)
    ≡ some lost
primary_stays_example =
    primary_stays from_exception decimal
      (fails "OPERATION" refusal ∷ begins_exit ∷ is_ready none ∷ publishes ∷ []) broken lost
      lost_is_primary

nothing_left : is_settled broken ≡ true
unfolding failure run step record_failure record_keyed commit_failure new new_gate
nothing_left = refl

over_admits_nothing_example :
    (returned
        (admit_work
          (gdb ∷ [])
          (gdb ∷ [])
          none
          (run from_exception decimal (is_ready none ∷ []) broken)).0
      ≡ false)
    × (returned
          (admit_helper_effect "START" none
            (run from_exception decimal (is_ready none ∷ []) broken)).0
        ≡ false)
over_admits_nothing_example =
    over_admits_nothing from_exception decimal (is_ready none ∷ []) broken (gdb ∷ []) (gdb ∷ [])
      "START" none nothing_left

abbrev readied : SessionAuthority
readied = run from_exception decimal (is_ready (some "127.64.0.1") ∷ []) new

admitted : returned (admit_work (gdb ∷ []) (gdb ∷ []) none readied).0 ≡ true
unfolding failure run step record_ready admit_work enter_gate prepare enter observe_forwarded
    observe_remote_ready new new_gate
admitted = refl

admit_work-needs_example :
    (true ≡ true)
    × (subset (gdb ∷ []) (gdb ∷ []) ≡ true)
    × (is_settled readied ≡ false)
    × (readied.closing ≡ false)
admit_work-needs_example =
    admit_work-needs from_exception decimal (is_ready (some "127.64.0.1") ∷ []) (gdb ∷ [])
      (gdb ∷ []) none admitted

-- A refusal while the end of the transport is being accounted for
abbrev pending : SessionAuthority
pending = run from_exception decimal (begins_exit ∷ fails "OPERATION" refusal ∷ []) new

finish_control_exit-primary_example :
    failure (finish_control_exit from_exception pending) ≡ some (make_fault ended_text [] pending).0
unfolding failure run step begin_control_exit record_failure record_keyed new new_gate
finish_control_exit-primary_example = finish_control_exit-primary from_exception pending

abbrev logged : SessionAuthority
logged = run from_exception decimal (fails_log lost ∷ fails_log refusal ∷ []) new

project_result-again_example : project_result (project_result logged).1 ≡ project_result logged
project_result-again_example = project_result-again logged
