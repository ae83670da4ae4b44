-- ===== src/Session/Accounting.antt =====
-- The failure that is selected at the end.
use Prim.Native.String.{String}
use zephyr_remote_openocd.Shared.{
  ◌≡◌, refl, true, false, Option, none, some, List, [], ◌∷◌, arith, if◌then◌else◌, is_some, drop,
  length, Bool-cases, Option-cases, List-cases, inl, inr,
}
use zephyr_remote_openocd.Outcome.{Diagnostic}
use zephyr_remote_openocd.Gate.{forward_eq}
use zephyr_remote_openocd.Session.{Fault, Deferred, SessionAuthority, failure}
use zephyr_remote_openocd.Session.Methods.{
  publish_failure, make_fault, project_on, project_result, note_all,
}
use zephyr_remote_openocd.Session.Methods.Recording.{
  commit_failure, record_keyed, record_made, record_refusals, control_ended_failure,
  finish_control_exit,
}
use zephyr_remote_openocd.Session.Primary.{finish_control_exit-Stays, record_refusals-Stays}

abbrev pub first_refusal : List Deferred → Option Fault
first_refusal [] = none
first_refusal (d ∷ ds) = some d.error

abbrev pub ended_text : String
ended_text = "remote helper control transport ended without SESSION_ENDED"

module _ (from_exception : String → Fault → Diagnostic) where
  control_ended_failure-primary :
      (a : SessionAuthority)
      → failure a ≡ none
      → is_some a.terminal ≡ false
      → failure (control_ended_failure from_exception a) ≡ some (make_fault ended_text [] a).0
  unfolding failure control_ended_failure record_made make_fault record_keyed commit_failure
  control_ended_failure-primary a h missing = elim (List-cases a.failures) [
    | inl e ↦ ground (arith, e)
    | inr (r, rs, e) ↦ ground (arith, e)
  ]

  record_refusals-primary :
      (ds : List Deferred) (a : SessionAuthority)
      → failure a ≡ none
      → a.control_observation_pending ≡ false
      → failure (record_refusals from_exception ds a) ≡ first_refusal ds
  unfolding failure record_refusals record_keyed commit_failure
  record_refusals-primary [] a h settled = ground arith
  record_refusals-primary (d ∷ ds) a h settled = elim (List-cases a.failures) [
    | inl e ↦ ground (
      arith,
      e,
      record_refusals-Stays d.error true from_exception ds
          (record_keyed from_exception d.code d.error d.key a),
    )
    | inr (r, rs, e) ↦ ground (arith, e)
  ]

  settled : SessionAuthority → SessionAuthority
  settled b = record b { control_observation_pending = false; deferred_refusals = [] }

  finish_control_exit-from :
      (e : Fault) (a : SessionAuthority)
      → failure (control_ended_failure from_exception a) ≡ some e
      → failure (finish_control_exit from_exception a) ≡ some e
  unfolding finish_control_exit failure settled
  finish_control_exit-from e a h =
      let b = control_ended_failure from_exception a in
      (record_refusals-Stays e true from_exception b.deferred_refusals (settled b)).0 h

  finish_control_exit-settled :
      (a : SessionAuthority)
      → failure a ≡ none
      → is_some a.terminal ≡ true
      → failure (finish_control_exit from_exception a) ≡ first_refusal a.deferred_refusals
  unfolding finish_control_exit control_ended_failure failure settled
  finish_control_exit-settled a h there =
      rw there (record_refusals-primary a.deferred_refusals (settled a) h refl)

  -- The primary failure after the end of the control transport is accounted for is the one recorded
  -- before, if there is one; and else that the transport ended without SESSION_ENDED, if no terminal
  -- snapshot came; and only else the first of the refusals that were deferred, if any.
  pub finish_control_exit-primary :
      (a : SessionAuthority)
      → failure (finish_control_exit from_exception a) ≡ elim (failure a) [
        | some e ↦ some e
        | none ↦
            if is_some a.terminal
            then first_refusal a.deferred_refusals
            else some (make_fault ended_text [] a).0
      ]
  unfolding failure
  finish_control_exit-primary a = elim (Option-cases (failure a)) [
    | inr (e, found) ↦ ground (arith, found, finish_control_exit-Stays e true from_exception a)
    | inl nothing ↦ elim (Bool-cases (is_some a.terminal)) [
      | inr missing ↦ ground (
        arith,
        nothing,
        missing,
        control_ended_failure-primary a nothing missing,
        finish_control_exit-from (make_fault ended_text [] a).0 a,
      )
      | inl there ↦ ground (arith, nothing, there, finish_control_exit-settled a nothing there)
    ]
  ]

drop-length : (xs : List Fault) → drop (length xs) xs ≡ []
drop-length [] = ground arith
drop-length (x ∷ xs) = drop-length xs

-- A second projection of the result with no new fact in between gives the same failure, and changes
-- nothing: no log failure is noted twice.
pub project_result-again :
    (a : SessionAuthority) → project_result (project_result a).1 ≡ project_result a
unfolding project_result project_on publish_failure note_all failure
project_result-again a = ground (arith, drop-length a.log_failures)
