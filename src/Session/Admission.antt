-- ===== src/Session/Admission.antt =====
-- When the authority admits dependent work and effects of the helper.
use Prim.Native.String.{String}
use zephyr_remote_openocd.Shared.{
  ◌≡◌, refl, Bool, true, false, ◌||◌, Option, List, [], arith, is_some, ℤ, Option-cases, inl, inr,
  any, subset,
}
use zephyr_remote_openocd.Outcome.{Diagnostic}
use zephyr_remote_openocd.Gate.{ForwardSpec, forward_eq, prepare, enter, observe_forwarded}
use zephyr_remote_openocd.Session.{
  given, Fault, SessionAuthority, new, Answer, returns, raises, failure,
}
use zephyr_remote_openocd.Session.Methods.{
  publish_failure, enter_gate, admit_work, admit_helper_effect,
}
use zephyr_remote_openocd.Session.Calls.{Call, reports_ready, run}
use zephyr_remote_openocd.Gate.{new as new_gate}
use zephyr_remote_openocd.Session.Primary.{run-Stays}

abbrev pub returned : {A : Type 0} → Answer A → Bool
returned (returns x) = true
returned (raises e) = false

-- A failure is recorded, the terminal snapshot is there, or the control transport has ended.
abbrev pub is_settled : SessionAuthority → Bool
is_settled a = is_some (failure a) || (is_some a.terminal || a.control_ended)

admit_work-open :
    (required forwarded : List ForwardSpec) (final : Option Fault) (a : SessionAuthority)
    → returned (admit_work required forwarded final a).0 ≡ true
    → (is_settled a ≡ false)
      × (a.closing ≡ false)
      × (a.gate.remote_ready ≡ true)
      × (subset required forwarded ≡ true)
unfolding admit_work enter_gate publish_failure prepare enter observe_forwarded
admit_work-open required forwarded final a h = ground arith

admit_helper_effect-open :
    (effect : String) (final : Option Fault) (a : SessionAuthority)
    → returned (admit_helper_effect effect final a).0 ≡ true
    → is_settled a ≡ false
unfolding admit_helper_effect publish_failure
admit_helper_effect-open effect final a h = ground arith

abbrev some_fault : Fault
some_fault = record { identity = given 0; ending = false; text = ""; own_notes = [] }

module _ (from_exception : String → Fault → Diagnostic) (decimal : ℤ → String) where
  run-is_settled :
      (cs : List Call) (a : SessionAuthority)
      → is_settled a ≡ true
      → is_settled (run from_exception decimal cs a) ≡ true
  run-is_settled cs a h = elim (Option-cases (failure a)) [
    | inl nothing ↦
        ground (arith, nothing, run-Stays some_fault true from_exception decimal cs a (λ k. refl))
    | inr (e, found) ↦
        ground (arith, found, run-Stays e true from_exception decimal cs a (λ k. refl))
  ]

  -- Once a failure is recorded, the terminal snapshot is there or the control transport has ended, no
  -- dependent work and no effect of the helper is admitted any more, whatever is called in between.
  pub over_admits_nothing :
      (cs : List Call) (a : SessionAuthority) (required forwarded : List ForwardSpec)
      (effect : String) (final : Option Fault)
      → is_settled a ≡ true
      → (returned (admit_work required forwarded final (run from_exception decimal cs a)).0 ≡ false)
        × (returned (admit_helper_effect effect final (run from_exception decimal cs a)).0 ≡ false)
  over_admits_nothing cs a required forwarded effect final h =
      let b = run from_exception decimal cs a in
      ground (
        arith,
        run-is_settled cs a h,
        admit_work-open required forwarded final b,
        admit_helper_effect-open effect final b,
      )

  -- A new authority admits dependent work after any calls only if READY was reported among them, if all
  -- required forwards are among the given ones, and if there is no failure, no cancellation, no terminal
  -- snapshot and no end of the control transport.
  pub admit_work-needs :
      (cs : List Call) (required forwarded : List ForwardSpec) (final : Option Fault)
      → returned (admit_work required forwarded final (run from_exception decimal cs new)).0 ≡ true
      → (any cs reports_ready ≡ true)
        × (subset required forwarded ≡ true)
        × (is_settled (run from_exception decimal cs new) ≡ false)
        × ((run from_exception decimal cs new).closing ≡ false)
  unfolding new new_gate
  admit_work-needs cs required forwarded final h =
      let b = run from_exception decimal cs new in
      ground (
        arith,
        h,
        run-Stays some_fault (any cs reports_ready) from_exception decimal cs new (λ k. k),
        admit_work-open required forwarded final b,
      )
