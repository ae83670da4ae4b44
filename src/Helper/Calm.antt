-- ===== src/Helper/Calm.antt =====
-- What the calls of the lifecycle authority leave of the attempt and its result.
use zephyr_remote_openocd.Shared.{
  ◌≡◌, arith, Bool, true, Option, none, some, String, ℤ, is_some, string_eq,
}
use zephyr_remote_openocd.Outcome.{
  Trigger, Diagnostic, make_outcome, with_failure, with_child_result,
}
use zephyr_remote_openocd.Lifecycle.{
  LifecyclePhase, created, starting, active, terminating, closed, authorized, producing, owned,
  settled, attempt_result, current_attempt,
}
use zephyr_remote_openocd.Lifecycle.Authority.{is_unsettled}
use zephyr_remote_openocd.Lifecycle.Authority

-- No attempt begins or gets a result.
pub record Calm (before after : LifecyclePhase) : Type 0 where
  pub result :
      is_some (attempt_result (current_attempt after)) ≡ true
      → is_some (attempt_result (current_attempt before)) ≡ true
  pub unsettled :
      is_unsettled (current_attempt after) ≡ true → is_unsettled (current_attempt before) ≡ true

pub terminate-Calm :
    (t : Trigger) (f : Option Diagnostic) (s : LifecyclePhase)
    → Calm s (Authority.terminate t f s).1
unfolding Authority.terminate make_outcome with_failure current_attempt
terminate-Calm t f created = record { result = ground arith; unsettled = ground arith }
terminate-Calm t f (starting r a e) = record { result = ground arith; unsettled = ground arith }
terminate-Calm t f (active r a) = record { result = ground arith; unsettled = ground arith }
terminate-Calm t f (terminating a o) = record { result = ground arith; unsettled = ground arith }
terminate-Calm t f (closed a x l) = record { result = ground arith; unsettled = ground arith }

pub ready-Calm :
    (live admitted : Bool) (s : LifecyclePhase) → Calm s (Authority.ready live admitted s).1
unfolding Authority.ready make_outcome current_attempt
ready-Calm live admitted (starting r (owned a) e) = record {
  result = ground arith;
  unsettled = ground arith;
}
ready-Calm live admitted _ = record { result = λ x. x; unsettled = λ x. x }

pub observe_evidence-Calm :
    (name : String) (s : LifecyclePhase) → Calm s (Authority.observe_evidence name s).1
unfolding Authority.observe_evidence current_attempt
observe_evidence-Calm name (starting r (owned a) e) = record {
  result = ground arith;
  unsettled = ground arith;
}
observe_evidence-Calm name _ = record { result = λ x. x; unsettled = λ x. x }

pub adopt_attempt-Calm : (s : LifecyclePhase) → Calm s (Authority.adopt_attempt s).1
unfolding Authority.adopt_attempt make_outcome current_attempt attempt_result is_unsettled
adopt_attempt-Calm (starting r (producing a) e) = record {
  result = ground arith;
  unsettled = ground arith;
}
adopt_attempt-Calm (terminating (some (producing a)) o) = record {
  result = ground arith;
  unsettled = ground arith;
}
adopt_attempt-Calm _ = record { result = λ x. x; unsettled = λ x. x }

pub record_child_termination-Calm :
    (s : LifecyclePhase) → Calm s (Authority.record_child_termination s).1
unfolding Authority.record_child_termination current_attempt attempt_result is_unsettled
record_child_termination-Calm (terminating (some (producing a)) o) = record {
  result = ground arith;
  unsettled = ground arith;
}
record_child_termination-Calm (terminating (some (owned a)) o) = record {
  result = ground arith;
  unsettled = ground arith;
}
record_child_termination-Calm _ = record { result = λ x. x; unsettled = λ x. x }

-- An exit settles nothing.
pub observe_child_exit-unsettled :
    (n : ℤ) (s : LifecyclePhase)
    → is_unsettled (current_attempt (Authority.observe_child_exit n s).1) ≡ true
    → is_unsettled (current_attempt s) ≡ true
unfolding Authority.observe_child_exit current_attempt is_unsettled make_outcome with_child_result
    attempt_result
observe_child_exit-unsettled n created h = h
observe_child_exit-unsettled n (starting r authorized e) h = h
observe_child_exit-unsettled n (starting r (producing a) e) h = ground arith
observe_child_exit-unsettled n (starting r (owned a) e) h = ground arith
observe_child_exit-unsettled n (starting r (settled a) e) h = h
observe_child_exit-unsettled n (active r a) h = ground arith
observe_child_exit-unsettled n (terminating none o) h = h
observe_child_exit-unsettled n (terminating (some authorized) o) h = h
observe_child_exit-unsettled n (terminating (some (producing a)) o) h = ground arith
observe_child_exit-unsettled n (terminating (some (owned a)) o) h = ground arith
observe_child_exit-unsettled n (terminating (some (settled a)) o) h = h
observe_child_exit-unsettled n (closed a x l) h = h

-- An attempt enters where none has a result.
pub enter_attempt-result :
    (b : Bool) (s : LifecyclePhase)
    → is_some (attempt_result (current_attempt (Authority.enter_attempt b s).1)) ≡ true
    → is_some (attempt_result (current_attempt s)) ≡ true
unfolding Authority.enter_attempt make_outcome current_attempt attempt_result
enter_attempt-result b (starting r authorized e) h = ground arith
enter_attempt-result b _ h = h
