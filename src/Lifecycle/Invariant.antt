-- ===== src/Lifecycle/Invariant.antt =====
-- What holds of the phase between two calls.
use zephyr_remote_openocd.Shared.{
  String, ℤ, ◌≡◌, Bool, true, false, Option, none, some, List, [], ◌∷◌, arith, all, member,
  string_eq,
}
use zephyr_remote_openocd.Outcome.{
  Trigger, Diagnostic, CleanupReport, LogReport, Outcome, child_unconfirmed, make_outcome,
  with_failure, with_child_result, make_snapshot,
}
use zephyr_remote_openocd.Outcome.Failures.{IsValid}
use zephyr_remote_openocd.Lifecycle.{
  StartupRequest, fresh, Attempt, authorized, producing, owned, settled, LifecyclePhase, created,
  starting, active, terminating, closed, attempt_result,
}
use zephyr_remote_openocd.Lifecycle.Authority.{is_unsettled}
use zephyr_remote_openocd.Lifecycle.Authority
use zephyr_remote_openocd.Lifecycle.Steps.{Operation, step, run}

-- Before termination no cleanup signal is on record.
abbrev Unsignalled : Attempt → Type 0
Unsignalled authorized = Unit
Unsignalled (producing a) = a.termination_requested ≡ false
Unsignalled (owned a) = a.termination_requested ≡ false
Unsignalled (settled r) = Unit

-- An outcome goes with an attempt: it is valid, and its child result is the attempt's.
pub record Agrees (attempt : Option Attempt) (o : Outcome) : Type 0 where
  pub valid : IsValid o
  pub result : o.child_result ≡ attempt_result attempt

abbrev pub Inv : LifecyclePhase → Type 0
Inv created = Unit
Inv (starting request attempt evidence) =
    Unsignalled attempt × (all evidence (λ n. member n request.readiness_evidence) ≡ true)
Inv (active request a) = a ≡ fresh
Inv (terminating attempt o) = Agrees attempt o
Inv (closed attempt snapshot local) =
    Agrees attempt snapshot.outcome
    × (is_unsettled attempt ≡ true → child_unconfirmed snapshot.cleanup.child_disposal ≡ true)

start-Inv : (r : StartupRequest) (s : LifecyclePhase) → Inv s → Inv (Authority.start r s).1
unfolding Authority.start
start-Inv r created h = ground arith
start-Inv r _ h = h

terminate-Inv :
    (t : Trigger) (f : Option Diagnostic) (s : LifecyclePhase)
    → Inv s
    → Inv (Authority.terminate t f s).1
unfolding Authority.terminate make_outcome with_failure
terminate-Inv t f created h = ground arith
terminate-Inv t f (starting request attempt evidence) h = ground arith
terminate-Inv t f (active request attempt) h = ground arith
terminate-Inv t f (terminating attempt o) h = ground arith
terminate-Inv t f (closed attempt sn local) h = ground arith

enter_attempt-Inv : (b : Bool) (s : LifecyclePhase) → Inv s → Inv (Authority.enter_attempt b s).1
unfolding Authority.enter_attempt make_outcome
enter_attempt-Inv b (starting request authorized evidence) h = ground arith
enter_attempt-Inv b _ h = h

adopt_attempt-Inv : (s : LifecyclePhase) → Inv s → Inv (Authority.adopt_attempt s).1
unfolding Authority.adopt_attempt make_outcome attempt_result
adopt_attempt-Inv (starting request (producing a) evidence) h = ground arith
adopt_attempt-Inv (terminating (some (producing a)) o) h = ground arith
adopt_attempt-Inv _ h = h

observe_evidence-Inv :
    (n : String) (s : LifecyclePhase) → Inv s → Inv (Authority.observe_evidence n s).1
unfolding Authority.observe_evidence
observe_evidence-Inv n (starting request (owned a) evidence) h = ground arith
observe_evidence-Inv n _ h = h

ready-Inv : (live b : Bool) (s : LifecyclePhase) → Inv s → Inv (Authority.ready live b s).1
unfolding Authority.ready make_outcome attempt_result
ready-Inv live b (starting request (owned a) evidence) h = ground arith
ready-Inv live b _ h = h

observe_child_exit-Inv :
    (n : ℤ) (s : LifecyclePhase) → Inv s → Inv (Authority.observe_child_exit n s).1
unfolding Authority.observe_child_exit make_outcome attempt_result with_child_result
observe_child_exit-Inv n created h = h
observe_child_exit-Inv n (starting request authorized evidence) h = h
observe_child_exit-Inv n (starting request (producing a) evidence) h = ground arith
observe_child_exit-Inv n (starting request (owned a) evidence) h = ground arith
observe_child_exit-Inv n (starting request (settled r) evidence) h = h
observe_child_exit-Inv n (active request a) h = ground arith
observe_child_exit-Inv n (terminating none o) h = h
observe_child_exit-Inv n (terminating (some authorized) o) h = h
observe_child_exit-Inv n (terminating (some (producing a)) o) h = ground arith
observe_child_exit-Inv n (terminating (some (owned a)) o) h = ground arith
observe_child_exit-Inv n (terminating (some (settled r)) o) h = h
observe_child_exit-Inv n (closed attempt sn local) h = h

record_child_termination-Inv :
    (s : LifecyclePhase) → Inv s → Inv (Authority.record_child_termination s).1
unfolding Authority.record_child_termination attempt_result
record_child_termination-Inv (terminating (some (producing a)) o) h = ground arith
record_child_termination-Inv (terminating (some (owned a)) o) h = ground arith
record_child_termination-Inv _ h = h

settle_attempt-Inv :
    (q d : Bool) (s : LifecyclePhase) → Inv s → Inv (Authority.settle_attempt q d s).1
unfolding Authority.settle_attempt attempt_result
settle_attempt-Inv q d (starting request attempt evidence) h = ground arith
settle_attempt-Inv q d (terminating (some attempt) o) h = ground arith
settle_attempt-Inv q d _ h = h

freeze-Inv :
    (c : CleanupReport) (l : Option LogReport) (s : LifecyclePhase)
    → Inv s
    → Inv (Authority.freeze c l s).1
unfolding Authority.freeze make_snapshot
freeze-Inv c l (closed attempt sn local) h = h
freeze-Inv c l (terminating attempt o) h = ground arith
freeze-Inv c l _ h = h

-- Every call on the authority keeps the invariant, also a call that raises: while the session is
-- starting no cleanup signal is on record and only requested evidence is; an active session has a
-- running child; a terminating or closed session has a valid outcome whose child result is the
-- attempt's; and a closed session with an unsettled attempt has an unconfirmed child disposal.
pub step-Inv : (op : Operation) (s : LifecyclePhase) → Inv s → Inv (step op s)
unfolding step
step-Inv (Operation.start r) s h = start-Inv r s h
step-Inv (Operation.enter_attempt b) s h = enter_attempt-Inv b s h
step-Inv Operation.adopt_attempt s h = adopt_attempt-Inv s h
step-Inv (Operation.observe_evidence n) s h = observe_evidence-Inv n s h
step-Inv (Operation.ready live b) s h = ready-Inv live b s h
step-Inv (Operation.observe_child_exit n) s h = observe_child_exit-Inv n s h
step-Inv Operation.record_child_termination s h = record_child_termination-Inv s h
step-Inv (Operation.settle_attempt q d) s h = settle_attempt-Inv q d s h
step-Inv (Operation.terminate t f) s h = terminate-Inv t f s h
step-Inv (Operation.freeze c l) s h = freeze-Inv c l s h

run-Inv_from : (s : LifecyclePhase) (ops : List Operation) → Inv s → Inv (run s ops)
unfolding run
run-Inv_from s [] h = h
run-Inv_from s (op ∷ ops) h = run-Inv_from (step op s) ops (step-Inv op s h)

-- The invariant holds after any calls on a new authority.
pub run-Inv : (ops : List Operation) → Inv (run created ops)
run-Inv ops = run-Inv_from created ops tt
