-- ===== src/Lifecycle/Progress.antt =====
-- What never goes back: the phase, the child's result, the snapshot.
use zephyr_remote_openocd.Shared.{
  ℕ, ◌≤◌, String, ℤ, ◌≡◌, Bool, false, Option, none, some, is_none, ◌&&◌, if◌then◌else◌, List, [],
  ◌∷◌, ◌++◌, arith, string_eq, ok, append_assoc, append-nil,
}
use zephyr_remote_openocd.Outcome.{
  Trigger, is_child_exit, Diagnostic, ChildResult, CleanupReport, LogReport, TerminalSnapshot,
  make_outcome, with_failure, with_child_result, make_snapshot,
}
use zephyr_remote_openocd.Lifecycle.{
  StartupRequest, Running, Attempt, authorized, producing, owned, settled, LifecyclePhase, created,
  starting, active, terminating, closed, current_attempt, attempt_result,
}
use zephyr_remote_openocd.Lifecycle.Authority.{is_unsettled}
use zephyr_remote_openocd.Lifecycle.Authority
use zephyr_remote_openocd.Lifecycle.Steps.{Operation, step, run}
use zephyr_remote_openocd.Lifecycle.Invariant.{Inv}

-- The phases in the order of a session.
abbrev pub rank : LifecyclePhase → ℕ
rank created = 0
rank (starting request attempt evidence) = 1
rank (active request attempt) = 2
rank (terminating attempt outcome) = 3
rank (closed attempt snapshot local) = 4

-- The exit status of the child is `r`.
abbrev pub HasResult : LifecyclePhase → ChildResult → Type 0
HasResult s r = attempt_result (current_attempt s) ≡ some r

-- The session has a running child with no result so far.
pub running : LifecyclePhase → Option Running
running (closed attempt snapshot local) = none
running s = elim (current_attempt s) [
  | none ↦ none
  | some a ↦ elim a [
    | authorized ↦ none
    | producing r ↦ some r
    | owned r ↦ some r
    | settled r ↦ none
  ]
]

abbrev pub awaits_exit : LifecyclePhase → Bool
unfolding running
awaits_exit s = elim (running s) [ none ↦ false | some a ↦ is_none a.child_result ]

abbrev pub exit_result : ℤ → LifecyclePhase → ChildResult
exit_result n s = record {
  returncode = n;
  termination_requested = elim (running s) [ none ↦ false | some a ↦ a.termination_requested ];
}

-- One call moves the phase forward or leaves it, and a child result that is on record stays.
abbrev Forward : LifecyclePhase → LifecyclePhase → Type 0
Forward s t = (rank s ≤ rank t) × ((r : ChildResult) → HasResult s r → HasResult t r)

terminate-Forward :
    (t : Trigger) (f : Option Diagnostic) (s : LifecyclePhase)
    → Forward s (Authority.terminate t f s).1
unfolding Authority.terminate make_outcome with_failure
terminate-Forward t f created = ground arith
terminate-Forward t f (starting request attempt evidence) = ground arith
terminate-Forward t f (active request attempt) = ground arith
terminate-Forward t f (terminating attempt o) = ground arith
terminate-Forward t f (closed attempt sn local) = ground arith

start-Forward : (r : StartupRequest) (s : LifecyclePhase) → Forward s (Authority.start r s).1
unfolding Authority.start current_attempt attempt_result
start-Forward r created = ground arith
start-Forward r _ = ground arith

enter_attempt-Forward : (b : Bool) (s : LifecyclePhase) → Forward s (Authority.enter_attempt b s).1
unfolding Authority.enter_attempt make_outcome
enter_attempt-Forward b (starting request authorized evidence) = ground arith
enter_attempt-Forward b _ = ground arith

adopt_attempt-Forward : (s : LifecyclePhase) → Forward s (Authority.adopt_attempt s).1
unfolding Authority.adopt_attempt make_outcome attempt_result current_attempt
adopt_attempt-Forward (starting request (producing a) evidence) = ground arith
adopt_attempt-Forward (terminating (some (producing a)) o) = ground arith
adopt_attempt-Forward _ = ground arith

observe_evidence-Forward :
    (n : String) (s : LifecyclePhase) → Forward s (Authority.observe_evidence n s).1
unfolding Authority.observe_evidence attempt_result current_attempt
observe_evidence-Forward n (starting request (owned a) evidence) = ground arith
observe_evidence-Forward n _ = ground arith

ready-Forward : (live b : Bool) (s : LifecyclePhase) → Forward s (Authority.ready live b s).1
unfolding Authority.ready make_outcome attempt_result current_attempt
ready-Forward live b (starting request (owned a) evidence) = ground arith
ready-Forward live b _ = ground arith

observe_child_exit-Forward :
    (n : ℤ) (s : LifecyclePhase) → Forward s (Authority.observe_child_exit n s).1
unfolding Authority.observe_child_exit make_outcome attempt_result with_child_result
observe_child_exit-Forward n (starting request (producing a) evidence) = ground arith
observe_child_exit-Forward n (starting request (owned a) evidence) = ground arith
observe_child_exit-Forward n (active request a) = ground arith
observe_child_exit-Forward n (terminating (some (producing a)) o) = ground arith
observe_child_exit-Forward n (terminating (some (owned a)) o) = ground arith
observe_child_exit-Forward n _ = ground arith

record_child_termination-Forward :
    (s : LifecyclePhase) → Forward s (Authority.record_child_termination s).1
unfolding Authority.record_child_termination attempt_result current_attempt
record_child_termination-Forward (terminating (some (producing a)) o) = ground arith
record_child_termination-Forward (terminating (some (owned a)) o) = ground arith
record_child_termination-Forward _ = ground arith

settle_attempt-Forward :
    (q d : Bool) (s : LifecyclePhase) → Forward s (Authority.settle_attempt q d s).1
unfolding Authority.settle_attempt attempt_result current_attempt
settle_attempt-Forward q d (starting request attempt evidence) = ground arith
settle_attempt-Forward q d (terminating (some attempt) o) = ground arith
settle_attempt-Forward q d _ = ground arith

freeze-Forward :
    (c : CleanupReport) (l : Option LogReport) (s : LifecyclePhase)
    → Forward s (Authority.freeze c l s).1
unfolding Authority.freeze make_snapshot attempt_result current_attempt
freeze-Forward c l (terminating attempt o) = ground arith
freeze-Forward c l _ = ground arith

step-Forward : (op : Operation) (s : LifecyclePhase) → Forward s (step op s)
unfolding step
step-Forward (Operation.start r) s = start-Forward r s
step-Forward (Operation.enter_attempt b) s = enter_attempt-Forward b s
step-Forward Operation.adopt_attempt s = adopt_attempt-Forward s
step-Forward (Operation.observe_evidence n) s = observe_evidence-Forward n s
step-Forward (Operation.ready live b) s = ready-Forward live b s
step-Forward (Operation.observe_child_exit n) s = observe_child_exit-Forward n s
step-Forward Operation.record_child_termination s = record_child_termination-Forward s
step-Forward (Operation.settle_attempt q d) s = settle_attempt-Forward q d s
step-Forward (Operation.terminate t f) s = terminate-Forward t f s
step-Forward (Operation.freeze c l) s = freeze-Forward c l s

run-Forward : (s : LifecyclePhase) (ops : List Operation) → Forward s (run s ops)
unfolding run
run-Forward s [] = ground arith
run-Forward s (op ∷ ops) =
    let here = step-Forward op s in
    let later = run-Forward (step op s) ops in (omega arith, λ r h. later.1 r (here.1 r h))

-- Over any calls a child result that was once recorded is never lost or replaced.
pub run-HasResult :
    (s : LifecyclePhase) (ops : List Operation) (r : ChildResult)
    → HasResult s r
    → HasResult (run s ops) r
run-HasResult s ops r h = (run-Forward s ops).1 r h

-- What a call adds to the local diagnostics of a closed session.
added : Option Attempt → Operation → List Diagnostic
added a (Operation.terminate t (some f)) =
    if is_child_exit t && is_none (attempt_result a) then [] else f ∷ []
added a _ = []

step-closed :
    (a : Option Attempt) (sn : TerminalSnapshot) (l : List Diagnostic) (op : Operation)
    → step op (closed a sn l) ≡ closed a sn (l ++ added a op)
unfolding step added Authority.start Authority.terminate Authority.enter_attempt
    Authority.adopt_attempt Authority.observe_evidence Authority.ready Authority.observe_child_exit
    Authority.record_child_termination Authority.settle_attempt Authority.freeze make_outcome
step-closed a sn l (Operation.terminate t none) = ground (arith, append-nil l)
step-closed a sn l (Operation.terminate t (some f)) = ground (arith, append-nil l)
step-closed a sn l _ = ground (arith, append-nil l)

-- A closed session stays closed with the snapshot that it froze, whatever is called: calls only
-- append local diagnostics.
pub run-closed :
    (a : Option Attempt) (sn : TerminalSnapshot) (l : List Diagnostic) (ops : List Operation)
    → (l' : List Diagnostic) × (run (closed a sn l) ops ≡ closed a sn (l ++ l'))
unfolding run
run-closed a sn l [] = ([], rw append-nil)
run-closed a sn l (op ∷ ops) =
    let (l', e) = run-closed a sn (l ++ added a op) ops in
    (added a op ++ l', rw (step-closed a sn l op, ← append_assoc) e)

-- `observe_child_exit` raises nothing at a phase that satisfies the invariant. It returns `True`
-- exactly where a producing or owned attempt has no result and the session is not closed, and then
-- the status is the child's result, marked with the attempt's own record of a cleanup signal;
-- elsewhere the result on record stays.
pub observe_child_exit_lem :
    (n : ℤ) (s : LifecyclePhase)
    → Inv s
    → (Authority.observe_child_exit n s).0 ≡ ok (awaits_exit s)
      × (attempt_result (current_attempt (Authority.observe_child_exit n s).1)
          ≡ (if awaits_exit s then some (exit_result n s) else attempt_result (current_attempt s)))
unfolding Authority.observe_child_exit make_outcome attempt_result with_child_result running
observe_child_exit_lem n (starting request (producing a) evidence) h = ground arith
observe_child_exit_lem n (starting request (owned a) evidence) h = ground arith
observe_child_exit_lem n (active request a) h = ground arith
observe_child_exit_lem n (terminating (some (producing a)) o) h = ground arith
observe_child_exit_lem n (terminating (some (owned a)) o) h = ground arith
observe_child_exit_lem n _ h = ground arith
