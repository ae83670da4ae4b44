-- ===== src/Lifecycle/Readiness.antt =====
-- What a session has seen before it is active, and what a signalled exit status rests on.
use zephyr_remote_openocd.Shared.{
  String, ◌≡◌, refl, subst, any, Bool-cases, inl, inr, Bool, true, false, not, Option, none, some,
  List, [], ◌∷◌, ◌||◌, arith, subset, subset_trans, subset_weaken, subset-insert, string_eq,
}
use zephyr_remote_openocd.Outcome.{
  ChildResult, is_live_server, make_outcome, with_failure, with_child_result, make_snapshot,
}
use zephyr_remote_openocd.Lifecycle.{
  StartupRequest, Running, Attempt, authorized, producing, owned, settled, LifecyclePhase, created,
  starting, active, current_attempt, attempt_result,
}
use zephyr_remote_openocd.Lifecycle.Authority
use zephyr_remote_openocd.Lifecycle.Progress.{HasResult}
use zephyr_remote_openocd.Lifecycle.Steps.{Operation, step, run}

note : Operation → List String → List String
note (Operation.observe_evidence n) seen = n ∷ seen
note _ seen = seen

-- The evidence names that a sequence of calls reports, added to `seen`.
pub reported : List String → List Operation → List String
reported seen [] = seen
reported seen (op ∷ ops) = reported (note op seen) ops

abbrev Seen : List String → LifecyclePhase → Type 0
Seen seen (starting request attempt evidence) = subset evidence seen ≡ true
Seen seen (active request a) =
    (not (is_live_server request.completion_policy) || subset request.readiness_evidence seen)
    ≡ true
Seen seen _ = Unit

step-Seen :
    (op : Operation) (seen : List String) (s : LifecyclePhase)
    → Seen seen s
    → Seen (note op seen) (step op s)
unfolding step note Authority.start Authority.terminate Authority.enter_attempt
    Authority.adopt_attempt Authority.ready Authority.observe_child_exit
    Authority.record_child_termination Authority.settle_attempt Authority.freeze
    Authority.observe_evidence make_outcome with_failure with_child_result make_snapshot
step-Seen (Operation.ready live b) seen (starting request (owned a) evidence) h =
    ground (arith, subset_trans request.readiness_evidence evidence seen)
step-Seen (Operation.observe_evidence n) seen (starting request (owned a) evidence) h =
    ground (arith, subset_weaken n evidence seen, subset-insert n evidence seen)
step-Seen (Operation.observe_evidence n) seen (starting request a evidence) h =
    ground (arith, subset_weaken n evidence seen)
step-Seen (Operation.observe_evidence n) seen (active request a) h =
    ground (arith, subset_weaken n request.readiness_evidence seen)
step-Seen op seen s h = ground arith

run-Seen :
    (ops : List Operation) (seen : List String) (s : LifecyclePhase)
    → Seen seen s
    → Seen (reported seen ops) (run s ops)
unfolding run reported
run-Seen [] seen s h = h
run-Seen (op ∷ ops) seen s h = run-Seen ops (note op seen) (step op s) (step-Seen op seen s h)

-- A live-server session is active only after calls of `observe_evidence` for every evidence name of
-- its request.
pub active_needs_evidence :
    (ops : List Operation) (request : StartupRequest) (a : Running)
    → run created ops ≡ active request a
    → is_live_server request.completion_policy ≡ true
    → subset request.readiness_evidence (reported [] ops) ≡ true
active_needs_evidence ops request a e live =
    let seen = subst (Seen (reported [] ops)) e (run-Seen ops [] created tt) in ground arith

flagged : Option ChildResult → Bool
flagged none = false
flagged (some r) = r.termination_requested

signalled : Option Attempt → Bool
unfolding flagged
signalled none = false
signalled (some authorized) = false
signalled (some (producing a)) = a.termination_requested || flagged a.child_result
signalled (some (owned a)) = a.termination_requested || flagged a.child_result
signalled (some (settled r)) = flagged r

abbrev Unblamed : LifecyclePhase → Type 0
Unblamed s = signalled (current_attempt s) ≡ false

abbrev pub is_signal : Operation → Bool
is_signal Operation.record_child_termination = true
is_signal _ = false

step-Unblamed :
    (op : Operation) (s : LifecyclePhase) → is_signal op ≡ false → Unblamed s → Unblamed (step op s)
unfolding step signalled current_attempt Authority.start Authority.terminate Authority.enter_attempt
    Authority.adopt_attempt Authority.ready Authority.observe_child_exit
    Authority.record_child_termination Authority.settle_attempt Authority.freeze
    Authority.observe_evidence make_outcome with_failure with_child_result make_snapshot
step-Unblamed Operation.record_child_termination s k h = cc
step-Unblamed op s k h = ground arith

run-Unblamed :
    (ops : List Operation) (s : LifecyclePhase)
    → any ops is_signal ≡ false
    → Unblamed s
    → Unblamed (run s ops)
unfolding run
run-Unblamed [] s k h = h
run-Unblamed (op ∷ ops) s k h =
    run-Unblamed ops (step op s) (ground arith) (step-Unblamed op s (ground arith) h)

result-Unblamed :
    (a : Option Attempt) (r : ChildResult)
    → attempt_result a ≡ some r
    → signalled a ≡ false
    → r.termination_requested ≡ false
unfolding signalled attempt_result
result-Unblamed a r e h = ground arith

-- A child result is marked as requested only if a cleanup signal was reported by
-- `record_child_termination` among the calls.
pub requested_exit_needs_signal :
    (ops : List Operation) (r : ChildResult)
    → HasResult (run created ops) r
    → r.termination_requested ≡ true
    → any ops is_signal ≡ true
requested_exit_needs_signal ops r h requested = elim (Bool-cases (any ops is_signal)) [
  | inl e ↦ e
  | inr e ↦
      let silent = run-Unblamed ops created e (unfold signalled current_attempt in refl) in
      let natural = result-Unblamed (current_attempt (run created ops)) r h silent in ground arith
]
