-- ===== src/Helper/Recording.antt =====
-- The methods of `HelperSession` that report facts to the lifecycle, as actions on the session.
use Prim.Native.String.{String}
use zephyr_remote_openocd.Shared.{
  ℕ, ℤ, Bool, true, false, not, ◌&&◌, ◌||◌, Option, none, some, List, [], ◌∷◌, ◌++◌, if◌then◌else◌,
  string_eq, nat_beq, is_some, any, ◌==◌, Error, Result, ok, raised, Exec, pure, ◌>>=◌, ◌>>◌,
}
use zephyr_remote_openocd.Outcome.{
  is_live_server, Trigger, controller_eof, signal, startup_failure, protocol_failure,
  output_failure, helper_failure, diagnostic, Details,
}
use zephyr_remote_openocd.Lifecycle.{StartupRequest, LifecyclePhase, starting}
use zephyr_remote_openocd.Lifecycle.Authority
use zephyr_remote_openocd.Relay.{LogRelay, read_failed, progress}
use zephyr_remote_openocd.Helper.{Child, ObservationFailed, System, HelperSession}

abbrev pub handled : {S A : Type 0} → Result A → S → (Error → Exec S A) → Result A × S
handled (ok a) s handler = (ok a, s)
handled (raised e) s handler = handler e s

-- `try: m; except BaseException as error: handler(error)`
abbrev pub attempt : {S A : Type 0} → Exec S A → (Error → Exec S A) → Exec S A
attempt m handler s = handled (m s).0 (m s).1 handler

-- A statement that writes fields and raises nothing
abbrev pub update : {S : Type 0} → (S → S) → Exec S (Unit {0})
update f s = (ok tt, f s)

-- `if test: m`
abbrev pub when : {S : Type 0} → Bool → Exec S (Unit {0}) → Exec S (Unit {0})
when true m s = m s
when false m s = (ok tt, s)

-- A statement that reads fields
abbrev pub ask : {S A : Type 0} → (S → Exec S A) → Exec S A
ask m s = m s s

-- A call of the lifecycle authority, whose result is left aside
abbrev pub authority : {S A : Type 0} → Exec LifecyclePhase A → Exec (HelperSession S) A
authority m s = ((m s.lifecycle).0, record s { lifecycle = (m s.lifecycle).1 })

-- A call of the system
abbrev pub call : {S A : Type 0} → (S → Result A × S) → Exec (HelperSession S) A
call f s = ((f s.system).0, record s { system = (f s.system).1 })

abbrev pub call_ : {S : Type 0} → (S → S) → Exec (HelperSession S) (Unit {0})
call_ f s = (ok tt, record s { system = f s.system })

-- `isinstance(state, Starting)` and its request
abbrev pub starting_request : LifecyclePhase → Option StartupRequest
starting_request (starting request attempt evidence) = some request
starting_request _ = none

abbrev pub option_map : {A B : Type 0} → (A → B) → Option A → Option B
option_map f none = none
option_map f (some x) = some (f x)

abbrev pub is_starting : LifecyclePhase → Bool
is_starting phase = is_some (starting_request phase)

abbrev pub is_starting_server : LifecyclePhase → Bool
is_starting_server phase = elim (starting_request phase) [
  | none ↦ false
  | some request ↦ is_live_server request.completion_policy
]

-- `failure.child.output_finished.add(failure.source)`
unfoldable pub output_finished_add : String → Child → Child
output_finished_add name child =
    if name == "stdout"
    then record child { stdout = true }
    else if name == "stderr"
    then record child { stderr = true }
    else child

abbrev pub failure_trigger : String → Trigger
failure_trigger source =
    if source == "control"
    then protocol_failure
    else if source == "protocol output"
    then output_failure
    else helper_failure

-- `del self._observation_failures[task]`
abbrev pub without : ℕ → List ObservationFailed → List ObservationFailed
without task [] = []
without task (f ∷ fs) = if nat_beq f.task task then without task fs else f ∷ without task fs

module _ {S : Type 0} (sys : System S) where
  -- `_failure`
  unfoldable pub lifecycle_failure : Trigger → String → Error → Exec (HelperSession S) (Unit {0})
  lifecycle_failure trigger code error =
      authority (Authority.terminate trigger (some (sys.from_exception code error)))

  -- `_cleanup_failure`
  unfoldable pub cleanup_failure : Error → Exec (HelperSession S) (Unit {0})
  cleanup_failure error = do
    update (λ s. record s { cleanup_errors = s.cleanup_errors ++ (error ∷ []) })
    lifecycle_failure helper_failure "CLEANUP_FAILURE" error

  abbrev pub log_progress_of : Option LogRelay → Exec (HelperSession S) (Unit {0})
  log_progress_of none s = (ok tt, s)
  log_progress_of (some relay) s = (
    ok tt,
    record s {
      log = some (progress sys.writer relay s.system).0;
      system = (progress sys.writer relay s.system).1;
    },
  )

  -- `_log_progress`
  unfoldable pub log_progress : Exec (HelperSession S) (Unit {0})
  log_progress = ask (λ s. log_progress_of s.log)

  -- The rest of `_observation_failed`, for a failure that was on record and is of the own child.
  unfoldable pub observation_failed_here : ObservationFailed → Exec (HelperSession S) (Unit {0})
  observation_failed_here failure = do
    when failure.of_child
        (update (λ s. record s { child = option_map (output_finished_add failure.source) s.child }))
    when (failure.source == "log") (do
      update (λ s. record s { log = option_map (read_failed failure.exception) s.log })
      log_progress)
    lifecycle_failure (failure_trigger failure.source) "OBSERVER_FAILURE" failure.exception

  -- `_observation_failed`
  unfoldable pub observation_failed : ObservationFailed → Exec (HelperSession S) (Unit {0})
  observation_failed failure = ask (λ s.
      when (any s.observation_failures (λ f. nat_beq f.task failure.task)) (do
        update
            (λ s. record s { observation_failures = without failure.task s.observation_failures })
        when (not failure.of_child || is_some s.child) (observation_failed_here failure)))

  unfoldable pub each_failed : List ObservationFailed → Exec (HelperSession S) (Unit {0})
  each_failed [] = pure tt
  each_failed (failure ∷ rest) = do observation_failed failure; each_failed rest

  unfoldable pub account_signal : Option ℕ → Exec (HelperSession S) (Unit {0})
  account_signal none = pure tt
  account_signal (some signum) = ask (λ s. when (not s.signal_accounted) (do
    update (λ s. record s { signal_accounted = true })
    authority (
        Authority.terminate signal
          (some (diagnostic "REMOTE_SIGNAL" (sys.signal_text signum) Details.nil)))))

  unfoldable pub account_lease_loss : Exec (HelperSession S) (Unit {0})
  account_lease_loss = ask (λ s. when (s.lease_lost && not s.lease_loss_accounted) (do
    update (λ s. record s { lease_loss_accounted = true })
    authority (
        Authority.terminate controller_eof (
          some (
            diagnostic "CONTROLLER_LEASE_LOST" "controller input ended without RELEASE"
              Details.nil)))))

  unfoldable pub account_recorded_failures : Exec (HelperSession S) (Unit {0})
  account_recorded_failures = do
    ask (λ s. account_signal s.pending_signum)
    account_lease_loss
    ask (λ s. each_failed s.observation_failures)

  -- `_record_exit`
  unfoldable pub record_exit : Child → ℤ → Exec (HelperSession S) (Unit {0})
  record_exit child returncode = do
    when child.termination_requested (do authority Authority.record_child_termination; pure tt)
    observed ← authority (Authority.observe_child_exit returncode)
    ask (λ s. when (observed && is_starting_server s.lifecycle) (
        authority (
          Authority.terminate startup_failure
            (some (diagnostic "STARTUP_EXIT" (sys.exit_text (some returncode)) Details.nil)))))
