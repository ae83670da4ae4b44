-- ===== src/Helper/Attempt.antt =====
-- The start of the one attempt of a session and the decision of its readiness in helper/_session.py.
use Prim.Native.String.{String}
use zephyr_remote_openocd.Shared.{
  ℤ, Bool, true, false, not, ◌&&◌, ◌||◌, Option, none, some, List, [], ◌∷◌, if◌then◌else◌, subset,
  string_eq, is_none, is_some, Error, Result, ok, raised, Exec, pure, raise, ◌>>=◌, ◌>>◌, string_eq,
}
use zephyr_remote_openocd.Outcome.{is_live_server, startup_failure, output_failure, helper_failure}
use zephyr_remote_openocd.Lifecycle.{LifecyclePhase, authorized, owned, starting}
use zephyr_remote_openocd.Lifecycle.Authority
use zephyr_remote_openocd.Relay.{LogRelay, confirm_disposal, cut}
use zephyr_remote_openocd.Helper.{
  Child, ChildAcquisition, Request, attempt as attempt_event, ready as ready_event, System,
  HelperSession,
}
use zephyr_remote_openocd.Helper.Recording.{
  attempt, update, when, ask, authority, call, call_, lifecycle_failure, cleanup_failure,
  is_starting, is_starting_server, option_map, output_finished_add, log_progress,
  account_recorded_failures, record_exit,
}

-- `isinstance(state, Starting) and isinstance(state.attempt, AuthorizedAttempt)`
abbrev pub is_authorized : LifecyclePhase → Bool
is_authorized (starting request authorized evidence) = true
is_authorized _ = false

-- The evidence is complete and the child, which is owned, has no result.
abbrev pub may_be_ready : LifecyclePhase → Bool
may_be_ready (starting request (owned a) evidence) =
    is_none a.child_result && subset request.readiness_evidence evidence
may_be_ready _ = false

abbrev pub requested_evidence : LifecyclePhase → List String
requested_evidence (starting request attempt evidence) = request.readiness_evidence
requested_evidence _ = []

abbrev pub has_any {ℓ} : {A : Type ℓ} → List A → Bool
has_any [] = false
has_any (x ∷ xs) = true

-- `ChildAcquisition.__init__`
abbrev pub fresh_owner : ChildAcquisition
fresh_owner = record {
  process = none;
  child = none;
  producer_quiescent = false;
  rollback_confirmed = false;
  termination_requested = false;
}

-- `self.child.termination_requested |= owner.termination_requested`
abbrev pub request_termination : ChildAcquisition → Child → Child
request_termination owner child = record child {
  termination_requested = child.termination_requested || owner.termination_requested;
}

-- `try: m; finally:` an assignment of fields
abbrev pub finally : {S A : Type 0} → Exec S A → (S → S) → Exec S A
finally m f s = ((m s).0, f (m s).1)

-- The assignments of the `finally` of `_start_attempt`.
unfoldable pub adopt_from :
    {S : Type 0} → Option ChildAcquisition → HelperSession S → HelperSession S
adopt_from none s = s
adopt_from (some owner) s = record s {
  acquisition = some (record owner { producer_quiescent = true });
  child_acquired = s.child_acquired || is_some owner.process;
  child = if is_none s.child then owner.child else s.child;
}

abbrev pub adopt_owner : {S : Type 0} → HelperSession S → HelperSession S
adopt_owner s = adopt_from s.acquisition s

module _ {S : Type 0} (sys : System S) where
  -- `_log_disposal` of a relay that has no decision yet
  unfoldable pub dispose_log : Bool → LogRelay → Exec (HelperSession S) (Unit {0})
  dispose_log confirmed relay = do
    if not confirmed
        then (do update (λ s. record s { log = option_map cut s.log }); call_ sys.cancel_log_reader)
        else when (not relay.disposal_confirmed) (do
          update (λ s. record s { log = option_map confirm_disposal s.log })
          attempt (call sys.confirm_log) (cleanup_failure sys))
    log_progress sys

  abbrev pub undecided : Option LogRelay → Option LogRelay
  undecided none = none
  undecided (some relay) = if is_none relay.decision then some relay else none

  unfoldable pub dispose_undecided : Bool → Option LogRelay → Exec (HelperSession S) (Unit {0})
  dispose_undecided confirmed none = pure tt
  dispose_undecided confirmed (some relay) = dispose_log confirmed relay

  -- `_log_disposal`
  unfoldable pub log_disposal : Bool → Exec (HelperSession S) (Unit {0})
  log_disposal confirmed = ask (λ s. dispose_undecided confirmed (undecided s.log))

  -- `_create_workspace_entries`
  unfoldable pub create_workspace_entries : Request → Exec (HelperSession S) (Unit {0})
  create_workspace_entries request = do
    when (is_live_server request.startup.completion_policy)
        (do call sys.create_readiness; update (λ s. record s { readiness = true }))
    when request.uses_log_spool (do
      relay ← call sys.create_log
      update (λ s. record s { log = some relay })
      call (sys.create_task "log")
      ask (λ s.
          when (is_some (sys.writer.log_pending s.system)) (call (sys.create_task "log credit"))))

  -- One round of the loop of `_start_output_observers`: the error, if any, is kept for its end.
  unfoldable pub start_output_observer : String → Exec (HelperSession S) (Option Error)
  start_output_observer name =
      attempt
        (do
          closed ← call (sys.start_output_observer name)
          when closed
              (update (λ s. record s { child = option_map (output_finished_add name) s.child }))
          pure none)
        (λ e. do
          update (λ s. record s { child = option_map (output_finished_add name) s.child })
          pure (some e))

  -- `raise_cleanup_errors`, which adds the second error to the first as a note
  abbrev pub raise_first : Option Error → Option Error → Exec (HelperSession S) (Unit {0})
  raise_first none none = pure tt
  raise_first none (some e) = raise e
  raise_first (some e) second = raise e

  -- `_start_output_observers`
  unfoldable pub start_output_observers : Exec (HelperSession S) (Unit {0})
  start_output_observers = do
    first ← start_output_observer "stdout"
    second ← start_output_observer "stderr"
    raise_first first second

  unfoldable pub observe_all : List String → Exec (HelperSession S) (Unit {0})
  observe_all [] = pure tt
  observe_all (name ∷ names) = do authority (Authority.observe_evidence name); observe_all names

  unfoldable pub go_on : Option (List String) → Exec (HelperSession S) Bool
  go_on none = pure false
  go_on (some names) = do observe_all names; pure true

  -- The part of `_ready` that reads the artifact; it says whether to go on.
  unfoldable pub read_evidence : List String → Exec (HelperSession S) Bool
  read_evidence names = ask (λ s. if not s.readiness then pure false else (do
    observed ←
        attempt (do names ← call (sys.read_evidence names); pure (some names))
          (λ e. do lifecycle_failure sys helper_failure "READINESS_ARTIFACT_FAILURE" e; pure none)
    go_on observed))

  -- The body of `with self._signal_scope.commit()` and what follows it.
  unfoldable pub commit_ready : Exec (HelperSession S) (Unit {0})
  commit_ready = do
    account_recorded_failures sys
    ask (λ s. when (is_starting s.lifecycle) (do
      admitted ←
          attempt (do call (sys.emit ready_event); pure true)
            (λ e. do lifecycle_failure sys output_failure "READY_ADMISSION" e; pure false)
      when admitted (do authority (Authority.ready true true); call_ sys.cancel_deadline)))

  unfoldable pub exit_or_ready : Child → Option ℤ → Exec (HelperSession S) (Unit {0})
  exit_or_ready child none = commit_ready
  exit_or_ready child (some returncode) = record_exit sys child returncode

  unfoldable pub decide_ready : Child → Exec (HelperSession S) (Unit {0})
  decide_ready child = ask (λ s.
      when (may_be_ready s.lifecycle)
        (do returncode ← call sys.poll; exit_or_ready child returncode))

  unfoldable pub ready_child : Option Child → Exec (HelperSession S) (Unit {0})
  ready_child none = pure tt
  ready_child (some child) = ask (λ s. when (is_starting_server s.lifecycle) (do
    proceed ←
        if has_any (requested_evidence s.lifecycle)
        then read_evidence (requested_evidence s.lifecycle)
        else pure true
    when proceed (decide_ready child)))

  -- `_ready`
  unfoldable pub ready : Exec (HelperSession S) (Unit {0})
  ready = do account_recorded_failures sys; ask (λ s. ready_child s.child)

  -- The assignment of the result of `spawn_child`
  abbrev pub spawn_result : Result Child → Exec (HelperSession S) (Unit {0})
  spawn_result (ok child) s = (ok tt, record s { child = some child })
  spawn_result (raised e) s = (raised e, s)

  unfoldable pub spawn_child : Exec (HelperSession S) (Unit {0})
  spawn_child s =
      spawn_result (sys.spawn s.system).0.0
        (record s { system = (sys.spawn s.system).1; acquisition = some (sys.spawn s.system).0.1 })

  -- The exit of a process that ended before it was adopted
  unfoldable pub observe_result :
      ChildAcquisition → Option (Option ℤ) → Exec (HelperSession S) (Unit {0})
  observe_result owner none = pure tt
  observe_result owner (some none) = pure tt
  observe_result owner (some (some returncode)) = do
    when owner.termination_requested (do authority Authority.record_child_termination; pure tt)
    authority (Authority.observe_child_exit returncode)
    pure tt

  -- No child came out of the spawn.
  unfoldable pub childless : ChildAcquisition → Exec (HelperSession S) (Unit {0})
  childless owner = do
    observe_result owner owner.process
    log_disposal (is_none owner.process || owner.rollback_confirmed)

  unfoldable pub adopt_child : Request → ChildAcquisition → Exec (HelperSession S) (Unit {0})
  adopt_child request owner = do
    update (λ s. record s { child = option_map (request_termination owner) s.child })
    authority Authority.adopt_attempt
    start_output_observers
    call (sys.create_task "child exit")
    ask (λ s.
        when (is_live_server request.startup.completion_policy && is_starting s.lifecycle)
          (do call (sys.create_task "readiness deadline"); ready))

  unfoldable pub spawned :
      Request → Option ChildAcquisition → Bool → Exec (HelperSession S) (Unit {0})
  spawned request none has_child = pure tt
  spawned request (some owner) true = adopt_child request owner
  spawned request (some owner) false = childless owner

  -- `_start_attempt` from the creation of the owner
  unfoldable pub acquire_child : Request → Exec (HelperSession S) (Unit {0})
  acquire_child request = do
    update (λ s. record s { acquisition = some fresh_owner })
    finally
        (attempt (do call sys.mark_child; spawn_child)
          (lifecycle_failure sys startup_failure "SPAWN_FAILURE"))
        adopt_owner
    ask (λ s. spawned request s.acquisition (is_some s.child))

  unfoldable pub admit_attempt : Request → Exec (HelperSession S) (Unit {0})
  admit_attempt request = do
    admitted ←
        attempt (do call (sys.emit attempt_event); pure true)
          (λ e. do lifecycle_failure sys output_failure "ATTEMPT_ADMISSION" e; pure false)
    when admitted (do
      entered ← authority (Authority.enter_attempt true)
      when entered (acquire_child request))

  unfoldable pub prepare_attempt : Request → Exec (HelperSession S) (Unit {0})
  prepare_attempt request = do
    address ← call (sys.allocate request)
    update (λ s. record s { address_lease = true; address = address })
    call sys.materialize
    call sys.check_paths
    create_workspace_entries request
    account_recorded_failures sys
    ask (λ s. when (is_starting s.lifecycle) (admit_attempt request))

  -- `_start_attempt`
  unfoldable pub start_attempt : Request → Exec (HelperSession S) (Unit {0})
  start_attempt request = do
    account_recorded_failures sys
    ask (λ s. when (is_authorized s.lifecycle) (prepare_attempt request))
