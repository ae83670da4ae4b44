-- ===== src/Helper/Release.antt =====
-- The cleanup of a session in helper/_session.py: what is closed, when the workspace is removed, and
-- the two reports that the terminal snapshot is made of.
use Prim.Native.String.{String}
use zephyr_remote_openocd.Shared.{
  Bool, true, false, not, ◌&&◌, ◌||◌, Option, none, some, List, [], ◌∷◌, ◌++◌, if◌then◌else◌,
  is_none, any, Exec, pure, lift, ◌>>=◌, ◌>>◌, runtime_error, ℤ,
}
use zephyr_remote_openocd.Outcome.{
  ResidualResource, child_producer, child_group, child_relays, address_lease, workspace,
  workspace_metadata, ChildDisposal, WorkspaceDisposal, is_workspace_residual, child_unconfirmed,
  CleanupReport, make_cleanup, LogReport, make_log_report, TerminalSnapshot,
}
use zephyr_remote_openocd.Lifecycle.Authority
use zephyr_remote_openocd.Relay.{LogRelay}
use zephyr_remote_openocd.Relay
use zephyr_remote_openocd.Helper.{
  ChildAcquisition, ChildSettlement, settlement_confirmed, Place, work, lease, closure, System,
  HelperSession, Request,
}
use zephyr_remote_openocd.Helper.Recording.{
  attempt, update, when, ask, authority, call, cleanup_failure, account_recorded_failures,
}

abbrev pub settled_and_confirmed : Option ChildSettlement → Bool
settled_and_confirmed none = false
settled_and_confirmed (some c) = settlement_confirmed c

abbrev pub log_requested : Option Request → Bool
log_requested none = false
log_requested (some request) = request.uses_log_spool

-- `_child_disposed`
unfoldable pub child_disposed : Option ChildAcquisition → Option ChildSettlement → Bool
child_disposed none settlement = true
child_disposed (some owner) settlement =
    owner.producer_quiescent
    && (is_none owner.process || (owner.rollback_confirmed || settled_and_confirmed settlement))

-- `self._child_disposed() and self._address_lease is None`
abbrev pub dependents_gone : {S : Type 0} → HelperSession S → Bool
dependents_gone s = child_disposed s.acquisition s.settlement && not s.address_lease

-- The residual resources of the child, in the order of `_cleanup_report`.
unfoldable pub child_residuals :
    Option ChildAcquisition → Option ChildSettlement → Bool → List ResidualResource
child_residuals owner settlement leased =
    let group_left : Bool = elim settlement [ none ↦ true | some c ↦ not c.group_disposed ] in
    let relays_left : Bool = elim settlement [
      | none ↦ true
      | some c ↦ not (c.observers_settled && c.pipes_closed)
    ] in
    let childless : Bool = elim owner [ none ↦ false | some o ↦ is_none o.child ] in
    let producing : Bool = elim owner [ none ↦ false | some o ↦ not o.producer_quiescent ] in
    (if producing then child_producer ∷ [] else [])
    ++ ((if child_disposed owner settlement
          then []
          else (if childless || group_left then child_group ∷ [] else [])
            ++ (if relays_left then child_relays ∷ [] else []))
        ++ (if leased then address_lease ∷ [] else []))

abbrev pub child_status : List ResidualResource → Bool → ChildDisposal
child_status [] acquired = if acquired then ChildDisposal.confirmed else ChildDisposal.not_acquired
child_status (r ∷ rs) acquired = ChildDisposal.unconfirmed

abbrev pub workspace_status : List ResidualResource → WorkspaceDisposal
workspace_status residuals =
    if any residuals is_workspace_residual
    then WorkspaceDisposal.unconfirmed
    else WorkspaceDisposal.confirmed

module _ {S : Type 0} (sys : System S) where
  -- `_close_address_lease`
  unfoldable pub close_address_lease : Exec (HelperSession S) (Unit {0})
  close_address_lease = ask (λ s. when s.address_lease (
      attempt (do call sys.close_lease; update (λ s. record s { address_lease = false }))
        (cleanup_failure sys)))

  -- `_close_readiness`
  unfoldable pub close_readiness : Exec (HelperSession S) (Unit {0})
  close_readiness =
      ask (λ s. when s.readiness (attempt (call sys.close_readiness) (cleanup_failure sys)))

  unfoldable pub close_relay : Exec (HelperSession S) Bool
  close_relay = do
    attempt (call sys.close_log) (cleanup_failure sys)
    ask (λ s. pure (not (sys.log_open s.system)))

  -- `_close_log_channel`
  unfoldable pub close_log_channel : Exec (HelperSession S) Bool
  close_log_channel = ask (λ s.
      if is_none s.log
      then pure true
      else if sys.log_reader_done s.system
      then close_relay
      else (do cleanup_failure sys (runtime_error "log relay reader did not stop"); pure false))

  -- `retaining workspace for …`
  unfoldable pub retain : String → Exec (HelperSession S) (Unit {0})
  retain text = do call sys.close_admission; cleanup_failure sys (runtime_error text)

  unfoldable pub remove : Exec (HelperSession S) (Unit {0})
  remove = do attempt (call sys.unmark_child) (cleanup_failure sys); call sys.remove_workspace

  -- The body of the first `try` of `release_workspace`.
  unfoldable pub dispose_workspace : Bool → Exec (HelperSession S) (Unit {0})
  dispose_workspace log_closed = ask (λ s.
      if not log_closed
      then retain "retaining workspace for open log relay descriptors"
      else if dependents_gone s
      then remove
      else retain "retaining workspace for unconfirmed child disposal")

  -- `release_workspace`, the first time
  unfoldable pub release_once : Exec (HelperSession S) (Unit {0})
  release_once = do
    update (λ s. record s { resources_released = true })
    close_address_lease
    close_readiness
    log_closed ← close_log_channel
    attempt (dispose_workspace log_closed) (cleanup_failure sys)
    attempt (call sys.close_lock) (cleanup_failure sys)

  unfoldable pub release_workspace : Exec (HelperSession S) (Unit {0})
  release_workspace = ask (λ s. when (not s.resources_released) release_once)

  -- `_disposed_path`
  unfoldable pub disposed_path : Place → Exec (HelperSession S) Bool
  disposed_path place =
      attempt (call (sys.is_absent place)) (λ e. do cleanup_failure sys e; pure false)

  -- `not closed or not all(self._disposed_path(path) for path in …)`
  unfoldable pub metadata_left : Exec (HelperSession S) Bool
  metadata_left = ask (λ s. if not (sys.lock_closed s.system) then pure true else (do
    lease_gone ← disposed_path lease
    if lease_gone
        then (do closure_gone ← disposed_path closure; pure (not closure_gone))
        else pure true))

  unfoldable pub settle_owner : Option ChildAcquisition → Exec (HelperSession S) (Unit {0})
  settle_owner none = pure tt
  settle_owner (some owner) = ask (λ s.
      when (dependents_gone s)
        (do authority (Authority.settle_attempt owner.producer_quiescent true); pure tt))

  -- `_cleanup_report`
  unfoldable pub cleanup_report : Exec (HelperSession S) CleanupReport
  cleanup_report = do
    residuals ← ask (λ s. pure (child_residuals s.acquisition s.settlement s.address_lease))
    status ← ask (λ s. pure (child_status residuals s.child_acquired))
    gone ← disposed_path work
    left ← metadata_left
    ask (λ s. settle_owner s.acquisition)
    lift (
        let all_residuals =
          residuals
          ++ ((if gone then [] else workspace ∷ [])
              ++ (if left then workspace_metadata ∷ [] else [])) in
        make_cleanup status (workspace_status all_residuals) all_residuals)

  unfoldable pub relay_report : Option LogRelay → Bool → Exec (HelperSession S) (Option LogReport)
  relay_report none confirmed s =
      (do report ← lift (make_log_report (ℤ.pos 0) true none); pure (some report)) s
  relay_report (some relay) confirmed s =
      (do report ← lift (Relay.report confirmed relay).0; pure (some report))
        (record s { log = some (Relay.report confirmed relay).1 })

  -- `_log_report`
  unfoldable pub log_report : CleanupReport → Exec (HelperSession S) (Option LogReport)
  log_report cleanup = ask (λ s.
      if log_requested s.request
      then relay_report s.log (not (child_unconfirmed cleanup.child_disposal))
      else pure none)

  -- `_run_session_tasks` from the call of `release_workspace` to that of `freeze`.
  unfoldable pub end_session : Exec (HelperSession S) TerminalSnapshot
  end_session = do
    release_workspace
    cleanup ← cleanup_report
    account_recorded_failures sys
    log ← log_report cleanup
    authority (Authority.freeze cleanup log)
