-- ===== src/Helper/Tests.antt =====
-- A session that ends while its address lease cannot be closed, and one that ends without a failure.
use zephyr_remote_openocd.Shared.{
  ◌≡◌, refl, arith, ℕ, suc, ◌+◌, leb, if◌then◌else◌, Bool, true, false, not, Option, none, some, [],
  Result, ok, raised, os_error, value_error, ℤ, ◌⊎◌,
}
use zephyr_remote_openocd.Outcome.{
  live_server, needs_failure, is_child_exit, controller_eof, diagnostic, Details, Outcome,
  child_unconfirmed, cleanup_confirmed,
}
use zephyr_remote_openocd.Outcome.Failures.{IsValid}
use zephyr_remote_openocd.Lifecycle.{
  starting, authorized, current_attempt, Attempt, owned, terminating, closed, attempt_result,
}
use zephyr_remote_openocd.Relay.Writer.{LogWriter}
use zephyr_remote_openocd.Helper.{
  ChildAcquisition, ChildSettlement, Place, work, lease, closure, System, HelperSession, Request,
  new,
}
use zephyr_remote_openocd.Lifecycle.Authority.{is_unsettled}
use zephyr_remote_openocd.Helper.Logic.{Raises, Returns, Holds}
use zephyr_remote_openocd.Helper.Attempt.{start_attempt}
use zephyr_remote_openocd.Helper.Consistent.{Consistent}
use zephyr_remote_openocd.Helper.Owning.{Spawns}
use zephyr_remote_openocd.Helper.Spawning.{start_attempt-Consistent}
use zephyr_remote_openocd.Helper.Workspace.{
  held, busy, Lookup, found, missing, Files, workspace_lease_timeout, acquire_lease, on_files,
}
use zephyr_remote_openocd.Helper.Workspace.Disposal.{Documented, workspace_laws, acquire_lease-ends}
use zephyr_remote_openocd.Helper.Release.{dependents_gone, release_workspace, end_session}
use zephyr_remote_openocd.Helper.Freeze.{unreportable}
use zephyr_remote_openocd.Helper.Terminating.{is_noted}
use zephyr_remote_openocd.Helper.Snapshot.{Over, release_workspace-keeps, end_session-snapshot}

-- Whether the workspace, its lease and its closure are there, whether the lock file is closed, and the
-- clock
record Disk : Type 0 where
  workspace : Bool
  leased : Bool
  closed_off : Bool
  unlocked : Bool
  clock : ℕ

abbrev there : Place → Disk → Bool
there work s = s.workspace
there lease s = s.leased
there closure s = s.closed_off

abbrev removed : Place → Disk → Disk
removed work s = record s { workspace = false }
removed lease s = record s { leased = false }
removed closure s = record s { closed_off = false }

abbrev look : Bool → Lookup
look true = found
look false = missing

-- A stage holds the lease at the first poll.
abbrev disk : Files Disk
disk = record {
  open_closure = λ s. (ok tt, record s { closed_off = true });
  open_lease = λ s. (ok tt, record s { leased = true });
  close_lease = λ s. (ok tt, s);
  flock = λ s. (if leb 50000000 s.clock then held else busy, s);
  monotonic = λ s. s.clock;
  sleep = λ n s. (ok tt, record s { clock = s.clock + n });
  rmtree = λ s. (look s.workspace, record s { workspace = false });
  unlink = λ p s. (ok tt, removed p s);
  lstat = λ p s. (look (there p s), s);
}

abbrev fresh : Disk
fresh = record { workspace = true; leased = true; closed_off = false; unlocked = false; clock = 0 }

removed-gone : (p : Place) (s : Disk) → there p (removed p s) ≡ false
removed-gone work s = refl
removed-gone lease s = refl
removed-gone closure s = refl

removed-creates : (p q : Place) (s : Disk) → there q s ≡ false → there q (removed p s) ≡ false
removed-creates work work s h = refl
removed-creates work lease s h = h
removed-creates work closure s h = h
removed-creates lease work s h = h
removed-creates lease lease s h = refl
removed-creates lease closure s h = h
removed-creates closure work s h = h
removed-creates closure lease s h = h
removed-creates closure closure s h = refl

unlocked-keeps : (p : Place) (s : Disk) → there p (record s { unlocked = true }) ≡ there p s
unlocked-keeps work s = refl
unlocked-keeps lease s = refl
unlocked-keeps closure s = refl

look-found : (b : Bool) → look b ≡ found → b ≡ true
look-found b h = ground arith

look-missing : (b : Bool) → look b ≡ missing → b ≡ false
look-missing b h = ground arith

acquire_lease-ends_example :
    acquire_lease disk (suc 200) (0 + workspace_lease_timeout) fresh
    ≡ acquire_lease disk 101 (0 + workspace_lease_timeout) fresh
acquire_lease-ends_example =
    acquire_lease-ends disk (λ s. omega arith) (λ n s h. omega arith) 200 fresh (omega arith)

abbrev refused : Result (Unit {0})
refused = raised (os_error "closed")

never_ok : ¬ (refused ≡ ok tt)
never_ok h = ground arith

abbrev broken : LogWriter Disk
broken = record {
  log_pending = λ s. none;
  emit_log = λ n bytes s. (raised (os_error "closed"), s);
  between = λ b s. s;
  events = λ s. [];
  emit_log-ok = λ n bytes s h. absurd (never_ok h);
  emit_log-raised = λ n bytes s e h. refl;
  between-events = λ b s. refl;
}

abbrev acquired : ChildAcquisition
acquired = record {
  process = some (some (ℤ.negsuc 14));
  child = none;
  producer_quiescent = true;
  rollback_confirmed = false;
  termination_requested = false;
}

abbrev settlement : ChildSettlement
settlement = record {
  producer_quiescent = true;
  group_disposed = true;
  observers_settled = true;
  pipes_closed = true;
}

-- The lease of the address cannot be closed; all other calls return.
abbrev toy : System Disk
toy = record {
  from_exception = λ code error. diagnostic code "failed" Details.nil;
  signal_text = λ n. "helper received a signal";
  exit_text = λ status. "child exited before READY";
  writer = broken;
  emit = λ event s. (ok tt, s);
  create_task = λ name s. (ok tt, s);
  allocate = λ request s. (ok "127.0.0.1", s);
  materialize = λ s. (ok tt, s);
  start_output_observer = λ name s. (ok false, s);
  check_paths = λ s. (ok tt, s);
  create_readiness = λ s. (ok tt, s);
  create_log = λ s. (raised (os_error "no channel"), s);
  mark_child = λ s. (ok tt, s);
  spawn = λ s. ((raised (os_error "no child"), acquired), s);
  poll = λ s. (ok none, s);
  read_evidence = λ names s. (ok [], s);
  cancel_log_reader = λ s. s;
  cancel_deadline = λ s. s;
  close_lease = λ s. (raised (os_error "bad descriptor"), s);
  close_readiness = λ s. (ok tt, s);
  confirm_log = λ s. (ok tt, s);
  log_reader_done = λ s. true;
  log_open = λ s. false;
  close_log = λ s. (ok tt, s);
  close_streams = λ s. (ok tt, s);
  tasks_done = λ s. true;
  streams_closed = λ s. true;
  close_admission = λ s. (ok tt, s);
  unmark_child = λ s. (ok tt, s);
  remove_workspace = λ s. (ok tt, s);
  close_lock = λ s. (ok tt, record s { unlocked = true });
  lock_closed = λ s. s.unlocked;
  is_absent = λ place s. (ok false, s);
}

abbrev toy_files : Documented disk toy
toy_files = record {
  there = there;
  rmtree-found = λ s e. refl;
  unlink-ok = λ p s e. removed-gone p s;
  unlink-creates = removed-creates;
  close-keeps = λ p s. refl;
  open_closure-keeps = λ s. refl;
  lstat-found = λ p s e. look-found (there p s) e;
  lstat-missing = λ p s e. look-missing (there p s) e;
  lstat-keeps = λ p q s. refl;
  lstat-lock = λ q s. refl;
  address-keeps = λ s. refl;
  readiness-keeps = λ s. refl;
  log-keeps = λ s. refl;
  lock-keeps = unlocked-keeps;
  lock-ok = λ s e. refl;
}

abbrev exited : Attempt
exited = owned (record {
  termination_requested = false;
  child_result = some (record { returncode = ℤ.negsuc 14; termination_requested = false });
})

abbrev ended : Outcome
ended = record {
  trigger = controller_eof;
  primary_failure = none;
  diagnostics = [];
  child_result = attempt_result (some exited);
}

-- The child has exited and is settled; the lease is held or not.
abbrev over : Bool → HelperSession Disk
over leased = record (new fresh) {
  lifecycle = terminating (some exited) ended;
  acquisition = some acquired;
  settlement = some settlement;
  child_acquired = true;
  address_lease = leased;
}

ended-IsValid : IsValid ended
unfolding needs_failure is_child_exit attempt_result
ended-IsValid = record { failure_given = λ e. absurd (ground arith); result_given = λ e. refl }

over-Over :
    (leased : Bool) → Over (on_files disk toy) (workspace_laws disk toy toy_files) (over leased)
unfolding new attempt_result
over-Over leased = record {
  attempt = some exited;
  outcome = ended;
  phase = refl;
  agrees = record { valid = ended-IsValid; result = refl };
  unreleased = refl;
  there = refl;
  quiescent = refl;
  acquired = λ e. refl;
  owned = λ e. refl;
}

release_workspace-keeps_example :
    Returns (release_workspace (on_files disk toy) (over false)) (λ _ t.
      (o : Outcome) × (b : Option Attempt) × ((t.lifecycle ≡ terminating b o)
        × ((dependents_gone t ≡ false → there work t.system ≡ true)
            × (is_noted o ≡ false
                → (dependents_gone t ≡ true)
                  × (((p : Place) → there p t.system ≡ false) × (t.system.unlocked ≡ true))))))
release_workspace-keeps_example =
    release_workspace-keeps disk toy toy_files (over false) (over-Over false)

end_session-snapshot_example :
    Returns (end_session (on_files disk toy) (over true)) (λ snapshot t.
      ((b : Option Attempt) × (t.lifecycle ≡ closed b snapshot []))
      × ((child_unconfirmed snapshot.cleanup.child_disposal ≡ not (dependents_gone t))
          × ((cleanup_confirmed snapshot.cleanup ≡ false → is_noted snapshot.outcome ≡ true)
              × (unreportable t ≡ false))))
    ⊎ Raises
        (end_session (on_files disk toy) (over true))
        (value_error "a complete log requires confirmed or no child acquisition")
        (λ t.
          (unreportable t ≡ true)
          × ((b : Option Attempt) × (o : Outcome) × (t.lifecycle ≡ terminating b o)))
end_session-snapshot_example = end_session-snapshot disk toy toy_files (over true) (over-Over true)

toy-Spawns : Spawns toy
toy-Spawns = record { returned = λ child s e. refl; published = λ s e. refl }

abbrev request : Request
request = record {
  startup = record { completion_policy = live_server; readiness_evidence = [] };
  uses_log_spool = false;
}

-- START has been received.
abbrev begun : HelperSession Disk
begun = record (new fresh) {
  lifecycle = starting request.startup authorized [];
  request = some request;
}

begun-Consistent : Consistent false begun
unfolding new attempt_result current_attempt is_unsettled
begun-Consistent = record {
  acquired = λ e. absurd (ground arith);
  owned = λ e. absurd (ground arith);
  child = λ e. absurd (ground arith);
  known = λ e. absurd (ground arith);
}

-- The spawn fails after the process of the child exists.
start_attempt-Consistent_example : Holds (Consistent false) (start_attempt toy request begun)
start_attempt-Consistent_example =
    start_attempt-Consistent toy request toy-Spawns begun begun-Consistent
