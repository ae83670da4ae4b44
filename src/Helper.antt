-- ===== src/Helper.antt =====
-- `HelperSession` of helper/_session.py: its state, and the calls that it makes of the system.
mod Tests
pub mod Recording
pub mod Attempt
pub mod Calm
pub mod Consistent
pub mod Starting
pub mod Owning
pub mod Spawning
pub mod Release
pub mod Laws
pub mod Workspace
pub mod Logic
pub mod Reports
pub mod Terminating
pub mod Accounting
pub mod Ending
pub mod Released
pub mod Looking
pub mod Cleanup
pub mod Freeze
pub mod Snapshot
use Prim.Native.String.{String}
use zephyr_remote_openocd.Shared.{
  ℕ, ℤ, Bool, true, false, not, ◌&&◌, Option, none, some, List, [], Error, Result, ok, raised, Exec,
  ◌>>=◌, ◌>>◌,
}
use zephyr_remote_openocd.Outcome.{CompletionPolicy, Diagnostic}
use zephyr_remote_openocd.Lifecycle.{StartupRequest, LifecyclePhase, created}
use zephyr_remote_openocd.Relay.{LogRelay}
use zephyr_remote_openocd.Relay.Writer.{LogWriter}

-- What the coordinator reads of a `StartRequest`.
pub record Request : Type 0 where
  pub startup : StartupRequest
  pub uses_log_spool : Bool

-- `SupervisedProcess`: `stdout` and `stderr` say whether `output_finished` has the name.
pub record Child : Type 0 where
  pub returncode : Option ℤ
  pub stdout : Bool
  pub stderr : Bool
  pub group_disposed : Bool
  pub termination_requested : Bool

-- `ChildAcquisition`: `process` is the return code of the process, if there is one.
pub record ChildAcquisition : Type 0 where
  pub process : Option (Option ℤ)
  pub child : Option Child
  pub producer_quiescent : Bool
  pub rollback_confirmed : Bool
  pub termination_requested : Bool

pub record ChildSettlement : Type 0 where
  pub producer_quiescent : Bool
  pub group_disposed : Bool
  pub observers_settled : Bool
  pub pipes_closed : Bool

unfoldable pub settlement_confirmed : ChildSettlement → Bool
settlement_confirmed c =
    c.producer_quiescent && (c.group_disposed && (c.observers_settled && c.pipes_closed))

-- An entry of `_observation_failures`; `of_child` says that the failure names the child.
pub record ObservationFailed : Type 0 where
  pub task : ℕ
  pub source : String
  pub exception : Error
  pub of_child : Bool

pub data Place : Type 0 where
  work lease closure : Place

-- `streams.emit` with the kind of the event
pub data Event : Type 0 where
  attempt ready child_output : Event

-- `_child_cleanup`: not begun, a task, or its `GroupCleaned`
pub data ChildCleanup : Type 0 where
  idle running cleaned : ChildCleanup

-- The calls of the coordinator to the system and to the modules around it, on their state `S`.
pub record System (S : Type 0) : Type 0 where
  pub from_exception : String → Error → Diagnostic
  pub signal_text : ℕ → String
  pub exit_text : Option ℤ → String
  pub writer : LogWriter S
  pub emit : Event → S → Result (Unit {0}) × S
  pub create_task : String → S → Result (Unit {0}) × S
  pub allocate : Request → S → Result String × S
  pub materialize : S → Result (Unit {0}) × S
  pub start_output_observer : String → S → Result Bool × S
  pub check_paths : S → Result (Unit {0}) × S
  pub create_readiness : S → Result (Unit {0}) × S
  pub create_log : S → Result LogRelay × S
  pub mark_child : S → Result (Unit {0}) × S
  pub spawn : S → (Result Child × ChildAcquisition) × S
  pub poll : S → Result (Option ℤ) × S
  pub read_evidence : List String → S → Result (List String) × S
  pub cancel_log_reader : S → S
  pub cancel_deadline : S → S
  pub close_lease : S → Result (Unit {0}) × S
  pub close_readiness : S → Result (Unit {0}) × S
  pub confirm_log : S → Result (Unit {0}) × S
  pub log_reader_done : S → Bool
  pub log_open : S → Bool
  pub close_log : S → Result (Unit {0}) × S
  pub close_streams : S → Result (Unit {0}) × S
  pub tasks_done : S → Bool
  pub streams_closed : S → Bool
  pub close_admission : S → Result (Unit {0}) × S
  pub unmark_child : S → Result (Unit {0}) × S
  pub remove_workspace : S → Result (Unit {0}) × S
  pub close_lock : S → Result (Unit {0}) × S
  pub lock_closed : S → Bool
  pub is_absent : Place → S → Result Bool × S

-- The fields of the session.
pub record HelperSession (S : Type 0) : Type 0 where
  pub system : S
  pub lifecycle : LifecyclePhase
  pub request : Option Request
  pub child : Option Child
  pub acquisition : Option ChildAcquisition
  pub settlement : Option ChildSettlement
  pub child_acquired : Bool
  pub address_lease : Bool
  pub address : String
  pub cleanup_errors : List Error
  pub pending_signum : Option ℕ
  pub signal_accounted : Bool
  pub lease_lost : Bool
  pub lease_loss_accounted : Bool
  pub observation_failures : List ObservationFailed
  pub child_cleanup : ChildCleanup
  pub attempt_finished : Bool
  pub staging_closed : Bool
  pub resources_released : Bool
  pub output_available : Bool
  pub readiness : Bool
  pub log : Option LogRelay
  pub log_drain_started : Bool

-- `HelperSession.__init__`
unfoldable pub new : {S : Type 0} → S → HelperSession S
new system = record {
  system = system;
  lifecycle = created;
  request = none;
  child = none;
  acquisition = none;
  settlement = none;
  child_acquired = false;
  address_lease = false;
  address = "";
  cleanup_errors = [];
  pending_signum = none;
  signal_accounted = false;
  lease_lost = false;
  lease_loss_accounted = false;
  observation_failures = [];
  child_cleanup = idle;
  attempt_finished = false;
  staging_closed = false;
  resources_released = false;
  output_available = true;
  readiness = false;
  log = none;
  log_drain_started = false;
}
