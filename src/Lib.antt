-- ===== src/Lib.antt =====
-- Verification of zephyr_remote_openocd, which runs OpenOCD on a remote host for Zephyr's West.
--
-- The program has three parts: a controller on the developer's machine, a helper process on the
-- remote host, and the protocol between them, of JSON frames over the helper's input and output.
-- The helper owns the OpenOCD process of one session: it starts it, relays its output and its log
-- channel, and reports one terminal snapshot at the end. The controller reads these events, checks
-- their order, and lets dependent programs (GDB, an RTT client) start only under its admission gate.
-- All paths below are relative to python/zephyr_remote_openocd.
--
-- Shared: Boolean tests, lists over the native numbers, integers, and Python exceptions as values.
--   A method is a function from the object's state to its result or exception and the new state,
--   and a method that raises keeps what it wrote before.
-- Outcome (protocol/outcome.py): the results of a session; a dataclass whose __post_init__ may
--   raise has a constructor function make_outcome, make_cleanup, make_log_report, make_snapshot.
--   Failures is about with_failure over sequences, Validity about which outcomes can exist.
-- Lifecycle (helper/lifecycle.py): Phase has the phases, Authority one function for each method of
--   LifecycleAuthority, Steps the calls as data. Invariant, Progress and Readiness are about any
--   sequence of calls.
-- Wire (protocol/wire.py): Frames has ControlFrameBuffer and the loop of _dispatch_frames of
--   controller/helper_connection.py; Json the decoded values; Base64 log_data; Address
--   _valid_address; Terminal decode_terminal; Events validate_event and EventOrder. Events.History
--   and Events.Order are about whole sequences of accepted events.
-- Streams (ProtocolOutput of helper/_streams.py): the queue of encoded frames and the writer task,
--   of which one step is one round of its loop with what os.write does as an argument.
-- Relay (helper/_log_relay.py, and the calls of helper/_session.py on it): the log relay. Relay.Calls
--   has these calls as data: the chunks of _observe_log, _log_progress, the confirmation and the cut of
--   _log_disposal, the deadline, the decision of _log_decided without a child, the report, and between
--   them the rounds of the writer task, which return log credit, and other events that are enqueued.
--   Before a child is acquired nothing is read, since only a child writes to the channel; a child is
--   acquired and the report is made on the sides of the decision on which _coordinate has them. The
--   protocol writer that the relay uses is the interface Relay.Writer, whose laws say that a call of
--   emit_log that returns admits its event, and one that raises admits none, nor does anything in
--   between. Relay.Protocol is emit_log over ProtocolOutput (Streams) as such a writer.
-- Gate (controller/admission.py, and ForwardSpec of controller/forwarding_spec.py): the admission
--   gate of dependent launches.
-- Endpoints (protocol/listeners.py, controller/forwarding_spec.py): listeners and forwards.
--   Endpoints.Plan has the checks of SessionPlan (controller/plan.py).
-- Output (helper/_child_output.py): OutputDecoder.feed on decoded text; the UTF-8 decoder is Python's.
-- Tcl (protocol/tcl.py): tcl_quote, and a reader of quoted Tcl words that it is compared with.
-- Arguments (protocol/arguments.py): argument templates, their previews and their materialisation on
--   the helper's side. Arguments.Wire has wire_parts.
-- Process (protocol/process.py): ProcessSpec and its checks.
-- Commands (protocol/commands.py): the parsers of the parts of START; Commands.Start has decode_start,
--   Commands.Encode encode_start, and Commands.Encode.Trip the round trip of both.
-- Openocd (openocd/arguments.py, openocd/command.py): the start of every OpenOCD command line.
--   Openocd.Flash (openocd/flash.py) is the flash plan, Openocd.Debug (openocd/debug.py) the endpoints
--   of a debug session and Openocd.Debug.Plan its command lines. PlannedPath is of controller/paths.py.
-- Session (controller/authority.py, and add_failure_note of controller/_cleanup.py): the authority of a
--   session on the controller's side, in front of the admission gate (Gate) and fed with the terminal
--   snapshot (Outcome) that the event order (Wire.Events) accepts. Session.Methods has the methods,
--   Session.Methods.Recording those that record a failure, and Session.Calls the calls as data.
-- Helper (helper/_session.py, and the records of helper/_process.py): HelperSession as a record with one
--   action for each method, over the lifecycle authority (Lifecycle) and the log relay (Relay).
--   Helper.Recording has the methods that report facts to the lifecycle, Helper.Attempt _start_attempt
--   and _ready, Helper.Release the cleanup and the end of _run_session_tasks. All calls of the system
--   (starting tasks, spawning, closing descriptors, removing the workspace, looking at paths) are the
--   fields of the interface System and may raise; Helper.Laws says what the end of a session relies
--   on, and Spawns of Helper.Owning what the attempt does. Helper.Workspace has remove_workspace,
--   close_staging_admission and path_absent of helper/_workspace.py over the calls of the file system,
--   and Helper.Workspace.Disposal derives Laws from what is documented of these calls. A session ends without a snapshot where
--   the constructor of the snapshot refuses its log report: unreportable of Helper.Freeze says when. Helper.Logic is a logic of actions that
--   return and of predicates that every step keeps; Terminating, Accounting, Ending, Released,
--   Looking, Cleanup, Freeze and Snapshot are about the end, Calm, Consistent, Starting, Owning and
--   Spawning about the attempt. A task of the event loop that failed is an entry of
--   observation_failures with the number of its task. A session creates one child at most, so that
--   a failure or an event names the own child or one that is gone.
--
-- The controller plans the command line (Openocd), which its ProcessSpec checks (Process); START takes
-- it to the helper (Commands), which puts its own workspace and address in place of the templates
-- (Arguments) before the lifecycle begins.
--
-- Python's library and the system are parameters: the conversion of an integer to a float (to_float),
-- lowercasing and `int` of a text (Openocd.Debug.Texts), the printing of numbers (Numerals), the
-- planning of staged paths and the ELF entry point (Openocd.Flash.Build), and the rendering of an
-- exception as a diagnostic (from_exception of Session). An exception that is kept has an identity. A
-- float is the 64 bits of its binary64 format, and a text that is assembled is the list of its code
-- points.
--
-- Bytes are lists of numbers. Loops on a buffer run on fuel: the frame loop on the length of the
-- buffer and one more, since each frame takes a byte at least; the loop of pump on the number of
-- queued bytes and one more, since each round takes a byte at least; and the wait for the workspace's lease
-- on 101 rounds of 50 ms against its deadline of 5 s. All three are proved to be enough.
--
-- Not modelled: the json library and the text of frames (decode_frame, encode_frame); descriptors,
-- asyncio tasks, threads and processes, except as the order of calls and what the system answers;
-- the create and close of the log relay; the dispatch of observations by the helper's coordinator; the
-- controller's session, SSH, forwarding, RTT, staging, the search of configuration files, the parsing
-- of OpenOCD's version, configuration and the West runner.
pub mod Shared
pub mod Outcome
pub mod Lifecycle
pub mod Wire
pub mod Streams
pub mod Relay
pub mod Gate
pub mod Endpoints
pub mod Output
pub mod Tcl
pub mod Arguments
pub mod Process
pub mod Commands
pub mod Openocd
pub mod Session
pub mod Helper
