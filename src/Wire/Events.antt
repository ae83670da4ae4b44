-- ===== src/Wire/Events.antt =====
-- `validate_event` and `EventOrder` of protocol/wire.py.
pub mod History
pub mod Order
use Prim.Native.String.{String}
use zephyr_remote_openocd.Shared.{
  ℕ, ◌+◌, Bool, true, false, not, ◌&&◌, ◌||◌, Option, none, some, List, [], ◌∷◌, ◌++◌,
  if◌then◌else◌, string_eq, ◌==◌, is_some, is_none, ℤ, nat_beq, length, Error, Result, ok, raised,
  protocol_error, Exec,
}
use zephyr_remote_openocd.Outcome.{
  CompletionPolicy, is_live_server, never_acquired, WorkspaceDisposal, LogReport, TerminalSnapshot,
}
use zephyr_remote_openocd.Wire.Frames.{Bytes, lf}
use zephyr_remote_openocd.Wire.Json.{
  Json, bool, int, str, arr, obj, Items, nil, cons, Fields, get, exact, integer, string, is_int,
  contains,
}
use zephyr_remote_openocd.Wire.Address.{valid_address}
use zephyr_remote_openocd.Wire.Base64.{log_data}
use zephyr_remote_openocd.Wire.Terminal.{version, decode_terminal}

pub data Kind : Type 0 where
  session_created attempt ready child_output log_chunk session_ended : Kind

kind_named : String → Option Kind
kind_named name =
    if name == "SESSION_CREATED"
    then some session_created
    else if name == "ATTEMPT"
    then some attempt
    else if name == "READY"
    then some ready
    else if name == "CHILD_OUTPUT"
    then some child_output
    else if name == "LOG_DATA"
    then some log_chunk
    else if name == "SESSION_ENDED"
    then some session_ended
    else none

-- `message["type"]`, if it names an event
unfoldable pub kind_of : Fields → Option Kind
unfolding kind_named
kind_of message = elim (get "type" message) [
  | some v ↦ elim v [ str name ↦ kind_named name | _ ↦ none ]
  | none ↦ none
]

-- `_FIELDS`, with those of the envelope
fields_of : Kind → List String
fields_of session_created = "version" ∷ "type" ∷ "helper" ∷ "session_id" ∷ "remote_workspace" ∷ []
fields_of attempt = "version" ∷ "type" ∷ "argv" ∷ []
fields_of ready = "version" ∷ "type" ∷ "remote_address" ∷ "child_pid" ∷ []
fields_of child_output = "version" ∷ "type" ∷ "stream" ∷ "payload" ∷ "line_end" ∷ []
fields_of log_chunk = "version" ∷ "type" ∷ "offset" ∷ "data" ∷ []
fields_of session_ended =
    "version" ∷ "type" ∷ "trigger" ∷ "primary_failure" ∷ "diagnostics" ∷ "child_result" ∷ "cleanup"
    ∷ "log" ∷ []

all_arguments : Items → Bool
all_arguments nil = true
all_arguments (cons v vs) = string (some v) false true && all_arguments vs

valid_argv : Option Json → Bool
unfolding all_arguments
valid_argv (some (arr (cons v vs))) = string (some v) true true && all_arguments vs
valid_argv _ = false

is_stream : Option Json → Bool
is_stream (some (str name)) = name == "stdout" || name == "stderr"
is_stream _ = false

text_without : ℕ → Option Json → Bool
text_without c (some (str s)) = not (contains c s)
text_without c _ = false

valid_line : Option Json → Option Json → Bool
valid_line payload (some (bool line_end)) = string payload true false || line_end
valid_line payload _ = false

refuse_unless : Bool → Result (Unit {0})
refuse_unless true = ok tt
refuse_unless false = raised (protocol_error "invalid required fields")

discard {ℓ} : {A : Type ℓ} → Result A → Bool → Result (Unit {0})
unfolding refuse_unless
discard (ok a) valid = refuse_unless valid
discard (raised e) valid = raised e

-- What is asked of each kind.
validate_kind : Kind → Fields → Result (Unit {0})
unfolding refuse_unless discard valid_argv is_stream text_without valid_line valid_address
validate_kind session_created m = refuse_unless (
    string (get "helper" m) true true
    && (string (get "session_id" m) true true && string (get "remote_workspace" m) true true))
validate_kind attempt m = refuse_unless (valid_argv (get "argv" m))
validate_kind ready m = refuse_unless (
    elim (get "remote_address" m) [
      | some v ↦ elim v [ str s ↦ valid_address s | _ ↦ false ]
      | none ↦ false
    ]
    && integer (get "child_pid" m) (some 1))
validate_kind child_output m = refuse_unless (
    is_stream (get "stream" m)
    && (text_without lf (get "payload" m) && valid_line (get "payload" m) (get "line_end" m)))
validate_kind log_chunk m = discard (log_data (get "data" m)) (integer (get "offset" m) (some 0))
validate_kind session_ended m = discard (decode_terminal m) true

-- An event, by its kind: the message of that kind that `validate_event` accepts.
unfoldable pub validate_event : Fields → Result Kind
unfolding validate_kind fields_of
validate_event message = elim (kind_of message) [
  | none ↦ raised (protocol_error "invalid helper event fields")
  | some kind ↦
      if exact message (fields_of kind) && is_int version (get "version" message)
      then elim (validate_kind kind message) [ ok u ↦ ok kind | raised e ↦ raised e ]
      else raised (protocol_error "invalid helper event fields")
]

-- `EventOrder`
pub record EventOrder : Type 0 where
  pub policy : CompletionPolicy
  pub log_requested : Bool
  pub created : Bool
  pub attempted : Bool
  pub ready_seen : Bool
  pub child_output_seen : Bool
  pub log_bytes : ℕ
  pub ended : Bool

unfoldable pub new : CompletionPolicy → Bool → EventOrder
new policy log_requested = record {
  policy = policy;
  log_requested = log_requested;
  created = false;
  attempted = false;
  ready_seen = false;
  child_output_seen = false;
  log_bytes = 0;
  ended = false;
}

refuse : String → Exec EventOrder (Unit {0})
refuse text s = (raised (protocol_error text), s)

on_log_data : Bytes → Bool → Exec EventOrder (Unit {0})
unfolding refuse
on_log_data bytes at_total s =
    if not s.attempted || not s.log_requested
    then refuse "log data without a requested log channel and attempt" s
    else if not at_total
    then refuse "LOG_DATA offset differs from the received total" s
    else (ok tt, record s { log_bytes = s.log_bytes + length bytes; child_output_seen = true })

-- Whether the report's byte count is the received total, where there is a report.
abbrev counts : Option LogReport → ℕ → Bool
counts none total = true
counts (some report) total = nat_beq report.byte_count total

abbrev not_created : WorkspaceDisposal → Bool
not_created WorkspaceDisposal.not_created = true
not_created WorkspaceDisposal.confirmed = false
not_created WorkspaceDisposal.unconfirmed = false

abbrev same : Bool → Bool → Bool
same true b = b
same false b = not b

on_ended : TerminalSnapshot → Exec EventOrder (Unit {0})
unfolding refuse
on_ended t s =
    if is_some t.outcome.child_result && not s.attempted
    then refuse "child result without an admitted attempt" s
    else if not (same (is_some t.log) s.log_requested)
    then refuse "terminal log report disagrees with START" s
    else if not (counts t.log s.log_bytes)
    then refuse "terminal log byte count differs from received LOG_DATA" s
    else if s.created && not_created t.cleanup.workspace_disposal
    then refuse "created workspace reported as not created" s
    else if (s.ready_seen || s.child_output_seen) && never_acquired t.cleanup.child_disposal
    then refuse "observed child reported as not acquired" s
    else (ok tt, record s { ended = true })

-- The branches of `accept` on the kind of a message that `validate_event` accepted.
on_kind : Kind → Fields → Exec EventOrder (Unit {0})
unfolding refuse on_log_data on_ended is_live_server
on_kind session_created m s =
    if s.created
    then refuse "duplicate session creation" s
    else (ok tt, record s { created = true })
on_kind attempt m s =
    if s.attempted
    then refuse "invalid attempt sequence" s
    else (ok tt, record s { attempted = true })
on_kind ready m s =
    if not (is_live_server s.policy) || (s.ready_seen || not s.attempted)
    then refuse "invalid readiness admission" s
    else (ok tt, record s { ready_seen = true })
on_kind child_output m s =
    if not s.attempted
    then refuse "output from an unadmitted attempt" s
    else (ok tt, record s { child_output_seen = true })
on_kind log_chunk m s = elim (log_data (get "data" m)) [
  | raised e ↦ (raised e, s)
  | ok bytes ↦ on_log_data bytes (is_int s.log_bytes (get "offset" m)) s
]
on_kind session_ended m s = elim (decode_terminal m) [
  | raised e ↦ (raised e, s)
  | ok t ↦ on_ended t s
]

abbrev opens : Kind → Bool
opens session_created = true
opens session_ended = true
opens _ = false

on_valid : Kind → Fields → Exec EventOrder (Unit {0})
unfolding on_kind
on_valid kind m s =
    if s.ended || (not s.created && not (opens kind))
    then refuse "event outside session lifetime" s
    else on_kind kind m s

unfoldable pub accept : Fields → Exec EventOrder (Unit {0})
unfolding on_valid refuse
accept m s = elim (validate_event m) [ raised e ↦ (raised e, s) | ok kind ↦ on_valid kind m s ]
