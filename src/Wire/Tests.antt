-- ===== src/Wire/Tests.antt =====
-- Concrete streams and messages.
use zephyr_remote_openocd.Shared.{
  protocol_error, ◌≡◌, refl, true, false, none, some, List, [], ◌∷◌, ◌++◌, ok, raised, ℤ, all,
  flatten, string_eq, String,
}
use zephyr_remote_openocd.Outcome.{
  live_server, TerminalSnapshot, LogReport, controller_eof, ChildDisposal, WorkspaceDisposal,
}
use zephyr_remote_openocd.Wire.Frames.{Bytes, drain, dispatch_chunks}
use zephyr_remote_openocd.Wire.Frames.Split.{lines, fits}
use zephyr_remote_openocd.Wire.Frames.Chunks.{dispatch_chunks-lines, drain-conserves, is_frame}
use zephyr_remote_openocd.Wire.Json.{
  null, bool, int, str, arr, obj, nil, cons, Fields, end, field, exact, integer, string, contains,
}
use zephyr_remote_openocd.Wire.Base64.{log_data, b64decode, b64encode}
use zephyr_remote_openocd.Wire.Terminal.{decode_terminal}
use zephyr_remote_openocd.Wire.Events.{
  Kind, session_ended, kind_of, validate_event, EventOrder, new, accept,
}
use zephyr_remote_openocd.Wire.Events.History.{accept_all, total, ended_counts_log}
use zephyr_remote_openocd.Wire.Events.Order.{may_follow, seen, events_in_order}

-- Two lines in three chunks, with a partial third line.
abbrev chunks : List Bytes
chunks = (1 ∷ 2 ∷ []) ∷ (10 ∷ 3 ∷ []) ∷ (10 ∷ 4 ∷ []) ∷ []

chunks_fit : fits (lines (flatten chunks)) ≡ true
unfolding lines
chunks_fit = refl

dispatch_chunks-lines_example : dispatch_chunks [] chunks ≡ record {
  frames = (lines (flatten chunks)).complete;
  end = ok tt;
  rest = (lines (flatten chunks)).partial;
}
dispatch_chunks-lines_example = dispatch_chunks-lines chunks chunks_fit

drain-conserves_example :
    (flatten (drain (flatten chunks)).frames ++ (drain (flatten chunks)).rest ≡ flatten chunks)
    × (all (drain (flatten chunks)).frames is_frame ≡ true)
drain-conserves_example = drain-conserves (flatten chunks)

abbrev event : String → Fields → Fields
event kind fs = field "version" (int (ℤ.pos 1)) (field "type" (str kind) fs)

abbrev created : Fields
created = event "SESSION_CREATED" (
    field "helper" (str "h")
      (field "session_id" (str "s") (field "remote_workspace" (str "/tmp/w") end)))

abbrev attempted : Fields
attempted = event "ATTEMPT" (field "argv" (arr (cons (str "openocd") nil)) end)

-- The bytes 7 and 8.
abbrev logged : Fields
logged = event "LOG_DATA" (field "offset" (int (ℤ.pos 0)) (field "data" (str "Bwg=") end))

abbrev report : LogReport
report = record { byte_count = 2; complete = true; diagnostic = none }

abbrev cleanup : Fields
cleanup =
    field "child_disposal" (str "confirmed")
      (field "workspace_disposal" (str "confirmed") (field "residual_resources" (arr nil) end))

abbrev log : Fields
log =
    field "byte_count" (int (ℤ.pos 2)) (field "complete" (bool true) (field "diagnostic" null end))

abbrev ended : Fields
ended = event "SESSION_ENDED" (
    field "trigger" (str "controller_eof") (
      field "primary_failure" null (
        field "diagnostics" (arr nil)
          (field "child_result" null (field "cleanup" (obj cleanup) (field "log" (obj log) end))))))

abbrev snapshot : TerminalSnapshot
snapshot = record {
  outcome = record {
    trigger = controller_eof;
    primary_failure = none;
    diagnostics = [];
    child_result = none;
  };
  cleanup = record {
    child_disposal = ChildDisposal.confirmed;
    workspace_disposal = WorkspaceDisposal.confirmed;
    residual_resources = [];
  };
  log = some report;
}

abbrev messages : List Fields
messages = created ∷ attempted ∷ logged ∷ []

abbrev history : EventOrder
history = record {
  policy = live_server;
  log_requested = true;
  created = true;
  attempted = true;
  ready_seen = false;
  child_output_seen = true;
  log_bytes = 2;
  ended = false;
}

messages_accepted : accept_all messages (new live_server true) ≡ (ok tt, history)
unfolding accept_all accept new validate_event kind_of exact integer string contains log_data
    b64decode b64encode
messages_accepted = refl

ended_kind : kind_of ended ≡ some session_ended
unfolding kind_of
ended_kind = refl

ended_decoded : decode_terminal ended ≡ ok snapshot
unfolding decode_terminal exact integer string contains
ended_decoded = refl

ended_accepted : (accept ended history).0 ≡ ok tt
unfolding accept validate_event kind_of decode_terminal exact integer string contains
ended_accepted = refl

ended_counts_log_example : report.byte_count ≡ total messages
ended_counts_log_example =
    ended_counts_log live_server true messages history ended snapshot report messages_accepted
      ended_kind ended_decoded refl ended_accepted

-- LOG_DATA after SESSION_CREATED and ATTEMPT, with SESSION_ENDED after it.
all_accepted :
    accept_all ((created ∷ attempted ∷ []) ++ (logged ∷ ended ∷ [])) (new live_server true)
    ≡ (ok tt, record history { ended = true })
unfolding accept_all accept new validate_event kind_of exact integer string contains log_data
    b64decode b64encode decode_terminal
all_accepted = refl

events_in_order_example :
    (k : Kind) × ((kind_of logged ≡ some k)
      × ((may_follow live_server true (created ∷ attempted ∷ []) k ≡ true)
          × (seen session_ended (created ∷ attempted ∷ []) ≡ false)))
events_in_order_example =
    events_in_order live_server true (created ∷ attempted ∷ []) (ended ∷ []) logged
      (record history { ended = true }) all_accepted

over :
    (accept logged (record history { ended = true })).0
    ≡ raised (protocol_error "event outside session lifetime")
unfolding accept validate_event kind_of exact integer string contains log_data b64decode b64encode
over = refl
