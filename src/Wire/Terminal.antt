-- ===== src/Wire/Terminal.antt =====
-- `decode_terminal` of protocol/wire.py and the decoders that it calls. Where Python raises
-- `ValueError`, `decode_terminal` raises `ProtocolError` in its place.
use Prim.Native.String.{String}
use zephyr_remote_openocd.Shared.{
  ℕ, true, false, ◌&&◌, Option, none, some, List, [], ◌∷◌, if◌then◌else◌, string_eq, ◌==◌, ℤ,
  message, Result, ok, raised, protocol_error,
}
use zephyr_remote_openocd.Outcome.{
  Trigger, controller_eof, signal, child_exit, startup_failure, protocol_failure, output_failure,
  helper_failure, Diagnostic, diagnostic, Details, ChildResult, make_outcome, ResidualResource,
  child_producer, child_group, child_relays, address_lease, workspace, workspace_metadata,
  ChildDisposal, WorkspaceDisposal, CleanupReport, make_cleanup, LogReport, make_log_report,
  TerminalSnapshot, make_snapshot,
}
use zephyr_remote_openocd.Wire.Json.{
  Json, null, bool, int, str, arr, obj, Items, nil, cons, Fields, end, field, get, exact, string,
  is_int,
}

abbrev pub version : ℕ
version = 1

abbrev pub invalid {ℓ} : {A : Type ℓ} → String → Result A
invalid text = raised (protocol_error text)

-- A chain of decoders, in which every error is a `ProtocolError`.
infixl 5 ◌>>=◌
abbrev ◌>>=◌ {ℓ κ} : {A : Type ℓ} {B : Type κ} → Result A → (A → Result B) → Result B
ok a >>= f = f a
raised e >>= f = raised (protocol_error (message e))

abbrev text_of : Option Json → String
text_of (some (str s)) = s
text_of _ = ""

-- `_diagnostic`, and the tuple of the diagnostics inside it
mutual
  decode_diagnostic : Json → Result Diagnostic
  decode_diagnostic (obj fs) =
      if exact fs ("code" ∷ "message" ∷ "diagnostics" ∷ [])
        && (string (get "code" fs) true false && string (get "message" fs) false false)
      then (do
        ds ← details_at "diagnostics" fs
        ok (diagnostic (text_of (get "code" fs)) (text_of (get "message" fs)) ds))
      else invalid "invalid diagnostic"
  decode_diagnostic _ = invalid "invalid diagnostic"

  details_at : String → Fields → Result Details
  details_at key end = invalid "invalid diagnostic"
  details_at key (field k v fs) = if k == key then details_of v else details_at key fs

  details_of : Json → Result Details
  details_of (arr items) = details items
  details_of _ = invalid "invalid diagnostic"

  details : Items → Result Details
  details nil = ok Details.nil
  details (cons v vs) = decode_diagnostic v >>= λ d. details vs >>= λ ds. ok (Details.cons d ds)

diagnostics_of : Items → Result (List Diagnostic)
unfolding decode_diagnostic
diagnostics_of nil = ok []
diagnostics_of (cons v vs) = decode_diagnostic v >>= λ d. diagnostics_of vs >>= λ ds. ok (d ∷ ds)

decode_diagnostics : Option Json → Result (List Diagnostic)
unfolding diagnostics_of
decode_diagnostics (some (arr items)) = diagnostics_of items
decode_diagnostics _ = invalid "invalid terminal diagnostics"

optional_diagnostic : Option Json → Result (Option Diagnostic)
unfolding decode_diagnostic
optional_diagnostic (some null) = ok none
optional_diagnostic (some v) = decode_diagnostic v >>= λ d. ok (some d)
optional_diagnostic none = invalid "invalid terminal fields"

result_fields : Option Json → Option Json → Result (Option ChildResult)
result_fields (some (int n)) (some (bool b)) =
    ok (some (record { returncode = n; termination_requested = b }))
result_fields _ _ = invalid "invalid child result"

-- `_child_result`
decode_child_result : Option Json → Result (Option ChildResult)
unfolding result_fields
decode_child_result (some null) = ok none
decode_child_result (some (obj fs)) =
    if exact fs ("returncode" ∷ "termination_requested" ∷ [])
    then result_fields (get "returncode" fs) (get "termination_requested" fs)
    else invalid "invalid child result"
decode_child_result _ = invalid "invalid child result"

residual_named : String → Option ResidualResource
residual_named name =
    if name == "child_producer"
    then some child_producer
    else if name == "child_group"
    then some child_group
    else if name == "child_relays"
    then some child_relays
    else if name == "address_lease"
    then some address_lease
    else if name == "workspace"
    then some workspace
    else if name == "workspace_metadata"
    then some workspace_metadata
    else none

residual_of : Json → Result ResidualResource
unfolding residual_named
residual_of (str name) = elim (residual_named name) [
  | none ↦ invalid "invalid cleanup report"
  | some r ↦ ok r
]
residual_of _ = invalid "invalid cleanup report"

residuals_of : Items → Result (List ResidualResource)
unfolding residual_of
residuals_of nil = ok []
residuals_of (cons v vs) = residual_of v >>= λ r. residuals_of vs >>= λ rs. ok (r ∷ rs)

decode_residuals : Option Json → Result (List ResidualResource)
unfolding residuals_of
decode_residuals (some (arr items)) = residuals_of items
decode_residuals _ = invalid "invalid cleanup report"

child_disposal_named : String → Result ChildDisposal
child_disposal_named name =
    if name == "not_acquired"
    then ok ChildDisposal.not_acquired
    else if name == "confirmed"
    then ok ChildDisposal.confirmed
    else if name == "unconfirmed"
    then ok ChildDisposal.unconfirmed
    else invalid "invalid cleanup report"

workspace_disposal_named : String → Result WorkspaceDisposal
workspace_disposal_named name =
    if name == "not_created"
    then ok WorkspaceDisposal.not_created
    else if name == "confirmed"
    then ok WorkspaceDisposal.confirmed
    else if name == "unconfirmed"
    then ok WorkspaceDisposal.unconfirmed
    else invalid "invalid cleanup report"

-- `_cleanup`; a value that is no string is `""` here, which names no disposal
decode_cleanup : Option Json → Result CleanupReport
unfolding child_disposal_named workspace_disposal_named decode_residuals make_cleanup
decode_cleanup (some (obj fs)) =
    if exact fs ("child_disposal" ∷ "workspace_disposal" ∷ "residual_resources" ∷ [])
    then (do
      c ← child_disposal_named (text_of (get "child_disposal" fs))
      w ← workspace_disposal_named (text_of (get "workspace_disposal" fs))
      rs ← decode_residuals (get "residual_resources" fs)
      make_cleanup c w rs)
    else invalid "invalid cleanup report"
decode_cleanup _ = invalid "invalid cleanup report"

log_fields : Option Json → Option Json → Option Json → Result (Option LogReport)
unfolding optional_diagnostic make_log_report
log_fields (some (int (ℤ.pos n))) (some (bool complete)) detail =
    optional_diagnostic detail >>= λ d.
    make_log_report (ℤ.pos n) complete d >>= λ report. ok (some report)
log_fields _ _ _ = invalid "invalid log report"

-- `_log`
decode_log : Option Json → Result (Option LogReport)
unfolding log_fields
decode_log (some null) = ok none
decode_log (some (obj fs)) =
    if exact fs ("byte_count" ∷ "complete" ∷ "diagnostic" ∷ [])
    then log_fields (get "byte_count" fs) (get "complete" fs) (get "diagnostic" fs)
    else invalid "invalid log report"
decode_log _ = invalid "invalid log report"

-- `Trigger(…)`
trigger_named : String → Result Trigger
trigger_named name =
    if name == "controller_eof"
    then ok controller_eof
    else if name == "signal"
    then ok signal
    else if name == "child_exit"
    then ok child_exit
    else if name == "startup_failure"
    then ok startup_failure
    else if name == "protocol_failure"
    then ok protocol_failure
    else if name == "output_failure"
    then ok output_failure
    else if name == "helper_failure"
    then ok helper_failure
    else invalid "invalid terminal outcome"

as_protocol_error : Result TerminalSnapshot → Result TerminalSnapshot
as_protocol_error (ok s) = ok s
as_protocol_error (raised e) = raised (protocol_error (message e))

abbrev pub terminal_fields : List String
terminal_fields =
    "version" ∷ "type" ∷ "trigger" ∷ "primary_failure" ∷ "diagnostics" ∷ "child_result" ∷ "cleanup"
    ∷ "log" ∷ []

unfoldable pub decode_terminal : Fields → Result TerminalSnapshot
unfolding as_protocol_error trigger_named optional_diagnostic decode_diagnostics decode_child_result
    decode_cleanup decode_log make_outcome make_snapshot
decode_terminal fs =
    if exact fs terminal_fields
      && (text_of (get "type" fs) == "SESSION_ENDED" && is_int version (get "version" fs))
    then as_protocol_error (do
      trigger ← trigger_named (text_of (get "trigger" fs))
      failure ← optional_diagnostic (get "primary_failure" fs)
      later ← decode_diagnostics (get "diagnostics" fs)
      result ← decode_child_result (get "child_result" fs)
      outcome ← make_outcome trigger failure later result
      cleanup ← decode_cleanup (get "cleanup" fs)
      log ← decode_log (get "log" fs)
      make_snapshot outcome cleanup log)
    else invalid "invalid terminal fields"
