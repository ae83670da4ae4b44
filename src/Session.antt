-- ===== src/Session.antt =====
-- controller/authority.py: the authority of a session on the controller's side. An exception is an
-- object, so it has an identity. How an exception is made a diagnostic and how a number is printed are
-- arguments.
mod Tests
pub mod Accounting
pub mod Admission
pub mod Calls
pub mod Methods
pub mod Primary
use Prim.Native.String.{String, ◌++◌ as string_append}
use zephyr_remote_openocd.Shared.{
  ℕ, ◌+◌, ◌≡◌, ◌↔◌, Bool, true, false, not, ◌&&◌, ◌||◌, Option, none, some, List, [], ◌∷◌, ◌++◌,
  arith, Eq, string_eq, nat_beq, if◌then◌else◌, ◌==◌, is_some, is_none, any, ℤ, is_zero, Error, ok,
  raised, Result,
}
use zephyr_remote_openocd.Outcome.{
  CompletionPolicy, live_server, Diagnostic, diagnostic, Details, nil, cons, Outcome, ChildResult,
  child_failure_is_primary, TerminalSnapshot, LogReport, snapshot_failed,
}
use zephyr_remote_openocd.Gate.{
  ForwardSpec, AdmissionGate, new as new_gate, prepare, observe_remote_ready, observe_forwarded,
  enter, cancel as cancel_gate, fail, end,
}

-- Whose object an exception is: one that a caller gave, or one that the authority made.
pub data Identity : Type 0 where
  given : ℕ → Identity
  made : ℕ → Identity

abbrev pub same : Identity → Identity → Bool
same (given m) (given n) = nat_beq m n
same (made m) (made n) = nat_beq m n
same _ _ = false

-- A `BaseException`: `ending` says that it is a `SessionEndingError`, `own_notes` are the notes that it
-- had when the authority got it.
pub record Fault : Type 0 where
  pub identity : Identity
  pub ending : Bool
  pub text : String
  pub own_notes : List String

-- The key of a failure: the code and the identity of the exception, or a name.
pub data Key : Type 0 where
  of_error : String → Identity → Key
  named : String → Key

abbrev pub same_key : Key → Key → Bool
same_key (of_error c i) (of_error d j) = c == d && same i j
same_key (named s) (named t) = s == t
same_key _ _ = false

-- `_FailureRecord`, with its key in `_failures`
pub record FailureRecord : Type 0 where
  pub key : Key
  pub error : Fault
  pub detail : Diagnostic

pub record Deferred : Type 0 where
  pub code : String
  pub error : Fault
  pub key : Key

pub record SessionAllocation : Type 0 where
  pub session_id : String
  pub remote_workspace : String

-- The fields of the authority; `_failures` in the order of insertion, the notes that were put on
-- exceptions, and the number of exceptions that the authority has made.
pub record SessionAuthority : Type 0 where
  pub terminal : Option TerminalSnapshot
  pub failures : List FailureRecord
  pub closing : Bool
  pub error_reported : Bool
  pub policy : CompletionPolicy
  pub gate : AdmissionGate
  pub allocation : Option SessionAllocation
  pub ready_address : Option String
  pub control_ended : Bool
  pub control_observation_pending : Bool
  pub deferred_refusals : List Deferred
  pub log_failures : List Fault
  pub log_failures_projected : ℕ
  pub notes : List (Identity × String)
  pub made_count : ℕ

unfoldable pub new : SessionAuthority
new = record {
  terminal = none;
  failures = [];
  closing = false;
  error_reported = false;
  policy = live_server;
  gate = new_gate;
  allocation = none;
  ready_address = none;
  control_ended = false;
  control_observation_pending = false;
  deferred_refusals = [];
  log_failures = [];
  log_failures_projected = 0;
  notes = [];
  made_count = 0;
}

-- What a method raises: a recorded exception again, one of the authority's own, the exception of the
-- gate, or that of `final_admission`.
pub data Raise : Type 0 where
  recorded : Fault → Raise
  session_error : String → Raise
  session_closed : String → Raise
  session_ending : String → Raise
  gate_error : Error → Raise
  final_error : Fault → Raise

pub data Answer (A : Type 0) : Type 0 where
  returns : A → Answer A
  raises : Raise → Answer A

infixr 6 ◌&◌
abbrev pub ◌&◌ : String → String → String
s & t = string_append s t

-- `_render_diagnostic`, and `"; ".join` of the details behind a text
mutual
  pub render_diagnostic : Diagnostic → String
  render_diagnostic (diagnostic code text details) = code & ": " & text & render_details details

  pub render_details : Details → String
  render_details nil = ""
  render_details (cons d ds) = "; " & render_diagnostic d & render_details ds

-- `"; ".join(…)`
abbrev pub joined : List String → String
joined [] = ""
joined (s ∷ []) = s
joined (s ∷ t ∷ ts) = s & "; " & joined (t ∷ ts)

abbrev pub rendered : List Diagnostic → List String
rendered [] = []
rendered (d ∷ ds) = render_diagnostic d ∷ rendered ds

abbrev pub first_error : List FailureRecord → Option Fault
first_error [] = none
first_error (r ∷ rs) = some r.error

-- `_failure`
unfoldable pub failure : SessionAuthority → Option Fault
failure a = first_error a.failures

abbrev pub has_key : Key → List FailureRecord → Bool
has_key k [] = false
has_key k (r ∷ rs) = same_key r.key k || has_key k rs

abbrev pub has_error : Identity → List FailureRecord → Bool
has_error i [] = false
has_error i (r ∷ rs) = same r.error.identity i || has_error i rs

abbrev pub is_deferred : Identity → List Deferred → Bool
is_deferred i [] = false
is_deferred i (d ∷ ds) = same d.error.identity i || is_deferred i ds

abbrev pub is_log_failure : Identity → List Fault → Bool
is_log_failure i [] = false
is_log_failure i (e ∷ es) = same e.identity i || is_log_failure i es

-- The notes of an exception
abbrev pub notes_on : Identity → List (Identity × String) → List String
notes_on i [] = []
notes_on i ((j, text) ∷ ns) = let rest = notes_on i ns in if same j i then text ∷ rest else rest

abbrev detailed : Identity → String → List String → List (Identity × String)
detailed i prefix [] = []
detailed i prefix (n ∷ ns) = (i, prefix & " detail: " & n) ∷ detailed i prefix ns

-- `add_failure_note` of controller/_cleanup.py
unfoldable pub add_failure_note :
    Fault → String → Fault → List (Identity × String) → List (Identity × String)
add_failure_note primary prefix secondary notes =
    if same primary.identity secondary.identity
    then notes
    else notes
      ++ ((primary.identity, prefix & ": " & secondary.text)
          ∷ detailed primary.identity prefix
              (secondary.own_notes ++ notes_on secondary.identity notes))

abbrev pub noted : Option Fault → Fault → List (Identity × String) → List (Identity × String)
noted none error notes = notes
noted (some primary) error notes = add_failure_note primary "later session failure" error notes
