-- ===== src/Relay.antt =====
-- `LogRelay` of helper/_log_relay.py: the bounded, exact-prefix relay of the OpenOCD log channel.
-- What it uses of the protocol writer is the interface `LogWriter`.
mod Tests
pub mod Writer
pub mod Protocol
pub mod Calls
pub mod Invariant
pub mod Pumping
pub mod Prefix
pub mod Rounds
use Prim.Native.String.{◌++◌ as string_append}
use zephyr_remote_openocd.Shared.{
  ℕ, zero, suc, ◌+◌, ◌-◌, ◌*◌, String, Bool, true, false, not, ◌&&◌, ◌||◌, Option, none, some, List,
  [], ◌∷◌, ◌++◌, if◌then◌else◌, ltb, nat_beq, length, flatten, take, drop, ℤ, Error, message,
  Result, ok, raised, Exec, is_none, is_some, lift, ◌>>=◌, ◌>>◌, assertion_error,
}
use zephyr_remote_openocd.Outcome.{Diagnostic, diagnostic, Details, LogReport, make_log_report}
use zephyr_remote_openocd.Wire.Frames.{Bytes}
use Writer.{LogWriter}

abbrev pub log_relay_buffer_bytes : ℕ
log_relay_buffer_bytes = 8 * 1024 * 1024

abbrev pub log_credit_bytes : ℕ
log_credit_bytes = 256 * 1024

abbrev pub max_log_data_bytes : ℕ
max_log_data_bytes = 64 * 1024

-- The path and the numbers of the two descriptors are left out: `writer_open` says whether the
-- keep-open writer is still held.
pub record LogRelay : Type 0 where
  pub writer_open : Bool
  pub buffer : List Bytes
  pub buffered : ℕ
  pub admitted : ℕ
  pub continuity_lost : Bool
  pub end_of_file : Bool
  pub reading : Bool
  pub final_phase : Bool
  pub disposal_confirmed : Bool
  pub incomplete : Option Diagnostic
  pub decision : Option LogReport

-- `LogRelay.__init__`
unfoldable pub new : LogRelay
new = record {
  writer_open = true;
  buffer = [];
  buffered = 0;
  admitted = 0;
  continuity_lost = false;
  end_of_file = false;
  reading = true;
  final_phase = false;
  disposal_confirmed = false;
  incomplete = none;
  decision = none;
}

unfoldable pub record_incomplete : String → String → LogRelay → LogRelay
record_incomplete code text r =
    if is_none r.incomplete && is_none r.decision
    then record r { incomplete = some (diagnostic code text Details.nil) }
    else r

unfoldable pub lose_continuity : LogRelay → LogRelay
lose_continuity r = record r { continuity_lost = true; buffer = []; buffered = 0 }

-- The branch of `accept` on a chunk that does not fit.
overflow : Bytes → ℕ → LogRelay → LogRelay
unfolding record_incomplete
overflow chunk room r =
    let kept =
      if nat_beq room 0
      then r
      else record r { buffer = r.buffer ++ (take room chunk ∷ []); buffered = r.buffered + room } in
    record_incomplete "LOG_RELAY_OVERFLOW"
      "log relay buffer overflowed; later log bytes were discarded"
      (record kept { continuity_lost = true })

accept_bytes : Bytes → LogRelay → LogRelay
unfolding overflow
accept_bytes chunk r =
    if r.continuity_lost || is_some r.decision
    then r
    else if ltb (log_relay_buffer_bytes - r.buffered) (length chunk)
    then overflow chunk (log_relay_buffer_bytes - r.buffered) r
    else record r { buffer = r.buffer ++ (chunk ∷ []); buffered = r.buffered + length chunk }

unfoldable pub accept : Bytes → LogRelay → LogRelay
unfolding accept_bytes
accept [] r = record r { end_of_file = true; reading = false; final_phase = true }
accept (b ∷ bs) r = accept_bytes (b ∷ bs) r

unfoldable pub confirm_disposal : LogRelay → LogRelay
confirm_disposal r = record r { disposal_confirmed = true; final_phase = true; writer_open = false }

unfoldable pub cut : LogRelay → LogRelay
unfolding record_incomplete
cut r =
    record_incomplete "LOG_DISPOSAL_UNCONFIRMED"
      "OpenOCD process disposal is unconfirmed; the log channel was not read to its end"
      (record r { reading = false; final_phase = true })

unfoldable pub read_failed : Error → LogRelay → LogRelay
unfolding record_incomplete
read_failed error r =
    record_incomplete "LOG_READ_FAILURE" (string_append "log channel read failed: " (message error))
      (record r { reading = false })

abbrev pub is_empty {ℓ} : {A : Type ℓ} → List A → Bool
is_empty [] = true
is_empty (x ∷ xs) = false

unfoldable pub ready_to_decide : LogRelay → Bool
ready_to_decide r = is_none r.decision && (r.final_phase && (not r.reading && is_empty r.buffer))

-- What `decide` records before it makes the report.
settle : Bool → Bool → LogRelay → LogRelay
unfolding record_incomplete lose_continuity
settle deadline child_acquired r =
    let late =
      if deadline && (not (is_empty r.buffer) || r.reading)
      then record_incomplete "LOG_DRAIN_DEADLINE"
          "final log delivery did not finish before its deadline" r
      else r in
    let unsettled =
      if child_acquired && not (r.end_of_file && r.disposal_confirmed)
      then record_incomplete "LOG_RELAY_UNSETTLED"
          "the log channel was not read to its final extent" late
      else late in
    lose_continuity unsettled

unfoldable pub decide : Bool → Bool → Exec LogRelay (Unit {0})
unfolding settle make_log_report
decide deadline child_acquired r =
    if is_some r.decision
    then (ok tt, r)
    else let s = settle deadline child_acquired r in
      (do
        report ← lift (make_log_report (ℤ.pos s.admitted) (is_none s.incomplete) s.incomplete)
        λ t. (ok tt, record t { decision = some report }))
        s

-- `report`, with the decision at hand.
project : Bool → Option LogReport → Result LogReport
unfolding make_log_report
project confirmed none = raised assertion_error
project confirmed (some decision) =
    if decision.complete && not confirmed
    then make_log_report (ℤ.pos decision.byte_count) false (
        some (
          diagnostic "LOG_DISPOSAL_UNCONFIRMED"
            "OpenOCD process disposal is unconfirmed; the log relay cannot be complete"
            Details.nil))
    else ok decision

-- `decide` returns at once where the decision is made.
unfoldable pub report : Bool → Exec LogRelay LogReport
unfolding decide project
report confirmed r = (do decide false true; λ s. (project confirmed s.decision, s)) r

-- The test of the loop of `pump` on the queue and the credit.
pub while_queued {ℓ} : {A : Type ℓ} → List Bytes → Bool → A → (Bytes → List Bytes → A) → A
while_queued [] credit stop round = stop
while_queued (chunk ∷ rest) false stop round = stop
while_queued (chunk ∷ rest) true stop round = round chunk rest

module _ {S : Type 0} (w : LogWriter S) where
  -- `output is None or output.log_pending < LOG_CREDIT_BYTES`
  pub has_credit : S → Bool
  has_credit out = elim (w.log_pending out) [ none ↦ true | some n ↦ ltb n log_credit_bytes ]

  -- The round of `pump` that admits `piece` and leaves the chunks `left` in the queue.
  pub pump_piece : Bytes → List Bytes → LogRelay → S → LogRelay × S
  unfolding record_incomplete lose_continuity
  pump_piece piece left r out =
      let popped = record r { buffer = left; buffered = r.buffered - length piece } in
      elim (w.emit_log r.admitted piece out).0 [
        | ok u ↦ (
          record popped { admitted = r.admitted + length piece },
          (w.emit_log r.admitted piece out).1,
        )
        | raised e ↦ (
          record_incomplete "LOG_DATA_ADMISSION"
              (string_append "log data was not admitted: " (message e)) (lose_continuity popped),
          (w.emit_log r.admitted piece out).1,
        )
      ]

  -- A chunk that is too long for one event is cut, and its rest put back.
  pub pump_one : Bytes → List Bytes → LogRelay → S → LogRelay × S
  pump_one chunk rest r out =
      if ltb max_log_data_bytes (length chunk)
      then pump_piece (take max_log_data_bytes chunk) (drop max_log_data_bytes chunk ∷ rest) r out
      else pump_piece chunk rest r out

  pub pump_from : ℕ → LogRelay → S → LogRelay × S
  pump_from zero r out = (r, out)
  pump_from (suc fuel) r out =
      while_queued r.buffer (has_credit out) (r, out)
        λ chunk rest. pump_from fuel (pump_one chunk rest r out).0 (pump_one chunk rest r out).1

  -- Each round takes a byte at least: after a refused admission the queue is empty.
  pub pump : LogRelay → S → LogRelay × S
  unfolding pump_from
  pump r out = pump_from (length (flatten r.buffer) + 1) r out

  -- `_log_progress` of helper/_session.py
  pub progress : LogRelay → S → LogRelay × S
  unfolding decide ready_to_decide
  progress r out =
      let (s, out') = pump r out in (if ready_to_decide s then (decide false true s).1 else s, out')
