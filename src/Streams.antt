-- ===== src/Streams.antt =====
-- `ProtocolOutput` of helper/_streams.py: the bounded queue of encoded frames, and the writer task
-- that hands it to a nonblocking descriptor.
mod Tests
pub mod Order
pub mod Delivery
use Prim.Native.Nat.{min}
use zephyr_remote_openocd.Shared.{
  ℕ, zero, suc, ◌+◌, ◌-◌, ◌*◌, Bool, true, false, not, ◌&&◌, Option, none, some, List, [], ◌∷◌,
  ◌++◌, if◌then◌else◌, nat_beq, ltb, length, take, drop, Error, Result, ok, raised, buffer_error,
  runtime_error, Exec, is_some, is_none,
}
use zephyr_remote_openocd.Wire.Frames.{Bytes}

abbrev pub max_protocol_output_bytes : ℕ
max_protocol_output_bytes = 16 * 1024 * 1024

-- One entry of `frames`.
pub record Queued : Type 0 where
  pub frame : Bytes
  pub log : Bool

-- The events `available`, `empty` and `credit_returned` are their flags. `written` is what the
-- stream has taken so far; the code has no such field.
pub record ProtocolOutput : Type 0 where
  pub has_descriptor : Bool
  pub frames : List Queued
  pub pending_bytes : ℕ
  pub log_pending : ℕ
  pub offset : ℕ
  pub credit_returned : Bool
  pub available : Bool
  pub empty : Bool
  pub failure : Option Error
  pub written : Bytes

-- `ProtocolOutput.__init__`, where the descriptor's mode is set without an error
unfoldable pub new : Bool → ProtocolOutput
new has_descriptor = record {
  has_descriptor = has_descriptor;
  frames = [];
  pending_bytes = 0;
  log_pending = 0;
  offset = 0;
  credit_returned = false;
  available = false;
  empty = true;
  failure = none;
  written = [];
}

-- The queue after a frame is appended.
push : Bytes → Bool → ProtocolOutput → ProtocolOutput
push frame log s = record s {
  frames = s.frames ++ (record { frame = frame; log = log } ∷ []);
  pending_bytes = s.pending_bytes + length frame;
  log_pending = if log then s.log_pending + length frame else s.log_pending;
  empty = false;
  available = true;
}

enqueue_live : Bytes → Bool → Exec ProtocolOutput (Unit {0})
unfolding push
enqueue_live frame log s =
    if not s.has_descriptor
    then (ok tt, record s { written = s.written ++ frame })
    else if ltb max_protocol_output_bytes (s.pending_bytes + length frame)
    then (raised (buffer_error "protocol output backlog exceeded its bound"), s)
    else (ok tt, push frame log s)

unfoldable pub enqueue : Bytes → Bool → Exec ProtocolOutput (Unit {0})
unfolding enqueue_live
enqueue frame log s = elim s.failure [ some e ↦ (raised e, s) | none ↦ enqueue_live frame log s ]

-- What `os.write` does in one round of `run`: it takes some of the bytes it is offered, would block,
-- or fails.
pub data Write : Type 0 where
  accepts : ℕ → Write
  blocks : Write
  fails : Error → Write

-- `popleft` after the last byte of the first frame
pop_written : Queued → List Queued → ProtocolOutput → ProtocolOutput
pop_written first rest s = record s {
  frames = rest;
  offset = 0;
  log_pending = if first.log then s.log_pending - length first.frame else s.log_pending;
  credit_returned = if first.log then true else s.credit_returned;
}

-- The round after `os.write` took `count` bytes.
advance : ℕ → Queued → List Queued → ProtocolOutput → ProtocolOutput
unfolding pop_written
advance count first rest s =
    let t = record s {
      offset = s.offset + count;
      pending_bytes = s.pending_bytes - count;
      written = s.written ++ take count (drop s.offset first.frame);
    } in
    if nat_beq (s.offset + count) (length first.frame) then pop_written first rest t else t

-- One round of the loops of `run`: with no frame left it clears `available` and sets `empty`. The
-- descriptor takes at most the bytes that it is offered.
run_on : List Queued → Write → ProtocolOutput → ProtocolOutput
unfolding advance
run_on [] write s = record s { available = false; empty = true }
run_on (first ∷ rest) (accepts n) s =
    advance (min n (length (drop s.offset first.frame))) first rest s
run_on (first ∷ rest) blocks s = s
run_on (first ∷ rest) (fails e) s = record s { failure = some e; empty = true }

-- The writer task has ended once it has failed.
unfoldable pub run_once : Write → ProtocolOutput → ProtocolOutput
unfolding run_on
run_once write s = elim s.failure [ some e ↦ s | none ↦ run_on s.frames write s ]

-- `drain`, in the state in which its wait for `empty` ends: the event is set, or the deadline is met.
-- A frame that is enqueued after `empty` is set and before the waiter resumes is left out.
unfoldable pub drain : Exec ProtocolOutput (Unit {0})
drain s =
    if s.empty
    then elim s.failure [ some e ↦ (raised e, s) | none ↦ (ok tt, s) ]
    else (raised (runtime_error "protocol output did not drain before cleanup deadline"), s)

-- `close`, without the descriptor's mode
unfoldable pub close : ProtocolOutput → ProtocolOutput
close s = record s { frames = []; pending_bytes = 0; log_pending = 0; offset = 0; empty = true }
