-- ===== src/Relay/Protocol.antt =====
-- `emit_log` and `ProtocolOutput` of helper/_streams.py as the writer that the log relay uses. The
-- text of a frame is `encode_frame`'s, a parameter; the events are those that `enqueue` has taken.
use zephyr_remote_openocd.Shared.{
  ℕ, ◌≡◌, refl, true, false, some, List, [], ◌∷◌, ◌++◌, arith, Error, Result, ok, raised,
}
use zephyr_remote_openocd.Wire.Frames.{Bytes}
use zephyr_remote_openocd.Streams.{ProtocolOutput, enqueue, run_once}
use zephyr_remote_openocd.Relay.Writer.{LogData, LogWriter, Between, writes, enqueues}

abbrev pub Output : Type 0
Output = ProtocolOutput × List LogData

abbrev pub with_event : Result (Unit {0}) → LogData → List LogData → List LogData
with_event (ok u) event events = events ++ (event ∷ [])
with_event (raised e) event events = events

pub with_event-ok :
    (r : Result (Unit {0})) (event : LogData) (events : List LogData)
    → r ≡ ok tt
    → with_event r event events ≡ events ++ (event ∷ [])
with_event-ok (ok u) event events h = refl
with_event-ok (raised e) event events h = absurd (ground arith)

pub with_event-raised :
    (r : Result (Unit {0})) (event : LogData) (events : List LogData) (e : Error)
    → r ≡ raised e
    → with_event r event events ≡ events
with_event-raised (ok u) event events e h = absurd (ground arith)
with_event-raised (raised x) event events e h = refl

abbrev pub between : Between → Output → Output
between (writes write) (out, events) = (run_once write out, events)
between (enqueues frame) (out, events) = ((enqueue frame false out).1, events)

pub between-same : (b : Between) (s : Output) → (between b s).1 ≡ s.1
between-same (writes write) s = refl
between-same (enqueues frame) s = refl

-- `emit_log` of a frame, and the protocol output around it
abbrev pub protocol_output : (ℕ → Bytes → Bytes) → LogWriter Output
protocol_output encode_frame = record {
  log_pending = λ s. some s.0.log_pending;
  emit_log = λ offset bytes s. (
    (enqueue (encode_frame offset bytes) true s.0).0,
    (
      (enqueue (encode_frame offset bytes) true s.0).1,
      with_event (enqueue (encode_frame offset bytes) true s.0).0
          (record { offset = offset; bytes = bytes }) s.1,
    ),
  );
  between = between;
  events = λ s. s.1;
  emit_log-ok = λ n bytes s h. with_event-ok _ (record { offset = n; bytes = bytes }) s.1 h;
  emit_log-raised =
      λ n bytes s e h. with_event-raised _ (record { offset = n; bytes = bytes }) s.1 e h;
  between-events = between-same;
}
