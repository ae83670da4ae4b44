-- ===== src/Relay/Writer.antt =====
-- What the log relay uses of `emit_log` and `ProtocolOutput.log_pending` of helper/_streams.py.
use zephyr_remote_openocd.Shared.{ℕ, ◌≡◌, Option, List, [], ◌∷◌, ◌++◌, Error, Result, ok, raised}
use zephyr_remote_openocd.Wire.Frames.{Bytes}
use zephyr_remote_openocd.Streams.{Write}

-- One admitted LOG_DATA event.
pub record LogData : Type 0 where
  pub offset : ℕ
  pub bytes : Bytes

-- What the protocol output does between the relay's calls: a round of the writer task, which returns
-- credit, or the admission of another event.
pub data Between : Type 0 where
  writes : Write → Between
  enqueues : Bytes → Between

-- `log_pending` is `none` where there is no protocol output. `events` are the LOG_DATA events that the
-- writer has admitted: a call of `emit_log` that returns adds its own, and one that raises adds none,
-- nor does what happens in between.
pub record LogWriter (S : Type 0) : Type 0 where
  pub log_pending : S → Option ℕ
  pub emit_log : ℕ → Bytes → S → Result (Unit {0}) × S
  pub between : Between → S → S
  pub events : S → List LogData
  pub emit_log-ok :
      (n : ℕ) (bytes : Bytes) (s : S)
      → (emit_log n bytes s).0 ≡ ok tt
      → events (emit_log n bytes s).1 ≡ events s ++ (record { offset = n; bytes = bytes } ∷ [])
  pub emit_log-raised :
      (n : ℕ) (bytes : Bytes) (s : S) (e : Error)
      → (emit_log n bytes s).0 ≡ raised e
      → events (emit_log n bytes s).1 ≡ events s
  pub between-events : (b : Between) (s : S) → events (between b s) ≡ events s
