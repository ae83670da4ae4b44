-- ===== src/Relay/Prefix.antt =====
-- The relay admits an exact prefix of the channel's bytes, and claims completeness only for all of them.
use zephyr_remote_openocd.Shared.{
  ◌≤◌, ◌≡◌, true, false, some, List, [], ◌++◌, arith, length, flatten, append-nil,
}
use zephyr_remote_openocd.Outcome.{LogReport}
use zephyr_remote_openocd.Wire.Frames.{Bytes}
use zephyr_remote_openocd.Relay.Writer.{LogWriter}
use zephyr_remote_openocd.Relay.{log_relay_buffer_bytes}
use zephyr_remote_openocd.Relay.Invariant.{sent, contiguous}
use zephyr_remote_openocd.Relay.Calls.{Call, Relaying, begun, begun-Kept, run, run-Kept}

module _ {S : Type 0} (w : LogWriter S) (out : S) (fresh : w.events out ≡ []) (cs : List Call) where
  abbrev final : Relaying S
  final = run w (begun w out) cs

  -- After any calls on a new relay, whatever the writer refuses and whenever it returns credit, the
  -- admitted LOG_DATA bytes are a prefix of the bytes read from the channel; the events are contiguous
  -- from offset 0, none is empty or longer than `MAX_LOG_DATA_BYTES`; and `admitted` is their total.
  pub admitted_prefix :
      (rest : Bytes) × (sent (w.events final.out) ++ rest ≡ final.fed)
      × (contiguous 0 (w.events final.out) ≡ true)
      × (final.relay.admitted ≡ length (sent (w.events final.out)))
  admitted_prefix =
      let (lost, (h, _)) = run-Kept w (begun w out) cs (begun-Kept w out fresh) in
      (flatten final.relay.buffer ++ lost, h.stream, h.offsets, h.total)

  -- The relay never holds more than `LOG_RELAY_BUFFER_BYTES` bytes, and `_buffered` counts them.
  pub buffer_bounded :
      (final.relay.buffered ≡ length (flatten final.relay.buffer))
      × (final.relay.buffered ≤ log_relay_buffer_bytes)
  buffer_bounded =
      let (lost, (h, _)) = run-Kept w (begun w out) cs (begun-Kept w out fresh) in
      (h.size, h.bounded)

  -- A decision that claims a complete log is true: all bytes that were read from the channel were
  -- admitted, and the byte count is their number; and where a child was acquired, the channel was read
  -- to its end and the disposal is confirmed. Where none was acquired, nothing was read, since only a
  -- child writes to the channel.
  pub complete_is_exact :
      (decision : LogReport)
      → final.relay.decision ≡ some decision
      → decision.complete ≡ true
      → (sent (w.events final.out) ≡ final.fed)
        × (decision.byte_count ≡ length final.fed)
        × (final.acquired ≡ true
            → (final.relay.end_of_file ≡ true) × (final.relay.disposal_confirmed ≡ true))
        × (final.acquired ≡ false → final.fed ≡ [])
  complete_is_exact decision e complete =
      let (lost, (h, unread)) = run-Kept w (begun w out) cs (begun-Kept w out fresh) in
      ground (arith, unread, append-nil (sent (w.events final.out)))
