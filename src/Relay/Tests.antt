-- ===== src/Relay/Tests.antt =====
-- A relay over the protocol output.
use zephyr_remote_openocd.Shared.{
  ◌≤◌, ◌≡◌, ◌⊎◌, refl, true, false, none, some, List, [], ◌∷◌, ◌++◌, length, flatten,
}
use zephyr_remote_openocd.Outcome.{LogReport}
use zephyr_remote_openocd.Wire.Frames.{Bytes}
use zephyr_remote_openocd.Streams
use zephyr_remote_openocd.Streams.{accepts}
use zephyr_remote_openocd.Relay.Writer.{LogWriter, writes}
use zephyr_remote_openocd.Relay.Protocol.{Output, protocol_output}
use zephyr_remote_openocd.Relay.{
  while_queued, has_credit, pump_one, pump_piece, new, accept, confirm_disposal, ready_to_decide,
  decide, pump, progress, log_relay_buffer_bytes,
}
use zephyr_remote_openocd.Relay.Invariant.{sent, contiguous}
use zephyr_remote_openocd.Relay.Calls.{
  Call, reads, progresses, confirms, acquires, passes, Relaying, begun, run, step,
}
use zephyr_remote_openocd.Relay.Prefix.{admitted_prefix, buffer_bounded, complete_is_exact}
use zephyr_remote_openocd.Relay.Rounds.{pump_ends}

-- The protocol output, with the bytes of a log event as its frame
abbrev writer : LogWriter Output
writer = protocol_output (λ offset bytes. bytes)

abbrev output : Output
output = (Streams.new true, [])

abbrev calls : List Call
calls =
    acquires
    ∷ reads (7 ∷ 8 ∷ 9 ∷ [])
    ∷ progresses
    ∷ passes (writes (accepts 2))
    ∷ reads (10 ∷ [])
    ∷ passes (writes (accepts 9))
    ∷ reads []
    ∷ confirms
    ∷ progresses
    ∷ []

abbrev all_of_it : LogReport
all_of_it = record { byte_count = 4; complete = true; diagnostic = none }

new_events : output.1 ≡ []
new_events = refl

abbrev last : Relaying Output
last = run writer (begun writer output) calls

decided : last.relay.decision ≡ some all_of_it
unfolding run step new accept confirm_disposal progress pump decide ready_to_decide while_queued
    has_credit pump_one pump_piece Streams.new Streams.enqueue Streams.run_once
decided = refl

admitted_prefix_example :
    (rest : Bytes) × (sent last.out.1 ++ rest ≡ last.fed)
    × (contiguous 0 last.out.1 ≡ true)
    × (last.relay.admitted ≡ length (sent last.out.1))
admitted_prefix_example = admitted_prefix writer output new_events calls

buffer_bounded_example :
    (last.relay.buffered ≡ length (flatten last.relay.buffer))
    × (last.relay.buffered ≤ log_relay_buffer_bytes)
buffer_bounded_example = buffer_bounded writer output new_events calls

complete_is_exact_example :
    (sent last.out.1 ≡ last.fed)
    × (all_of_it.byte_count ≡ length last.fed)
    × (last.acquired ≡ true
        → (last.relay.end_of_file ≡ true) × (last.relay.disposal_confirmed ≡ true))
    × (last.acquired ≡ false → last.fed ≡ [])
complete_is_exact_example = complete_is_exact writer output new_events calls all_of_it decided refl

abbrev half : Relaying Output
half = run writer (begun writer output) (acquires ∷ reads (7 ∷ 8 ∷ []) ∷ [])

pump_ends_example :
    ((pump writer half.relay half.out).0.buffer ≡ [])
    ⊎ (has_credit writer (pump writer half.relay half.out).1 ≡ false)
pump_ends_example = pump_ends writer output new_events (acquires ∷ reads (7 ∷ 8 ∷ []) ∷ [])
