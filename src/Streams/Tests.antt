-- ===== src/Streams/Tests.antt =====
-- A concrete life of the writer.
use zephyr_remote_openocd.Shared.{◌≤◌, ◌≡◌, refl, true, false, List, [], ◌∷◌, ◌++◌, ok, length}
use zephyr_remote_openocd.Streams.{
  new, enqueue, accepts, blocks, run_once, drain, max_protocol_output_bytes,
}
use zephyr_remote_openocd.Streams.Order.{unwritten}
use zephyr_remote_openocd.Streams.Delivery.{
  Event, enqueues, writes, step, run, admissions, writes_in_order, pending_exact, drain-delivers,
}

-- Two frames; the descriptor takes two bytes, blocks, then takes the rest and sees the queue empty.
abbrev events : List Event
events =
    enqueues (1 ∷ 2 ∷ 10 ∷ []) false
    ∷ writes (accepts 2)
    ∷ enqueues (3 ∷ 10 ∷ []) true
    ∷ writes blocks
    ∷ writes (accepts 100)
    ∷ []

abbrev complete : List Event
complete = events ++ (writes (accepts 5) ∷ writes blocks ∷ [])

written_all : (run (new true) complete).written ≡ 1 ∷ 2 ∷ 10 ∷ 3 ∷ 10 ∷ []
unfolding run step new enqueue run_once
written_all = refl

drained_all : (drain (run (new true) complete)).0 ≡ ok tt
unfolding drain run step new enqueue run_once
drained_all = refl

writes_in_order_example :
    (run (new true) events).written ++ unwritten (run (new true) events)
    ≡ admissions (new true) events
writes_in_order_example = writes_in_order true events

pending_exact_example :
    ((run (new true) events).pending_bytes ≡ length (unwritten (run (new true) events)))
    × ((run (new true) events).pending_bytes ≤ max_protocol_output_bytes)
pending_exact_example = pending_exact true events

drain-delivers_example : (run (new true) complete).written ≡ admissions (new true) complete
drain-delivers_example = drain-delivers true complete drained_all
