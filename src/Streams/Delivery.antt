-- ===== src/Streams/Delivery.antt =====
-- The whole life of the writer: frames are admitted and rounds of the writer task run in any order.
use zephyr_remote_openocd.Shared.{
  ◌≤◌, ◌≡◌, refl, sym, ap, Bool, List, [], ◌∷◌, ◌++◌, arith, length, length-drop, append_assoc,
  append-nil, List-cases, inl, inr, ◌∙◌, ok,
}
use zephyr_remote_openocd.Wire.Frames.{Bytes}
use zephyr_remote_openocd.Streams.{
  ProtocolOutput, new, enqueue, Write, run_once, max_protocol_output_bytes, drain,
}
use zephyr_remote_openocd.Streams.Order.{
  Inv, new-Inv, enqueue-Inv, run_once-Inv, run_once-stream, enqueue-stream, admitted, unwritten,
  queued,
}

pub data Event : Type 0 where
  enqueues : Bytes → Bool → Event
  writes : Write → Event

unfoldable pub step : Event → ProtocolOutput → ProtocolOutput
step (enqueues frame log) s = (enqueue frame log s).1
step (writes w) s = run_once w s

unfoldable pub run : ProtocolOutput → List Event → ProtocolOutput
run s [] = s
run s (e ∷ es) = run (step e s) es

-- The bytes of the frames that `enqueue` did not refuse, in the order of the calls.
unfoldable pub admissions : ProtocolOutput → List Event → Bytes
admissions s [] = []
admissions s (enqueues frame log ∷ es) =
    admitted frame log s ++ admissions (step (enqueues frame log) s) es
admissions s (writes w ∷ es) = admissions (step (writes w) s) es

step-Inv : (e : Event) (s : ProtocolOutput) → Inv s → Inv (step e s)
unfolding step
step-Inv (enqueues f log) s h = enqueue-Inv f log s h
step-Inv (writes w) s h = run_once-Inv w s h

run-Inv : (s : ProtocolOutput) (es : List Event) → Inv s → Inv (run s es)
unfolding run
run-Inv s [] h = h
run-Inv s (e ∷ es) h = run-Inv (step e s) es (step-Inv e s h)

step-stream_enqueues :
    (f : Bytes) (log : Bool) (s : ProtocolOutput)
    → Inv s
    → (step (enqueues f log) s).written ++ unwritten (step (enqueues f log) s)
      ≡ (s.written ++ unwritten s) ++ admitted f log s
unfolding step
step-stream_enqueues f log s h = enqueue-stream f log s h

step-stream_writes :
    (w : Write) (s : ProtocolOutput)
    → Inv s
    → (step (writes w) s).written ++ unwritten (step (writes w) s) ≡ s.written ++ unwritten s
unfolding step
step-stream_writes w s h = run_once-stream w s h

run-stream :
    (s : ProtocolOutput) (es : List Event)
    → Inv s
    → (run s es).written ++ unwritten (run s es) ≡ (s.written ++ unwritten s) ++ admissions s es
unfolding run admissions
run-stream s [] h = rw append-nil
run-stream s (enqueues f log ∷ es) h =
    let t = step (enqueues f log) s in
    run-stream t es (step-Inv (enqueues f log) s h)
    ∙ ap (λ (xs : Bytes). xs ++ admissions t es) (step-stream_enqueues f log s h)
    ∙ append_assoc (s.written ++ unwritten s) (admitted f log s) (admissions t es)
run-stream s (writes w ∷ es) h =
    let t = step (writes w) s in
    run-stream t es (step-Inv (writes w) s h)
    ∙ ap (λ (xs : Bytes). xs ++ admissions t es) (step-stream_writes w s h)

-- After any calls of `enqueue` and any rounds of the writer, the bytes that the stream has taken,
-- followed by those that are still queued, are the admitted frames in the order of admission.
pub writes_in_order :
    (has_descriptor : Bool) (es : List Event)
    → (run (new has_descriptor) es).written ++ unwritten (run (new has_descriptor) es)
      ≡ admissions (new has_descriptor) es
writes_in_order b es = run-stream (new b) es (new-Inv b) ∙ (unfold new in refl)

-- The backlog counter is exactly the number of admitted bytes that are not written, and within the
-- bound, after any calls of `enqueue` and any rounds of the writer.
pub pending_exact :
    (has_descriptor : Bool) (es : List Event)
    → ((run (new has_descriptor) es).pending_bytes
        ≡ length (unwritten (run (new has_descriptor) es)))
      × ((run (new has_descriptor) es).pending_bytes ≤ max_protocol_output_bytes)
pending_exact b es =
    let s = run (new b) es in
    let h = run-Inv (new b) es (new-Inv b) in
    (omega (arith, h.pending, length-drop s.offset (queued s.frames)), h.bounded)

drained : (s : ProtocolOutput) → Inv s → (drain s).0 ≡ ok tt → unwritten s ≡ []
unfolding drain
drained s h d = elim (List-cases s.frames) [
  | inl e ↦ let at_start : s.offset ≡ 0 = ground (arith, e) in rw (at_start, e)
  | inr (q, qs, e) ↦ absurd (ground (arith, e))
]

-- When a `drain` returns without an exception, the stream has taken all admitted bytes.
pub drain-delivers :
    (has_descriptor : Bool) (es : List Event)
    → (drain (run (new has_descriptor) es)).0 ≡ ok tt
    → (run (new has_descriptor) es).written ≡ admissions (new has_descriptor) es
drain-delivers b es d =
    let s = run (new b) es in
    sym (append-nil s.written)
    ∙ ap (λ (xs : Bytes). s.written ++ xs) (sym (drained s (run-Inv (new b) es (new-Inv b)) d))
    ∙ writes_in_order b es
