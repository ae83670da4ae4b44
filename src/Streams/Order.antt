-- ===== src/Streams/Order.antt =====
-- The queue's accounting is exact, and its bytes leave in the order in which they were admitted.
use Prim.Native.Nat.{min}
use zephyr_remote_openocd.Shared.{
  ℕ, ◌+◌, ◌≤◌, ◌≡◌, refl, Bool, true, false, not, ◌||◌, List, [], ◌∷◌, ◌++◌, arith, if◌then◌else◌,
  length, take, drop, ap, List-cases, length-append, drop-append, drop-length, drop-drop,
  length-drop, take-append-drop, append_assoc, append-nil, ok, raised, is_some, inl, inr,
}
use zephyr_remote_openocd.Wire.Frames.{Bytes}
use zephyr_remote_openocd.Streams.{
  Queued, ProtocolOutput, new, enqueue, Write, accepts, blocks, fails, advance, run_on, run_once,
  max_protocol_output_bytes,
}

-- The bytes of the queued frames.
abbrev pub queued : List Queued → Bytes
queued [] = []
queued (q ∷ qs) = q.frame ++ queued qs

abbrev pub log_bytes : List Queued → ℕ
log_bytes [] = 0
log_bytes (q ∷ qs) = if q.log then length q.frame + log_bytes qs else log_bytes qs

abbrev pub first_length : List Queued → ℕ
first_length [] = 0
first_length (q ∷ qs) = length q.frame

abbrev pub is_empty : List Queued → Bool
is_empty [] = true
is_empty (q ∷ qs) = false

-- The admitted bytes that the stream has not taken.
abbrev pub unwritten : ProtocolOutput → Bytes
unwritten s = drop s.offset (queued s.frames)

pub record Inv (s : ProtocolOutput) : Type 0 where
  pub pending : s.pending_bytes + s.offset ≡ length (queued s.frames)
  pub log_part : s.log_pending ≡ log_bytes s.frames
  pub within : s.offset ≤ first_length s.frames
  pub direct : (s.has_descriptor || is_empty s.frames) ≡ true
  pub emptied : (not s.empty || (is_some s.failure || is_empty s.frames)) ≡ true
  pub bounded : s.pending_bytes ≤ max_protocol_output_bytes

queued-append : (qs : List Queued) (q : Queued) → queued (qs ++ (q ∷ [])) ≡ queued qs ++ q.frame
queued-append [] q = append-nil q.frame
queued-append (p ∷ qs) q = rw (queued-append qs q, append_assoc)

log_bytes-append :
    (qs : List Queued) (q : Queued)
    → log_bytes (qs ++ (q ∷ [])) ≡ (if q.log then log_bytes qs + length q.frame else log_bytes qs)
log_bytes-append [] q = ground arith
log_bytes-append (p ∷ qs) q = ground (arith, log_bytes-append qs q)

first_length-append :
    (qs : List Queued) (q : Queued) → first_length qs ≤ first_length (qs ++ (q ∷ []))
first_length-append [] q = omega arith
first_length-append (p ∷ qs) q = omega arith

pub new-Inv : (b : Bool) → Inv (new b)
unfolding new
new-Inv b = ground arith

pub enqueue-Inv : (f : Bytes) (log : Bool) (s : ProtocolOutput) → Inv s → Inv (enqueue f log s).1
unfolding enqueue
enqueue-Inv f log s h =
    let q : Queued = record { frame = f; log = log } in
    ground (
      arith,
      ap length (queued-append s.frames q),
      length-append (queued s.frames) f,
      log_bytes-append s.frames q,
      first_length-append s.frames q,
    )

module _ (s : ProtocolOutput) (first : Queued) (rest : List Queued) (count : ℕ)
    (frames : s.frames ≡ first ∷ rest) (fits : s.offset + count ≤ length first.frame)
    (h : Inv s) where
  advance-Inv : Inv (advance count first rest s)
  unfolding advance
  advance-Inv = ground (arith, length-append first.frame (queued rest))

  -- What the stream takes leaves the queue.
  advance-stream :
      (advance count first rest s).written ++ unwritten (advance count first rest s)
      ≡ s.written ++ unwritten s
  unfolding advance
  advance-stream =
      let sent = take count (drop s.offset first.frame) in
      let left = drop (s.offset + count) first.frame in
      ground (
        arith,
        drop-append s.offset first.frame (queued rest),
        drop-append (s.offset + count) first.frame (queued rest),
        drop-drop s.offset count first.frame,
        drop-length first.frame,
        take-append-drop count (drop s.offset first.frame),
        append_assoc s.written sent (left ++ queued rest),
        append_assoc sent left (queued rest),
      )

offered :
    (s : ProtocolOutput) (first : Queued) (n : ℕ)
    → s.offset ≤ length first.frame
    → s.offset + min n (length (drop s.offset first.frame)) ≤ length first.frame
offered s first n h = omega (arith, length-drop s.offset first.frame)

-- A round on a queue whose first frame is known.
module _ (s : ProtocolOutput) (first : Queued) (rest : List Queued)
    (frames : s.frames ≡ first ∷ rest) (h : Inv s) where
  run_first-Inv : (w : Write) → Inv (run_on (first ∷ rest) w s)
  unfolding run_on
  run_first-Inv (accepts n) =
      advance-Inv s first rest (min n (length (drop s.offset first.frame))) frames
        (offered s first n (ground arith)) h
  run_first-Inv blocks = h
  run_first-Inv (fails e) = ground arith

  run_first-stream :
      (w : Write)
      → (run_on (first ∷ rest) w s).written ++ unwritten (run_on (first ∷ rest) w s)
        ≡ s.written ++ unwritten s
  unfolding run_on
  run_first-stream (accepts n) =
      advance-stream s first rest (min n (length (drop s.offset first.frame))) frames
        (offered s first n (ground arith)) h
  run_first-stream blocks = refl
  run_first-stream (fails e) = refl

pub run_once-Inv : (w : Write) (s : ProtocolOutput) → Inv s → Inv (run_once w s)
unfolding run_once
run_once-Inv w s h = elim (List-cases s.frames) [
  | inl e ↦ ground (arith, e)
  | inr (q, qs, e) ↦ ground (arith, e, run_first-Inv s q qs e h w)
]

pub run_once-stream :
    (w : Write) (s : ProtocolOutput)
    → Inv s
    → (run_once w s).written ++ unwritten (run_once w s) ≡ s.written ++ unwritten s
unfolding run_once
run_once-stream w s h = elim (List-cases s.frames) [
  | inl e ↦ ground (arith, e)
  | inr (q, qs, e) ↦ ground (arith, e, run_first-stream s q qs e h w)
]

-- The bytes that a call of `enqueue` admits: none where it raises.
pub admitted : Bytes → Bool → ProtocolOutput → Bytes
admitted f log s = elim (enqueue f log s).0 [ ok u ↦ f | raised e ↦ [] ]

pub enqueue-stream :
    (f : Bytes) (log : Bool) (s : ProtocolOutput)
    → Inv s
    → (enqueue f log s).1.written ++ unwritten (enqueue f log s).1
      ≡ (s.written ++ unwritten s) ++ admitted f log s
unfolding enqueue admitted
enqueue-stream f log s h =
    let q : Queued = record { frame = f; log = log } in
    ground (
      arith,
      queued-append s.frames q,
      drop-append s.offset (queued s.frames) f,
      append_assoc s.written (unwritten s) f,
      append-nil (s.written ++ unwritten s),
      append-nil s.written,
      append-nil (s.written ++ f),
    )
