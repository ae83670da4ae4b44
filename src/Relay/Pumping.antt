-- ===== src/Relay/Pumping.antt =====
-- `pump` keeps the invariant, whatever the writer does.
use zephyr_remote_openocd.Shared.{
  ℕ, zero, suc, ◌+◌, ◌-◌, ◌≤◌, ◌<◌, ◌≡◌, refl, Bool, true, false, not, none, List, [], ◌∷◌, ◌++◌,
  arith, ap, ap₂, ltb, length, ltb→lt, take, drop, all, flatten, length-append, length-take,
  take-append-drop, append_assoc, append-nil, Bool-cases, List-cases, Result-cases, inl, inr,
  String,
}
use zephyr_remote_openocd.Wire.Frames.{Bytes}
use zephyr_remote_openocd.Relay.Writer.{LogData, LogWriter}
use zephyr_remote_openocd.Relay.{
  LogRelay, is_empty, max_log_data_bytes, record_incomplete, lose_continuity, pump_piece, pump_one,
  pump_from, while_queued, pump, has_credit,
}
use zephyr_remote_openocd.Relay.Invariant.{Inv, sent, contiguous}

sent-snoc : (es : List LogData) (e : LogData) → sent (es ++ (e ∷ [])) ≡ sent es ++ e.bytes
sent-snoc [] e = append-nil e.bytes
sent-snoc (d ∷ es) e = rw (sent-snoc es e, append_assoc)

contiguous-snoc :
    (n : ℕ) (es : List LogData) (e : LogData)
    → contiguous n es ≡ true
    → e.offset ≡ n + length (sent es)
    → is_empty e.bytes ≡ false
    → length e.bytes ≤ max_log_data_bytes
    → contiguous n (es ++ (e ∷ [])) ≡ true
contiguous-snoc n [] e h o b l = ground arith
contiguous-snoc n (d ∷ es) e h o b l =
    ground (arith, contiguous-snoc (n + length d.bytes) es e, length-append d.bytes (sent es))

nonempty_take_of : (n : ℕ) (c : Bytes) → 0 < n → is_empty c ≡ false → is_empty (take n c) ≡ false
nonempty_take_of zero c h e = elim h [ ]
nonempty_take_of (suc n) [] h e = e
nonempty_take_of (suc n) (x ∷ c) h e = refl

nonempty_drop : (n : ℕ) (c : Bytes) → n < length c → is_empty (drop n c) ≡ false
nonempty_drop zero [] h = elim h [ ]
nonempty_drop zero (x ∷ c) h = refl
nonempty_drop (suc n) [] h = absurd (omega arith)
nonempty_drop (suc n) (x ∷ c) h = nonempty_drop n c (omega arith)

chunks_left :
    (n : ℕ) (c : Bytes) (rest : List Bytes)
    → n < length c
    → all rest (λ x. not (is_empty x)) ≡ true
    → all (drop n c ∷ rest) (λ x. not (is_empty x)) ≡ true
chunks_left n c rest h e = rw (nonempty_drop n c h) e

-- The round with `k` sent of the first chunk and the rest, `left`, kept in front.
module _ (acquired : Bool) (fed lost : Bytes) (r : LogRelay) (es : List LogData)
    (h : Inv acquired fed lost r es) (c : Bytes) (rest : List Bytes)
    (queue : r.buffer ≡ c ∷ rest) where
  undecided : r.decision ≡ none
  undecided = ground arith

  tail_chunks : all rest (λ x. not (is_empty x)) ≡ true
  tail_chunks = ground arith

  nonempty_take : is_empty (take max_log_data_bytes c) ≡ false
  nonempty_take = nonempty_take_of max_log_data_bytes c (omega arith) (ground arith)

  -- An admitted piece moves from the queue to the events.
  moved :
      (k : Bytes) (left : List Bytes)
      → k ++ flatten left ≡ flatten r.buffer
      → is_empty k ≡ false
      → length k ≤ max_log_data_bytes
      → all left (λ x. not (is_empty x)) ≡ true
      → Inv acquired fed lost
          (record r {
            buffer = left;
            buffered = r.buffered - length k;
            admitted = r.admitted + length k;
          })
          (es ++ (record { offset = r.admitted; bytes = k } ∷ []))
  moved k left cut nonempty small chunks =
      let e : LogData = record { offset = r.admitted; bytes = k } in
      ground (
        arith,
        undecided,
        sent-snoc es e,
        contiguous-snoc 0 es e,
        length-append (sent es) k,
        length-append k (flatten left),
        ap length cut,
        append_assoc (sent es) k (flatten left ++ lost),
        append_assoc k (flatten left) lost,
      )

  refused :
      (code text : String) (k : Bytes) (left : List Bytes)
      → Inv acquired fed
          (flatten r.buffer ++ lost)
          (record_incomplete code text
            (lose_continuity (record r { buffer = left; buffered = r.buffered - length k })))
          es
  unfolding record_incomplete lose_continuity
  refused code text k left = ground (arith, undecided)

module _ {S : Type 0} (w : LogWriter S) (acquired : Bool) (fed lost : Bytes) (r : LogRelay)
    (out : S) (h : Inv acquired fed lost r (w.events out)) (c : Bytes) (rest : List Bytes)
    (queue : r.buffer ≡ c ∷ rest) where
  pump_piece-Inv :
      (k : Bytes) (left : List Bytes)
      → k ++ flatten left ≡ flatten r.buffer
      → is_empty k ≡ false
      → length k ≤ max_log_data_bytes
      → all left (λ x. not (is_empty x)) ≡ true
      → (lost' : Bytes) × Inv acquired fed lost'
          (pump_piece w k left r out).0
          (w.events (pump_piece w k left r out).1)
  unfolding pump_piece
  pump_piece-Inv k left cut nonempty small chunks =
      elim (Result-cases (w.emit_log r.admitted k out).0) [
        | inl (u, e) ↦ (
          lost,
          rw (e, pump_piece, w.emit_log-ok r.admitted k out e)
              (moved acquired fed lost r (w.events out) h c rest queue k left cut nonempty small
                chunks),
        )
        | inr (x, e) ↦ (
          flatten r.buffer ++ lost,
          rw (e, pump_piece, w.emit_log-raised r.admitted k out x e)
              (refused acquired fed lost r (w.events out) h c rest queue _ _ k left),
        )
      ]

  pub pump_one-Inv :
      (lost' : Bytes) × Inv acquired fed lost'
        (pump_one w c rest r out).0
        (w.events (pump_one w c rest r out).1)
  unfolding pump_one
  pump_one-Inv = elim (Bool-cases (ltb max_log_data_bytes (length c))) [
    | inl long ↦ rw long (
        pump_piece-Inv (take max_log_data_bytes c) (drop max_log_data_bytes c ∷ rest)
          (rw queue (rw (← append_assoc, take-append-drop)))
          (nonempty_take acquired fed lost r (w.events out) h c rest queue)
          (omega (arith, length-take max_log_data_bytes c (ground arith)))
          (chunks_left max_log_data_bytes c rest (ltb→lt _ _ long)
            (tail_chunks acquired fed lost r (w.events out) h c rest queue)))
    | inr short ↦
        rw short (pump_piece-Inv c rest (rw queue) (ground arith) (ground arith) (ground arith))
  ]

module _ {S : Type 0} (w : LogWriter S) (fuel : ℕ) (r : LogRelay) (out : S) where
  -- One test of the loop, on a queue that is known.
  pub pump_from-at :
      (queue : List Bytes) (credit : Bool)
      → r.buffer ≡ queue
      → has_credit w out ≡ credit
      → pump_from w (suc fuel) r out
        ≡ while_queued queue credit
            (r, out)
            (λ c rest. pump_from w fuel (pump_one w c rest r out).0 (pump_one w c rest r out).1)
  unfolding pump_from
  pump_from-at queue credit e k =
      ap₂
        (λ (q : List Bytes) (b : Bool).
          while_queued q b (r, out)
            (λ c rest. pump_from w fuel (pump_one w c rest r out).0 (pump_one w c rest r out).1))
        e k

module _ {S : Type 0} (w : LogWriter S) (acquired : Bool) (fed : Bytes) where
  pump_from-Inv :
      (fuel : ℕ) (lost : Bytes) (r : LogRelay) (out : S)
      → Inv acquired fed lost r (w.events out)
      → (lost' : Bytes) × Inv acquired fed lost'
          (pump_from w fuel r out).0
          (w.events (pump_from w fuel r out).1)
  unfolding while_queued
  pump_from-Inv zero lost r out h = unfold pump_from in (lost, h)
  pump_from-Inv (suc fuel) lost r out h = elim (List-cases r.buffer) [
    | inl e ↦ (lost, rw (pump_from-at w fuel r out [] (has_credit w out) e refl) h)
    | inr (c, rest, e) ↦ elim (Bool-cases (has_credit w out)) [
      | inl credit ↦
          let (lost', h') = pump_one-Inv w acquired fed lost r out h c rest e in
          rw (pump_from-at w fuel r out (c ∷ rest) true e credit)
            (pump_from-Inv fuel lost' (pump_one w c rest r out).0 (pump_one w c rest r out).1 h')
      | inr spent ↦ (lost, rw (pump_from-at w fuel r out (c ∷ rest) false e spent) h)
    ]
  ]

  pub pump-Inv :
      (lost : Bytes) (r : LogRelay) (out : S)
      → Inv acquired fed lost r (w.events out)
      → (lost' : Bytes) × Inv acquired fed lost' (pump w r out).0 (w.events (pump w r out).1)
  unfolding pump
  pump-Inv lost r out h = pump_from-Inv (length (flatten r.buffer) + 1) lost r out h
