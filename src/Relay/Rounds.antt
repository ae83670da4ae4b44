-- ===== src/Relay/Rounds.antt =====
-- The loop of `pump` ends: the fuel of the model is enough.
use zephyr_remote_openocd.Shared.{
  ℕ, zero, suc, ◌+◌, ◌<◌, ◌≡◌, ◌⊎◌, refl, Bool, true, false, List, [], ◌∷◌, arith, ap, ltb→lt, ltb,
  length, flatten, Bool-cases, List-cases, Result-cases, inl, inr, length-append, length-drop, take,
  drop,
}
use zephyr_remote_openocd.Wire.Frames.{Bytes}
use zephyr_remote_openocd.Relay.Writer.{LogWriter}
use zephyr_remote_openocd.Relay.{
  LogRelay, is_empty, max_log_data_bytes, has_credit, pump, pump_from, while_queued, pump_one,
  pump_piece, lose_continuity, record_incomplete,
}
use zephyr_remote_openocd.Relay.Calls.{Call, Relaying, begun, begun-Kept, run, run-Kept}
use zephyr_remote_openocd.Relay.Invariant.{Inv}
use zephyr_remote_openocd.Relay.Pumping.{pump_one-Inv, pump_from-at}

positive : (c : Bytes) → is_empty c ≡ false → 0 < length c
positive [] e = cc
positive (x ∷ c) e = omega arith

abbrev queue_size : LogRelay → ℕ
queue_size r = length (flatten r.buffer)

module _ {S : Type 0} (w : LogWriter S) where
  pump_piece-shorter :
      (k : Bytes) (left : List Bytes) (r : LogRelay) (out : S) (n : ℕ)
      → length (flatten left) < n
      → queue_size (pump_piece w k left r out).0 < n
  unfolding pump_piece record_incomplete lose_continuity
  pump_piece-shorter k left r out n h = elim (Result-cases (w.emit_log r.admitted k out).0) [
    | inl (u, e) ↦ rw (e, pump_piece) h
    | inr (x, e) ↦ rw (e, pump_piece) (ground arith)
  ]

  pump_one-shorter :
      (c : Bytes) (rest : List Bytes) (r : LogRelay) (out : S)
      → is_empty c ≡ false
      → queue_size (pump_one w c rest r out).0 < length (flatten (c ∷ rest))
  unfolding pump_one
  pump_one-shorter c rest r out e = elim (Bool-cases (ltb max_log_data_bytes (length c))) [
    | inl long ↦ rw long (
        pump_piece-shorter (take max_log_data_bytes c) (drop max_log_data_bytes c ∷ rest) r out
          (length (flatten (c ∷ rest)))
          (omega (
            arith,
            length-append (drop max_log_data_bytes c) (flatten rest),
            length-append c (flatten rest),
            length-drop max_log_data_bytes c,
            ltb→lt _ _ long,
          )))
    | inr short ↦ rw short (
        pump_piece-shorter c rest r out (length (flatten (c ∷ rest)))
          (omega (arith, length-append c (flatten rest), positive c e)))
  ]

  pump_from-ends :
      (fuel : ℕ) (acquired : Bool) (fed lost : Bytes) (r : LogRelay) (out : S)
      → Inv acquired fed lost r (w.events out)
      → queue_size r < fuel
      → ((pump_from w fuel r out).0.buffer ≡ []) ⊎ (has_credit w (pump_from w fuel r out).1 ≡ false)
  unfolding while_queued
  pump_from-ends zero acquired fed lost r out h n = absurd (omega arith)
  pump_from-ends (suc fuel) acquired fed lost r out h n = elim (List-cases r.buffer) [
    | inl e ↦ inl (rw (pump_from-at w fuel r out [] (has_credit w out) e refl) e)
    | inr (c, rest, e) ↦ elim (Bool-cases (has_credit w out)) [
      | inl credit ↦
          let (lost', h') = pump_one-Inv w acquired fed lost r out h c rest e in
          rw (pump_from-at w fuel r out (c ∷ rest) true e credit) (
            pump_from-ends fuel acquired fed lost' (pump_one w c rest r out).0
              (pump_one w c rest r out).1 h'
              (omega (
                arith,
                pump_one-shorter c rest r out (ground arith),
                ap (λ (q : List Bytes). length (flatten q)) e,
              )))
      | inr spent ↦ inr (rw (pump_from-at w fuel r out (c ∷ rest) false e spent) spent)
    ]
  ]

module _ {S : Type 0} (w : LogWriter S) (out : S) (fresh : w.events out ≡ []) (cs : List Call) where
  abbrev reached : Relaying S
  reached = run w (begun w out) cs

  -- After any calls on a new relay, where the writer has no events at the start, a `pump` goes on
  -- until the queue is empty or the writer's log credit is used up.
  pub pump_ends :
      ((pump w reached.relay reached.out).0.buffer ≡ [])
      ⊎ (has_credit w (pump w reached.relay reached.out).1 ≡ false)
  unfolding pump
  pump_ends =
      let (lost, (h, _)) = run-Kept w (begun w out) cs (begun-Kept w out fresh) in
      pump_from-ends w (length (flatten reached.relay.buffer) + 1) reached.acquired reached.fed lost
        reached.relay reached.out h (omega arith)
