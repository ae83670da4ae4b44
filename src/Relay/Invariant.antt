-- ===== src/Relay/Invariant.antt =====
-- What holds of the relay, the bytes that were read from the channel and the admitted events.
use zephyr_remote_openocd.Shared.{
  ℕ, zero, suc, ◌+◌, ◌-◌, ◌≤◌, ◌≡◌, refl, Bool, true, false, not, ◌&&◌, ◌||◌, Option, none, some,
  List, [], ◌∷◌, ◌++◌, arith, ap, if◌then◌else◌, nat_beq, leb, length, take, drop, all, all-append,
  flatten, flatten-append, length-append, length-take, take-append-drop, append_assoc, append-nil,
  Error, is_some, ◌∙◌,
}
use zephyr_remote_openocd.Outcome.{LogReport}
use zephyr_remote_openocd.Wire.Frames.{Bytes}
use zephyr_remote_openocd.Relay.Writer.{LogData}
use zephyr_remote_openocd.Relay.{
  LogRelay, new, accept, confirm_disposal, cut, read_failed, decide, is_empty,
  log_relay_buffer_bytes, max_log_data_bytes,
}

-- The bytes of the admitted events.
abbrev pub sent : List LogData → Bytes
sent [] = []
sent (e ∷ es) = e.bytes ++ sent es

-- Each event starts where the one before it ends, and has a byte at least and no more than a
-- LOG_DATA event may have.
abbrev pub contiguous : ℕ → List LogData → Bool
contiguous n [] = true
contiguous n (e ∷ es) =
    (nat_beq e.offset n && (not (is_empty e.bytes) && leb (length e.bytes) max_log_data_bytes))
    && contiguous (n + length e.bytes) es

-- A decision is made of the totals, and claims completeness only for the whole stream. Where a child
-- was acquired, the stream has been read to its end after confirmed disposal.
abbrev Decided : Bool → Bytes → LogRelay → Option LogReport → Type 0
Decided acquired lost r none = Unit
Decided acquired lost r (some report) =
    (report.byte_count ≡ r.admitted)
    × (r.buffer ≡ [])
    × (r.continuity_lost ≡ true)
    × (report.complete ≡ true
        → (lost ≡ []) × (acquired ≡ true → (r.end_of_file ≡ true) × (r.disposal_confirmed ≡ true)))

-- `lost` are the bytes that were read and will not be admitted.
pub record Inv (acquired : Bool) (fed lost : Bytes) (r : LogRelay) (events : List LogData)
    : Type 0 where
  pub stream : sent events ++ (flatten r.buffer ++ lost) ≡ fed
  pub total : r.admitted ≡ length (sent events)
  pub offsets : contiguous 0 events ≡ true
  pub size : r.buffered ≡ length (flatten r.buffer)
  pub bounded : r.buffered ≤ log_relay_buffer_bytes
  pub chunks : all r.buffer (λ c. not (is_empty c)) ≡ true
  pub kept : r.continuity_lost ≡ false → lost ≡ []
  pub known : r.continuity_lost ≡ true → (is_some r.incomplete || is_some r.decision) ≡ true
  pub decided : Decided acquired lost r r.decision

pub new-Inv : (acquired : Bool) → Inv acquired [] [] new []
unfolding new
new-Inv acquired = ground arith

-- The bytes that a call of `accept` gives up.
pub accept_lost : Bytes → LogRelay → Bytes
accept_lost chunk r =
    if r.continuity_lost || is_some r.decision
    then chunk
    else drop (log_relay_buffer_bytes - r.buffered) chunk

-- `chunk[:room]` is kept where the chunk does not fit, and the whole chunk elsewhere.
drop-all : (n : ℕ) (c : Bytes) → length c ≤ n → drop n c ≡ []
drop-all zero [] h = refl
drop-all zero (x ∷ c) h = absurd (omega arith)
drop-all (suc n) [] h = refl
drop-all (suc n) (x ∷ c) h = drop-all n c (omega arith)

flatten-snoc : (cs : List Bytes) (c : Bytes) → flatten (cs ++ (c ∷ [])) ≡ flatten cs ++ c
flatten-snoc cs c =
    flatten-append cs (c ∷ []) ∙ ap (λ (xs : Bytes). flatten cs ++ xs) (append-nil c)

-- The stream equation when the queue grows by `k` and the lost bytes by `d`.
grown :
    (s f l fed k d : Bytes)
    → s ++ (f ++ l) ≡ fed
    → l ≡ []
    → s ++ ((f ++ k) ++ (l ++ d)) ≡ fed ++ (k ++ d)
grown s f l fed k d h e = rw (e, ← h, e) (simp (append_assoc, append-nil))

dropped : (s f l fed c : Bytes) → s ++ (f ++ l) ≡ fed → s ++ (f ++ (l ++ c)) ≡ fed ++ c
dropped s f l fed c h = rw (← h) (simp append_assoc)

append-empty : (xs ys : Bytes) → xs ++ ys ≡ [] → (xs ≡ []) × (ys ≡ [])
append-empty [] ys e = (refl, e)
append-empty (x ∷ xs) ys e = absurd (ground arith)

module _ (acquired : Bool) (fed lost : Bytes) (r : LogRelay) (es : List LogData) (b : ℕ)
    (bs : Bytes) (h : Inv acquired fed lost r es) where
  pub accept-Inv :
      acquired ≡ true
      → r.end_of_file ≡ false
      → Inv acquired (fed ++ (b ∷ bs)) (lost ++ accept_lost (b ∷ bs) r) (accept (b ∷ bs) r) es
  unfolding accept accept_lost
  accept-Inv begun reading =
      let c : Bytes = b ∷ bs in
      let room = log_relay_buffer_bytes - r.buffered in
      ground (
        arith,
        dropped (sent es) (flatten r.buffer) lost fed c,
        grown (sent es) (flatten r.buffer) lost fed c [],
        grown (sent es) (flatten r.buffer) lost fed (take room c) (drop room c),
        take-append-drop room c,
        append-nil c,
        append-nil lost,
        flatten-snoc r.buffer c,
        flatten-snoc r.buffer (take room c),
        drop-all room c,
        length-append (flatten r.buffer) c,
        length-append (flatten r.buffer) (take room c),
        length-take room c,
        all-append r.buffer (c ∷ []) (λ x. not (is_empty x)),
        all-append r.buffer (take room c ∷ []) (λ x. not (is_empty x)),
      )

module _ (acquired : Bool) (fed lost : Bytes) (r : LogRelay) (es : List LogData)
    (h : Inv acquired fed lost r es) where
  -- The empty chunk is the end of the channel.
  pub accept_end-Inv : Inv acquired fed lost (accept [] r) es
  unfolding accept
  accept_end-Inv = ground arith

  pub confirm_disposal-Inv : Inv acquired fed lost (confirm_disposal r) es
  unfolding confirm_disposal
  confirm_disposal-Inv = ground arith

  pub cut-Inv : Inv acquired fed lost (cut r) es
  unfolding cut
  cut-Inv = ground arith

  pub read_failed-Inv : (e : Error) → Inv acquired fed lost (read_failed e r) es
  unfolding read_failed
  read_failed-Inv e = ground arith

  -- The bytes that a decision gives up.
  pub decide_lost : Bytes
  decide_lost = if is_some r.decision then lost else flatten r.buffer ++ lost

  pub decide-Inv :
      (deadline : Bool)
      → (deadline || is_empty r.buffer) ≡ true
      → Inv acquired fed decide_lost (decide deadline true r).1 es
  unfolding decide decide_lost
  decide-Inv deadline e = ground arith

  -- The decision of a session that acquired no child, so that there was nothing to read.
  pub decide_unacquired-Inv :
      acquired ≡ false → fed ≡ [] → Inv acquired fed decide_lost (decide false false r).1 es
  unfolding decide decide_lost
  decide_unacquired-Inv none_acquired e =
      let (_, rest) = append-empty (sent es) (flatten r.buffer ++ lost) (h.stream ∙ e) in
      ground (arith, rest)

  -- A child is acquired before the decision.
  pub acquire-Inv : r.decision ≡ none → Inv true fed lost r es
  acquire-Inv e = ground arith
