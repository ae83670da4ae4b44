-- ===== src/Wire/Frames/Split.antt =====
-- What the frame buffer implements: the split of a byte stream at its line feeds.
use zephyr_remote_openocd.Shared.{
  ℕ, zero, suc, ◌+◌, ◌<◌, ◌≡◌, refl, Bool, true, ◌&&◌, Option-cases, none, some, inl, inr, List, [],
  ◌∷◌, if◌then◌else◌, arith, nat_beq, leb, length, all, take, drop, ok,
}
use zephyr_remote_openocd.Wire.Frames.{Bytes, lf, max_frame_size, find_lf, drain_from, drain}

pub record Lines : Type 0 where
  pub complete : List Bytes
  pub partial : Bytes

abbrev pub prepend : ℕ → List Bytes → Bytes → Lines
prepend b [] rest = record { complete = []; partial = b ∷ rest }
prepend b (f ∷ fs) rest = record { complete = (b ∷ f) ∷ fs; partial = rest }

-- The complete lines of a stream, each with its line feed, and what stands behind the last one.
unfoldable pub lines : Bytes → Lines
lines [] = record { complete = []; partial = [] }
lines (b ∷ bs) =
    let l = lines bs in
    if nat_beq b lf
    then record { complete = (b ∷ []) ∷ l.complete; partial = l.partial }
    else prepend b l.complete l.partial

-- No complete line is longer than a frame, and what is left can still become one.
abbrev pub fits : Lines → Bool
fits l =
    all l.complete (λ f. leb (length f) max_frame_size) && leb (length l.partial + 1) max_frame_size

pub lines-none : (b : Bytes) → find_lf b ≡ none → lines b ≡ record { complete = []; partial = b }
unfolding lines find_lf
lines-none [] h = refl
lines-none (x ∷ b) h = ground (arith, lines-none b)

pub lines-some :
    (b : Bytes) (d : ℕ)
    → find_lf b ≡ some d
    → (lines b ≡ (
        let r = lines (drop (suc d) b) in
        record { complete = take (suc d) b ∷ r.complete; partial = r.partial }))
      × (length (take (suc d) b) ≡ suc d)
      × (length (drop (suc d) b) < length b)
unfolding lines find_lf
lines-some [] d h = cc
lines-some (x ∷ b) zero h = ground arith
lines-some (x ∷ b) (suc d) h = ground (arith, lines-some b d)

drain_from-lines :
    (fuel : ℕ) (b : Bytes)
    → length b < fuel
    → fits (lines b) ≡ true
    → drain_from fuel b
      ≡ record { frames = (lines b).complete; end = ok tt; rest = (lines b).partial }
unfolding drain_from
drain_from-lines zero b h k = absurd (omega arith)
drain_from-lines (suc fuel) b h k = elim (Option-cases (find_lf b)) [
  | inl e ↦ ground (arith, e, lines-none b e)
  | inr (d, e) ↦ ground (arith, e, lines-some b d e, drain_from-lines fuel (drop (suc d) b))
]

-- Where no frame is too long, the loop takes the complete lines of the buffer, in order, ends
-- without an error and leaves the partial line.
pub drain-lines :
    (b : Bytes)
    → fits (lines b) ≡ true
    → drain b ≡ record { frames = (lines b).complete; end = ok tt; rest = (lines b).partial }
unfolding drain
drain-lines b h = drain_from-lines (length b + 1) b (omega arith) h
