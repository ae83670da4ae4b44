-- ===== src/Wire/Frames/Chunks.antt =====
-- Read boundaries are not frame boundaries, and no byte is lost or moved.
use zephyr_remote_openocd.Shared.{
  ℕ, zero, suc, ◌+◌, ◌≡◌, refl, Bool, true, false, ◌&&◌, Option-cases, none, some, inl, inr, List,
  [], ◌∷◌, ◌++◌, append_assoc, append-nil, arith, nat_beq, leb, length, all, flatten, take, drop,
  take-append-drop, ok,
}
use zephyr_remote_openocd.Wire.Frames.{
  Bytes, max_frame_size, find_lf, drain_from, drain, dispatch_chunks,
}
use zephyr_remote_openocd.Wire.Frames.Split.{lines, fits, lines-some, drain-lines}
use zephyr_remote_openocd.Wire.Frames.Append.{lines-append, fits-append, fits-rest, lines-partial}

-- However the stream is cut into chunks, the reader hands on the complete lines of the whole stream,
-- in order and without an error, and keeps its partial line, if no frame is too long.
dispatch_chunks-from :
    (b : Bytes) (chunks : List Bytes)
    → lines b ≡ record { complete = []; partial = b }
    → fits (lines (b ++ flatten chunks)) ≡ true
    → dispatch_chunks b chunks ≡ record {
      frames = (lines (b ++ flatten chunks)).complete;
      end = ok tt;
      rest = (lines (b ++ flatten chunks)).partial;
    }
unfolding dispatch_chunks
dispatch_chunks-from b [] e h = rw append-nil (rw e)
dispatch_chunks-from b (c ∷ cs) e h =
    let whole : fits (lines ((b ++ c) ++ flatten cs)) ≡ true = rw append_assoc h in
    let p = (lines (b ++ c)).partial in
    let later =
      dispatch_chunks-from p cs (lines-partial (b ++ c)) (fits-rest (b ++ c) (flatten cs) whole) in
    let now = drain-lines (b ++ c) (fits-append (b ++ c) (flatten cs) whole) in
    ground (arith, now, later, append_assoc b c (flatten cs), lines-append (b ++ c) (flatten cs))

-- From an empty buffer, however the stream is cut into chunks, the reader hands on the complete
-- lines of the whole stream in order, ends without an error and keeps the partial line, if no line
-- is longer than a frame.
pub dispatch_chunks-lines :
    (chunks : List Bytes)
    → fits (lines (flatten chunks)) ≡ true
    → dispatch_chunks [] chunks ≡ record {
      frames = (lines (flatten chunks)).complete;
      end = ok tt;
      rest = (lines (flatten chunks)).partial;
    }
dispatch_chunks-lines chunks h = dispatch_chunks-from [] chunks (unfold lines in refl) h

-- A frame: its only line feed is its last byte, and it is not too long.
pub is_frame : Bytes → Bool
is_frame f = elim (find_lf f) [
  | none ↦ false
  | some d ↦ nat_beq (length f) (suc d) && leb (length f) max_frame_size
]

find_lf-take : (b : Bytes) (d : ℕ) → find_lf b ≡ some d → find_lf (take (suc d) b) ≡ some d
unfolding find_lf
find_lf-take [] d h = cc
find_lf-take (x ∷ b) zero h = ground arith
find_lf-take (x ∷ b) (suc d) h = ground (arith, find_lf-take b d)

drain_from-conserves :
    (fuel : ℕ) (b : Bytes)
    → (flatten (drain_from fuel b).frames ++ (drain_from fuel b).rest ≡ b)
      × (all (drain_from fuel b).frames is_frame ≡ true)
unfolding drain_from is_frame
drain_from-conserves zero b = (refl, refl)
drain_from-conserves (suc fuel) b = elim (Option-cases (find_lf b)) [
  | inl e ↦ ground (arith, e)
  | inr (d, e) ↦
      let rest = drop (suc d) b in
      ground (
        arith,
        e,
        find_lf-take b d e,
        (lines-some b d e).1,
        take-append-drop (suc d) b,
        drain_from-conserves fuel rest,
        append_assoc (take (suc d) b) (flatten (drain_from fuel rest).frames)
            (drain_from fuel rest).rest,
      )
]

-- Whether or not the loop meets an oversized frame, the frames that it hands on and the bytes left in
-- the buffer are the buffer's bytes in their order, and each frame has its only line feed at its end
-- and at most `MAX_FRAME_SIZE` bytes.
pub drain-conserves :
    (b : Bytes)
    → (flatten (drain b).frames ++ (drain b).rest ≡ b) × (all (drain b).frames is_frame ≡ true)
unfolding drain
drain-conserves b = drain_from-conserves (length b + 1) b
