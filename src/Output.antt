-- ===== src/Output.antt =====
-- `OutputDecoder` of helper/_child_output.py. The incremental decoder is that of `codecs`; a chunk is
-- the text that it returns, as code points.
pub mod Fragments
mod Tests
use zephyr_remote_openocd.Shared.{
  ℕ, ◌+◌, ◌*◌, Bool, true, false, List, [], ◌∷◌, ◌++◌, if◌then◌else◌, nat_beq, leb, length,
}

-- `RELAY_CHUNK_SIZE`
abbrev pub relay_chunk_size : ℕ
relay_chunk_size = 64 * 1024

abbrev pub line_feed : ℕ
line_feed = 10

-- `CapturedFragment`, without the name of the stream, which is the decoder's own.
pub record CapturedFragment : Type 0 where
  pub payload : List ℕ
  pub line_end : Bool

-- The loop of `feed` on the characters, from `pending`: the fragments, in order, and what is pending
-- after the loop.
pub record Fed : Type 0 where
  pub fragments : List CapturedFragment
  pub pending : List ℕ

pub first : CapturedFragment → Fed → Fed
first f r = record r { fragments = f ∷ r.fragments }

pub feed_characters : List ℕ → List ℕ → Fed
unfolding first
feed_characters pending [] = record { fragments = []; pending = pending }
feed_characters pending (c ∷ cs) =
    let after_flush = feed_characters [] cs in
    let after_append = feed_characters (pending ++ (c ∷ [])) cs in
    if nat_beq c line_feed
    then first (record { payload = pending; line_end = true }) after_flush
    else if leb relay_chunk_size (length (pending ++ (c ∷ [])))
    then first (record { payload = pending ++ (c ∷ []); line_end = false }) after_flush
    else after_append

-- The last fragment, of what is pending.
pub flush : List CapturedFragment → List ℕ → Fed
flush fragments [] = record { fragments = fragments; pending = [] }
flush fragments (c ∷ cs) = record {
  fragments = fragments ++ (record { payload = c ∷ cs; line_end = false } ∷ []);
  pending = [];
}

unfoldable pub feed : List ℕ → List ℕ → Fed
unfolding feed_characters flush
feed characters pending = let r = feed_characters pending characters in flush r.fragments r.pending
