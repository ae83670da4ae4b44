-- ===== src/Output/Fragments.antt =====
-- The fragments of a chunk are the chunk: no character is lost, and each fragment is bounded.
use zephyr_remote_openocd.Shared.{
  ℕ, ◌<◌, ◌≡◌, refl, Bool, true, false, not, ◌&&◌, ◌||◌, List, [], ◌∷◌, ◌++◌, arith, if◌then◌else◌,
  nat_beq, leb, length, all, nat_eq, append_assoc, append-nil, length-append, all-append, ◌∙◌,
}
use zephyr_remote_openocd.Output.{
  CapturedFragment, first, feed_characters, flush, feed, relay_chunk_size, line_feed,
}

-- The text that a fragment stands for.
text_of : CapturedFragment → List ℕ
text_of f = if f.line_end then f.payload ++ (line_feed ∷ []) else f.payload

-- The text of a list of fragments.
pub text : List CapturedFragment → List ℕ
unfolding text_of
text [] = []
text (f ∷ fs) = text_of f ++ text fs

text-append : (fs gs : List CapturedFragment) → text (fs ++ gs) ≡ text fs ++ text gs
unfolding text
text-append [] gs = refl
text-append (f ∷ fs) gs =
    ground (arith, text-append fs gs, append_assoc (text_of f) (text fs) (text gs))

-- No line feed in it.
pub unbroken : List ℕ → Bool
unbroken xs = all xs (λ x. not (nat_beq x line_feed))

unbroken-append : (xs ys : List ℕ) → unbroken (xs ++ ys) ≡ (unbroken xs && unbroken ys)
unfolding unbroken
unbroken-append xs ys = all-append xs ys (λ x. not (nat_beq x line_feed))

nonempty : List ℕ → Bool
nonempty [] = false
nonempty (x ∷ xs) = true

-- What the helper sends of a fragment: no line feed inside, at most `RELAY_CHUNK_SIZE` characters, and
-- empty only at the end of a line.
pub is_fragment : CapturedFragment → Bool
unfolding nonempty unbroken
is_fragment f =
    unbroken f.payload
    && (leb (length f.payload) relay_chunk_size && (nonempty f.payload || f.line_end))

nonempty-snoc : (xs : List ℕ) (x : ℕ) → nonempty (xs ++ (x ∷ [])) ≡ true
unfolding nonempty
nonempty-snoc [] x = refl
nonempty-snoc (y ∷ xs) x = refl

feed_characters-text :
    (pending cs : List ℕ)
    → text (feed_characters pending cs).fragments ++ (feed_characters pending cs).pending
      ≡ pending ++ cs
unfolding feed_characters text first
feed_characters-text pending [] = ground (arith, append-nil pending)
feed_characters-text pending (c ∷ cs) =
    let flushed = feed_characters-text [] cs in
    let r = feed_characters [] cs in
    ground (
      arith,
      flushed,
      feed_characters-text (pending ++ (c ∷ [])) cs,
      append_assoc pending (c ∷ []) cs,
      append_assoc (pending ++ (c ∷ [])) (text r.fragments) r.pending,
    )

feed_characters-fragments :
    (pending cs : List ℕ)
    → unbroken pending ≡ true
    → length pending < relay_chunk_size
    → (all (feed_characters pending cs).fragments is_fragment ≡ true)
      × (unbroken (feed_characters pending cs).pending ≡ true)
      × (length (feed_characters pending cs).pending < relay_chunk_size)
unfolding feed_characters first is_fragment
feed_characters-fragments pending [] h k = ground arith
feed_characters-fragments pending (c ∷ cs) h k = ground (
  arith,
  feed_characters-fragments [] cs,
  feed_characters-fragments (pending ++ (c ∷ [])) cs,
  unbroken-append pending (c ∷ []),
  length-append pending (c ∷ []),
  nonempty-snoc pending c,
)

flush-text :
    (fs : List CapturedFragment) (pending : List ℕ)
    → (text (flush fs pending).fragments ≡ text fs ++ pending) × ((flush fs pending).pending ≡ [])
unfolding flush text
flush-text fs [] = ground (arith, append-nil (text fs))
flush-text fs (c ∷ cs) =
    let last : CapturedFragment = record { payload = c ∷ cs; line_end = false } in
    ground (arith, text-append fs (last ∷ []), append-nil cs)

flush-fragments :
    (fs : List CapturedFragment) (pending : List ℕ)
    → all fs is_fragment ≡ true
    → unbroken pending ≡ true
    → length pending < relay_chunk_size
    → all (flush fs pending).fragments is_fragment ≡ true
unfolding flush is_fragment
flush-fragments fs [] h u k = h
flush-fragments fs (c ∷ cs) h u k =
    let last : CapturedFragment = record { payload = c ∷ cs; line_end = false } in
    ground (arith, all-append fs (last ∷ []) is_fragment)

-- `feed` loses no character and makes none up: the payloads in order, with a line feed after each
-- that ends a line, are what was pending and the chunk; and nothing is pending afterwards.
pub feed-text :
    (characters pending : List ℕ)
    → (text (feed characters pending).fragments ≡ pending ++ characters)
      × ((feed characters pending).pending ≡ [])
unfolding feed
feed-text characters pending =
    let r = feed_characters pending characters in
    let (e, none_left) = flush-text r.fragments r.pending in
    (e ∙ feed_characters-text pending characters, none_left)

-- From a decoder with nothing pending, every fragment of a chunk has no line feed inside, at most
-- `RELAY_CHUNK_SIZE` characters, and is empty only at the end of a line.
pub feed-fragments : (characters : List ℕ) → all (feed characters []).fragments is_fragment ≡ true
unfolding feed unbroken
feed-fragments characters =
    let r = feed_characters [] characters in
    let (good, unbroken_left, short) = feed_characters-fragments [] characters refl (omega arith) in
    flush-fragments r.fragments r.pending good unbroken_left short
