-- ===== src/Wire/Frames/Append.antt =====
-- The split of a stream at its line feeds, and the split of its parts.
use zephyr_remote_openocd.Shared.{
  ℕ, ◌+◌, ◌≤◌, ◌≡◌, refl, true, false, Bool-cases, inl, inr, List, [], ◌∷◌, ◌++◌, arith, nat_beq,
  leb, length, all-append,
}
use zephyr_remote_openocd.Wire.Frames.{Bytes, lf, max_frame_size}
use zephyr_remote_openocd.Wire.Frames.Split.{Lines, prepend, lines, fits}

abbrev pub extended : List Bytes → Lines → Lines
extended fs l = record { complete = fs ++ l.complete; partial = l.partial }

prepend-append :
    (x : ℕ) (fs : List Bytes) (r b : Bytes) (l : Lines)
    → nat_beq x lf ≡ false
    → extended (prepend x fs r).complete (lines ((prepend x fs r).partial ++ b))
      ≡ prepend x (extended fs (lines (r ++ b))).complete (extended fs (lines (r ++ b))).partial
unfolding lines
prepend-append x [] r b l h = ground arith
prepend-append x (f ∷ fs) r b l h = refl

pub lines-append :
    (a b : Bytes) → lines (a ++ b) ≡ extended (lines a).complete (lines ((lines a).partial ++ b))
unfolding lines
lines-append [] b = refl
lines-append (x ∷ a) b = elim (Bool-cases (nat_beq x lf)) [
  | inl e ↦ ground (arith, e, lines-append a b)
  | inr e ↦ ground (
    arith,
    e,
    lines-append a b,
    prepend-append x (lines a).complete (lines a).partial b (lines a),
  )
]

-- What is left over holds no complete line.
prepend-partial :
    (x : ℕ) (fs : List Bytes) (r : Bytes)
    → nat_beq x lf ≡ false
    → lines r ≡ record { complete = []; partial = r }
    → lines (prepend x fs r).partial ≡ record { complete = []; partial = (prepend x fs r).partial }
unfolding lines
prepend-partial x [] r e h = ground arith
prepend-partial x (f ∷ fs) r e h = h

pub lines-partial :
    (b : Bytes) → lines (lines b).partial ≡ record { complete = []; partial = (lines b).partial }
unfolding lines
lines-partial [] = refl
lines-partial (x ∷ b) = elim (Bool-cases (nat_beq x lf)) [
  | inl e ↦ rw e (lines-partial b)
  | inr e ↦ rw e (prepend-partial x (lines b).complete (lines b).partial e (lines-partial b))
]

-- The size of the first frame, complete or not.
first_size : List Bytes → Bytes → ℕ
first_size [] rest = length rest + 1
first_size (f ∷ fs) rest = length f

first_size-le :
    (fs : List Bytes) (rest : Bytes)
    → fits (record { complete = fs; partial = rest }) ≡ true
    → first_size fs rest ≤ max_frame_size
unfolding first_size
first_size-le [] rest h = ground arith
first_size-le (f ∷ fs) rest h = ground arith

first_size-prepend :
    (x : ℕ) (fs : List Bytes) (r : Bytes)
    → first_size (prepend x fs r).complete (prepend x fs r).partial ≡ first_size fs r + 1
unfolding first_size
first_size-prepend x [] r = omega arith
first_size-prepend x (f ∷ fs) r = omega arith

first_size-pos : (b : Bytes) → 1 ≤ first_size (lines b).complete (lines b).partial
unfolding lines first_size
first_size-pos [] = omega arith
first_size-pos (x ∷ b) = elim (Bool-cases (nat_beq x lf)) [
  | inl e ↦ rw e (omega arith)
  | inr e ↦ rw e (omega (arith, first_size-prepend x (lines b).complete (lines b).partial))
]

unprepend :
    (x : ℕ) (fs : List Bytes) (r p : Bytes)
    → prepend x fs r ≡ record { complete = []; partial = x ∷ p }
    → ◌≡◌ {A = Lines}
        (record { complete = fs; partial = r })
        (record { complete = []; partial = p })
unprepend x [] r p h = ground arith
unprepend x (f ∷ fs) r p h = absurd (ground arith)

partial-tail :
    (x : ℕ) (p : Bytes)
    → lines (x ∷ p) ≡ record { complete = []; partial = x ∷ p }
    → (nat_beq x lf ≡ false) × (lines p ≡ record { complete = []; partial = p })
unfolding lines
partial-tail x p h = elim (Bool-cases (nat_beq x lf)) [
  | inl e ↦ absurd (ground arith)
  | inr e ↦ (e, unprepend x (lines p).complete (lines p).partial p (ground arith))
]

-- A stream that has no complete line is a part of the first frame of its continuation.
first_size-append :
    (p b : Bytes)
    → lines p ≡ record { complete = []; partial = p }
    → length p + 1 ≤ first_size (lines (p ++ b)).complete (lines (p ++ b)).partial
unfolding lines
first_size-append [] b h = first_size-pos b
first_size-append (x ∷ p) b h =
    let (e, k) = partial-tail x p h in
    rw e (
      omega (
        arith,
        first_size-append p b k,
        first_size-prepend x (lines (p ++ b)).complete (lines (p ++ b)).partial,
      ))

pub fits-append : (a b : Bytes) → fits (lines (a ++ b)) ≡ true → fits (lines a) ≡ true
fits-append a b h =
    let whole = rw lines-append at h in
    let later =
      first_size-le (lines ((lines a).partial ++ b)).complete
        (lines ((lines a).partial ++ b)).partial in
    ground (
      arith,
      whole,
      later,
      first_size-append (lines a).partial b (lines-partial a),
      all-append (lines a).complete (lines ((lines a).partial ++ b)).complete
          (λ f. leb (length f) max_frame_size),
    )

pub fits-rest :
    (a b : Bytes) → fits (lines (a ++ b)) ≡ true → fits (lines ((lines a).partial ++ b)) ≡ true
fits-rest a b h =
    let whole = rw lines-append at h in
    ground (
      arith,
      whole,
      all-append (lines a).complete (lines ((lines a).partial ++ b)).complete
          (λ f. leb (length f) max_frame_size),
    )
