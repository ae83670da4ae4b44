-- ===== src/Wire/Frames.antt =====
-- `ControlFrameBuffer` of protocol/wire.py, and the loop that takes all complete frames from it.
-- Bytes are numbers below 256; nothing here depends on that bound.
pub mod Split
pub mod Append
pub mod Chunks
use zephyr_remote_openocd.Shared.{
  ℕ, zero, suc, ◌+◌, ◌*◌, ◌<◌, ◌≡◌, refl, Bool, true, false, Option, none, some, List, [], ◌∷◌,
  ◌++◌, if◌then◌else◌, arith, nat_beq, ltb, length, take, drop, Result, ok, raised, value_error,
  Exec, pure, raise, lift, ◌>>=◌, ◌>>◌,
}

abbrev pub Bytes : Type 0
Bytes = List ℕ

-- `b"\n"`
abbrev pub lf : ℕ
lf = 10

abbrev pub max_frame_size : ℕ
max_frame_size = 1024 * 1024

-- `buffer.find(b"\n")`; `none` is -1
unfoldable pub find_lf : Bytes → Option ℕ
find_lf [] = none
find_lf (b ∷ bs) =
    if nat_beq b lf then some 0 else elim (find_lf bs) [ none ↦ none | some n ↦ some (suc n) ]

unfoldable pub feed : Bytes → Exec Bytes (Unit {0})
feed chunk buffer = (ok tt, buffer ++ chunk)

-- `pop_frame` with the position of the delimiter at hand
pop_at : Option ℕ → Exec Bytes (Option Bytes)
pop_at none buffer =
    if ltb max_frame_size (length buffer + 1)
    then (raised (value_error "protocol frame exceeds maximum size"), buffer)
    else (ok none, buffer)
pop_at (some delimiter) buffer =
    if ltb max_frame_size (delimiter + 1)
    then (raised (value_error "protocol frame exceeds maximum size"), buffer)
    else (ok (some (take (delimiter + 1) buffer)), drop (delimiter + 1) buffer)

unfoldable pub pop_frame : Exec Bytes (Option Bytes)
unfolding pop_at
pop_frame buffer = pop_at (find_lf buffer) buffer

unfoldable pub finish : Exec Bytes (Unit {0})
finish [] = (ok tt, [])
finish (b ∷ bs) = (raised (value_error "protocol frame is missing its LF delimiter"), b ∷ bs)

-- `while (frame := frames.pop_frame()) is not None`: the frames that the loop hands on, in order, and
-- whether it ended by an error. Each round takes a byte at least, so the buffer's length is fuel
-- enough.
pub record Drained : Type 0 where
  pub frames : List Bytes
  pub end : Result (Unit {0})
  pub rest : Bytes

add_frame : Bytes → Drained → Drained
add_frame f d = record d { frames = f ∷ d.frames }

drain_from : ℕ → Bytes → Drained
unfolding pop_frame add_frame
drain_from zero buffer = record { frames = []; end = ok tt; rest = buffer }
drain_from (suc fuel) buffer = elim (pop_frame buffer).0 [
  | raised e ↦ record { frames = []; end = raised e; rest = buffer }
  | ok popped ↦ elim popped [
    | none ↦ record { frames = []; end = ok tt; rest = buffer }
    | some f ↦ add_frame f (drain_from fuel (pop_frame buffer).1)
  ]
]

unfoldable pub drain : Bytes → Drained
unfolding drain_from
drain buffer = drain_from (length buffer + 1) buffer

abbrev joined : List Bytes → Drained → Drained
joined fs d = record d { frames = fs ++ d.frames }

-- `_dispatch_frames` of controller/helper_connection.py for each chunk that the reader gets, up to
-- the handler's call, until an error.
unfoldable pub dispatch_chunks : Bytes → List Bytes → Drained
unfolding feed
dispatch_chunks buffer [] = record { frames = []; end = ok tt; rest = buffer }
dispatch_chunks buffer (chunk ∷ chunks) =
    let d = drain (feed chunk buffer).1 in
    let later = dispatch_chunks d.rest chunks in
    elim d.end [ raised e ↦ d | ok u ↦ joined d.frames later ]
