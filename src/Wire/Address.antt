-- ===== src/Wire/Address.antt =====
-- `_valid_address` of protocol/wire.py and `LOOPBACK_RANGE` of protocol/addresses.py: the texts that are
-- a usable address of 127.64.0.0/10. `ipaddress.IPv4Address` takes four decimal numbers up to 255 with no
-- leading zero, so a text that it takes is the text of its address.
use Prim.Native.String.{String}
use zephyr_remote_openocd.Shared.{
  ℕ, ◌+◌, ◌*◌, ◌-◌, Bool, false, not, ◌&&◌, ◌||◌, Option, none, some, List, [], ◌∷◌, if◌then◌else◌,
  nat_beq, leb,
}
use zephyr_remote_openocd.Wire.Json.{codes}

-- The numbers read so far, the last one first, and the one that is being read; `none` is an error.
record Reading : Type 0 where
  done : List ℕ
  current : Option ℕ

-- The number `n` with the digit `d` behind it.
extend : Option ℕ → ℕ → Option ℕ
extend none d = some d
extend (some n) d = if nat_beq n 0 || not (leb (n * 10 + d) 255) then none else some (n * 10 + d)

on_dot : Reading → Option Reading
on_dot r = elim r.current [
  | none ↦ none
  | some n ↦ some (record { done = n ∷ r.done; current = none })
]

on_digit : ℕ → Reading → Option Reading
unfolding extend
on_digit d r = elim (extend r.current d) [
  | none ↦ none
  | some n ↦ some (record r { current = some n })
]

on_code : ℕ → Option Reading → Option Reading
unfolding on_dot on_digit
on_code c none = none
on_code c (some r) =
    if nat_beq c b'.'
    then on_dot r
    else if leb b'0' c && leb c b'9'
    then on_digit (c - b'0') r
    else none

read_codes : List ℕ → Option Reading → Option Reading
unfolding on_code
read_codes [] r = r
read_codes (c ∷ cs) r = read_codes cs (on_code c r)

-- In 127.64.0.0/10, and neither its first nor its last address.
in_range : ℕ → ℕ → ℕ → ℕ → Bool
in_range a b c d =
    (nat_beq a 127 && (leb 64 b && leb b 127))
    && (not (nat_beq b 64 && (nat_beq c 0 && nat_beq d 0))
        && not (nat_beq b 127 && (nat_beq c 255 && nat_beq d 255)))

usable_parts : List ℕ → Option ℕ → Bool
unfolding in_range
usable_parts (c ∷ b ∷ a ∷ []) (some d) = in_range a b c d
usable_parts _ _ = false

usable : Option Reading → Bool
unfolding usable_parts
usable none = false
usable (some r) = usable_parts r.done r.current

unfoldable pub valid_address : String → Bool
unfolding usable read_codes
valid_address text = usable (read_codes (codes text) (some (record { done = []; current = none })))
