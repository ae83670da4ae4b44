-- ===== src/Endpoints.antt =====
-- Listeners and forwards: protocol/listeners.py and controller/forwarding_spec.py.
-- `DuplicateEndpointError` is the `ValueError` with its message here.
pub mod Plan
pub mod Sets
use Prim.Native.String.{String}
use zephyr_remote_openocd.Shared.{
  ℕ, ℤ, Bool, true, false, not, ◌&&◌, Option, none, some, List, [], ◌∷◌, if◌then◌else◌, leb, nat_eq,
  string_eq, unique, Result, ok, raised, value_error,
}
use zephyr_remote_openocd.Gate.{ForwardSpec}

pub record ListenerSpec : Type 0 where
  pub name : String
  pub remote_port : ℕ

abbrev pub is_blank : String → Bool
is_blank String.[] = true
is_blank (String.◌∷◌ c s) = false

-- `1 <= port <= 65535`
abbrev pub valid_port : ℤ → Option ℕ
valid_port (ℤ.pos n) = if leb 1 n && leb n 65535 then some n else none
valid_port (ℤ.negsuc n) = none

-- `ListenerSpec.__post_init__`
unfoldable pub make_listener : String → ℤ → Result ListenerSpec
make_listener name remote_port =
    if is_blank name
    then raised (value_error "listener name must be a non-empty string")
    else elim (valid_port remote_port) [
      | none ↦ raised (value_error "remote port must be in 1..65535")
      | some r ↦ ok (record { name = name; remote_port = r })
    ]

-- `ForwardSpec.__post_init__`
unfoldable pub make_forward : String → ℤ → ℤ → Result ForwardSpec
make_forward name local_port remote_port =
    if is_blank name
    then raised (value_error "forward name must be a non-empty string")
    else elim (valid_port local_port) [
      | none ↦ raised (value_error "local port must be in 1..65535")
      | some l ↦ elim (valid_port remote_port) [
        | none ↦ raised (value_error "remote port must be in 1..65535")
        | some r ↦ ok (record { name = name; local_port = l; remote_port = r })
      ]
    ]

-- `ForwardSpec.listener`
unfoldable pub listener : ForwardSpec → Result ListenerSpec
unfolding make_listener
listener f = make_listener f.name (ℤ.pos f.remote_port)

abbrev pub listener_names : List ListenerSpec → List String
listener_names [] = []
listener_names (l ∷ ls) = l.name ∷ listener_names ls

abbrev pub listener_ports : List ListenerSpec → List ℕ
listener_ports [] = []
listener_ports (l ∷ ls) = l.remote_port ∷ listener_ports ls

abbrev pub names : List ForwardSpec → List String
names [] = []
names (f ∷ fs) = f.name ∷ names fs

abbrev pub local_ports : List ForwardSpec → List ℕ
local_ports [] = []
local_ports (f ∷ fs) = f.local_port ∷ local_ports fs

abbrev pub remote_ports : List ForwardSpec → List ℕ
remote_ports [] = []
remote_ports (f ∷ fs) = f.remote_port ∷ remote_ports fs

unfoldable pub validated_listeners : List ListenerSpec → Result (List ListenerSpec)
validated_listeners values =
    if not (unique (listener_names values))
    then raised (value_error "endpoint names must be unique")
    else if not (unique (listener_ports values))
    then raised (value_error "remote listener ports must be unique")
    else ok values

unfoldable pub validated_forwards : List ForwardSpec → Result (List ForwardSpec)
validated_forwards values =
    if not (unique (names values))
    then raised (value_error "endpoint names must be unique")
    else if not (unique (local_ports values))
    then raised (value_error "local forwarding ports must be unique")
    else if not (unique (remote_ports values))
    then raised (value_error "remote listener ports must be unique")
    else ok values
