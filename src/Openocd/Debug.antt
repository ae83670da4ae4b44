-- ===== src/Openocd/Debug.antt =====
-- openocd/debug.py: the endpoints of a debug session. Lowercasing and `int` of a text are arguments.
pub mod Endpoints
pub mod Plan
use Prim.Native.String.{String, ◌++◌ as string_append}
use zephyr_remote_openocd.Shared.{
  ℕ, ℤ, ◌+◌, Bool, true, false, not, ◌&&◌, ◌||◌, Option, none, some, List, [], ◌∷◌, ◌++◌,
  if◌then◌else◌, string_eq, nat_eq, ◌==◌, Result, ok, raised, runtime_error, assertion_error,
  is_none, message, member,
}
use zephyr_remote_openocd.Shared.Chain.{◌>>=◌, ◌>>◌}
use zephyr_remote_openocd.Gate.{ForwardSpec}
use zephyr_remote_openocd.Endpoints.{
  ListenerSpec, valid_port, make_forward, make_listener, listener, listener_ports,
  validated_forwards, validated_listeners,
}
use zephyr_remote_openocd.Endpoints.Sets.{listeners}

-- `int | str`
pub data Setting : Type 0 where
  port_number : ℤ → Setting
  port_text : String → Setting

-- What the plan takes from Python's texts: `value.lower()` and `int(value)`, which may refuse.
pub record Texts : Type 0 where
  pub lower : String → String
  pub to_int : String → Option ℤ

pub record DebugInputs : Type 0 where
  pub command : String
  pub executable : List String
  pub gdb : Option String
  pub elf_file : Option String
  pub search_paths : List String
  pub config_files : List String
  pub readiness_suffix : String
  pub pre_init : List String
  pub reset_halt : String
  pub serial : Option String
  pub no_halt : Bool
  pub no_init : Bool
  pub no_targets : Bool
  pub tcl_port : Setting
  pub telnet_port : Setting
  pub gdb_port : Setting
  pub gdb_client_port : Setting
  pub gdb_init : List String
  pub tui : Bool
  pub load : Bool
  pub target_handle : String
  pub thread_info_requested : Bool
  pub thread_info_supported : Bool
  pub openocd_version : Option (ℕ × ℕ × ℕ)
  pub rtt_address : Option ℤ
  pub rtt_port : Setting
  pub rtt_server : Bool
  pub log_output : Bool

-- `DebugPlanError` is a `RuntimeError`.
abbrev pub refuse {ℓ} : {A : Type ℓ} → String → Result A
refuse text = raised (runtime_error text)

pub record DebugEndpointPlan : Type 0 where
  pub gdb_base_port : ℕ
  pub gdb_endpoint_port : ℕ
  pub remote_tcl : Option ℕ
  pub remote_telnet : Option ℕ
  pub forwards : List ForwardSpec
  pub rtt_forward : Option ForwardSpec
  pub reserved_listeners : List ListenerSpec

-- `_validate_debug_inputs`
unfoldable pub validate_debug_inputs : DebugInputs → Result (Unit {0})
validate_debug_inputs i =
    if member i.command ("debug" ∷ "attach" ∷ "debugserver" ∷ "rtt" ∷ [])
    then ok tt
    else refuse (string_append "unsupported session debug command: " i.command)

-- `f"{name} must be 'disabled' or a port in 1..65535"`
abbrev bad_port {ℓ} : {A : Type ℓ} → String → Result A
bad_port name = refuse (string_append name " must be 'disabled' or a port in 1..65535")

-- The port that `int(value)` gives, if it gives one.
unfoldable pub port_of : Option ℤ → String → Result (Option ℕ)
port_of value name = elim value [
  | none ↦ bad_port name
  | some z ↦ elim (valid_port z) [ none ↦ bad_port name | some n ↦ ok (some n) ]
]

-- `ForwardSpec(name, port, port)`
unfoldable pub same_port : String → ℕ → Result ForwardSpec
unfolding make_forward
same_port name p = make_forward name (ℤ.pos p) (ℤ.pos p)

-- The forward of an OpenOCD service that may be disabled.
unfoldable pub service_forward : String → Option ℕ → Result (List ForwardSpec)
service_forward name none = ok []
service_forward name (some p) = same_port name p >>= λ f. ok (f ∷ [])

-- The base listener of GDB, where the client uses another one.
unfoldable pub base_listener : ℕ → ℕ → Result (List ListenerSpec)
base_listener gdb_base_port gdb_endpoint_port =
    if gdb_endpoint_port == gdb_base_port
    then ok []
    else make_listener "gdb_base" (ℤ.pos gdb_base_port) >>= λ l. ok (l ∷ [])

-- `except DuplicateEndpointError as error: raise DebugPlanError(str(error)) from error`
abbrev pub as_plan_error {ℓ} : {A : Type ℓ} → Result A → Result A
as_plan_error (ok a) = ok a
as_plan_error (raised e) = refuse (message e)

-- The checks of the forwards and of the listeners, and the listeners of the forwards.
unfoldable pub check_endpoints : List ForwardSpec → List ListenerSpec → Result (List ListenerSpec)
check_endpoints forwards reserved = do
  listening ← listeners forwards
  as_plan_error (validated_forwards forwards)
  as_plan_error (validated_listeners (listening ++ reserved))
  ok listening

-- The listener of the RTT server at a port: forwarded for the session, or reserved for the client of the
-- `rtt` command.
unfoldable pub place_rtt :
    DebugInputs → List ListenerSpec → DebugEndpointPlan → ℕ → Result DebugEndpointPlan
place_rtt i taken plan rtt_port =
    if member rtt_port (listener_ports taken)
    then refuse "rtt_port conflicts with an enabled OpenOCD service port"
    else (same_port "rtt" rtt_port >>= λ rtt_forward.
        if not (i.command == "rtt")
        then ok (record plan {
          forwards = plan.forwards ++ (rtt_forward ∷ []);
          rtt_forward = some rtt_forward;
        })
        else (listener rtt_forward >>= λ reserved. ok (record plan {
          rtt_forward = some rtt_forward;
          reserved_listeners = plan.reserved_listeners ++ (reserved ∷ []);
        })))

module _ (t : Texts) where
  -- `_port` without and with `required`
  unfoldable pub port : Setting → String → Result (Option ℕ)
  unfolding port_of
  port (port_number z) name = port_of (some z) name
  port (port_text s) name = if t.lower s == "disabled" then ok none else port_of (t.to_int s) name

  unfoldable pub required_port : Setting → String → Result ℕ
  required_port value name = port value name >>= λ p. elim p [
    | none ↦ refuse (string_append name " must be enabled for this command")
    | some n ↦ ok n
  ]

  -- The RTT part, behind the listeners `taken`
  unfoldable pub add_rtt :
      DebugInputs → List ListenerSpec → DebugEndpointPlan → Result DebugEndpointPlan
  add_rtt i taken plan =
      if not (i.command == "rtt" || i.rtt_server)
      then ok plan
      else if is_none i.rtt_address
      then refuse "RTT control block not found"
      else (required_port i.rtt_port "rtt_port" >>= λ rtt_port. place_rtt i taken plan rtt_port)

  -- The port of the GDB client
  unfoldable pub client_port : DebugInputs → ℕ → Result ℕ
  client_port i gdb_base_port =
      if i.command == "debugserver"
      then ok gdb_base_port
      else required_port i.gdb_client_port "gdb_client_port"

  -- `_plan_debug_endpoints`
  unfoldable pub plan_debug_endpoints : DebugInputs → Result DebugEndpointPlan
  plan_debug_endpoints i = do
    gdb_base_port ← required_port i.gdb_port "gdb_port"
    gdb_endpoint_port ← client_port i gdb_base_port
    remote_tcl ← port i.tcl_port "tcl_port"
    remote_telnet ← port i.telnet_port "telnet_port"
    gdb ← same_port "gdb" gdb_endpoint_port
    reserved ← base_listener gdb_base_port gdb_endpoint_port
    tcl ← service_forward "tcl" remote_tcl
    telnet ← service_forward "telnet" remote_telnet
    let forwards = gdb ∷ (tcl ++ telnet)
    listening ← check_endpoints forwards reserved
    add_rtt i (listening ++ reserved) (record {
      gdb_base_port = gdb_base_port;
      gdb_endpoint_port = gdb_endpoint_port;
      remote_tcl = remote_tcl;
      remote_telnet = remote_telnet;
      forwards = forwards;
      rtt_forward = none;
      reserved_listeners = reserved;
    })
