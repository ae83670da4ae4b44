-- ===== src/Openocd/Debug/Plan.antt =====
-- openocd/debug.py: the command lines of a debug session. The planning of paths and the printing of
-- numbers are arguments.
pub mod Checks
pub mod Session
use Prim.Native.String.{String, ◌++◌ as string_append}
use zephyr_remote_openocd.Shared.{
  ℕ, ℤ, ◌+◌, Bool, true, false, not, ◌&&◌, ◌||◌, Option, none, some, List, [], ◌∷◌, ◌++◌,
  if◌then◌else◌, string_eq, nat_eq, ◌==◌, Result, ok, raised, runtime_error, assertion_error, ltb,
  is_none, is_some,
}
use zephyr_remote_openocd.Shared.Chain.{◌>>=◌, ◌>>◌}
use zephyr_remote_openocd.Outcome.{CompletionPolicy, live_server}
use zephyr_remote_openocd.Gate.{ForwardSpec}
use zephyr_remote_openocd.Endpoints.{ListenerSpec}
use zephyr_remote_openocd.Arguments.{
  address, workspace, literal, session, plain, word, ArgumentTemplate,
}
use zephyr_remote_openocd.Openocd.{
  PlannedPath, OpenOcdBasePlan, Command, command_text, command_template, is_blank, base_argv, texts,
}
use zephyr_remote_openocd.Openocd.Flash.{missing, when}
use zephyr_remote_openocd.Openocd.Debug.{
  Texts, DebugInputs, DebugEndpointPlan, refuse, validate_debug_inputs, plan_debug_endpoints,
}

-- `str` of a port and `f"{address:x}"`
pub record Numerals : Type 0 where
  pub decimal : ℕ → String
  pub hexadecimal : ℤ → String

infixr 6 ◌&◌
abbrev pub ◌&◌ : String → String → String
s & t = string_append s t

-- `zephyr_tuple > THREAD_INFO_VERSION_THRESHOLD`
unfoldable pub has_thread_info : ℕ × ℕ × ℕ → Bool
has_thread_info (major, minor, revision) =
    ltb 0 major || (ltb 11 minor || (minor == 11 && ltb 0 revision))

unfoldable pub thread_info_enabled : Bool → Option (ℕ × ℕ × ℕ) → Result Bool
unfolding has_thread_info
thread_info_enabled false version = ok false
thread_info_enabled true none =
    refuse "OpenOCD version is required when Zephyr thread info is enabled"
thread_info_enabled true (some version) = ok (has_thread_info version)

abbrev pub init_evidence : String
init_evidence = "init"

abbrev pub startup_evidence : String
startup_evidence = "startup"

-- `ReadinessCommands`
pub record ReadinessCommands : Type 0 where
  pub setup : List Command
  pub startup : String

unfoldable pub readiness_commands : String → ReadinessCommands
readiness_commands suffix =
    let variable = "zro_readiness_" & suffix in
    let evidence = "zro_evidence_" & suffix in
    let initialized = "zro_init_" & suffix in
    record {
      setup =
          command_template (record {
            parts =
                plain (literal ("set " & variable & " "))
                ∷ word (record { parts = session workspace ∷ literal "/readiness" ∷ [] })
                ∷ [];
          })
          ∷ command_text (
              "proc " & evidence & " {line} {global " & variable & "; set f [open $" & variable
              & " a]; puts $f $line; close $f}")
          ∷ command_text ("proc " & initialized & " {} {" & evidence & " " & init_evidence & "}")
          ∷ command_text ("lappend post_init_commands " & initialized)
          ∷ [];
      startup = evidence & " " & startup_evidence;
    }

-- `_commands`
unfoldable pub debug_commands : List String → List String
debug_commands [] = []
debug_commands (c ∷ cs) = "-c" ∷ c ∷ debug_commands cs

-- The GDB options `-ex` of each command
unfoldable pub gdb_commands : List String → List String
gdb_commands [] = []
gdb_commands (c ∷ cs) = "-ex" ∷ c ∷ gdb_commands cs

unfoldable pub rtt_setup : DebugInputs → Option String
rtt_setup i =
    if i.command == "rtt"
    then some "batch_gdb"
    else if i.rtt_server
    then some "openocd_startup"
    else none

-- What a debug plan gives `ProcessSpec`, and its other fields.
pub record DebugPlan : Type 0 where
  pub argv : List (List ℕ)
  pub literal_prefix : ℕ
  pub argv_templates : List (ℕ × ArgumentTemplate)
  pub readiness_evidence : List String
  pub readiness_timeout : ℕ
  pub completion_policy : CompletionPolicy
  pub forwards : List ForwardSpec
  pub gdb_argv : Option (List String)
  pub thread_info_requested : Bool
  pub openocd_version : Option (ℕ × ℕ × ℕ)
  pub rtos_awareness : Bool
  pub rtt_forward : Option ForwardSpec
  pub rtt_setup_kind : Option String
  pub launches_rtt_client : Bool
  pub auxiliary_forwards : List ForwardSpec
  pub reserved_listeners : List ListenerSpec

-- `OPENOCD_READINESS_TIMEOUT`: the bits of 30.0
abbrev pub openocd_readiness_timeout : ℕ
openocd_readiness_timeout = 0x403e000000000000

-- The forwards of the auxiliary services.
unfoldable pub auxiliary : List ForwardSpec → List ForwardSpec
auxiliary [] = []
auxiliary (f ∷ fs) =
    let rest = auxiliary fs in if f.name == "tcl" || f.name == "telnet" then f ∷ rest else rest

-- The plan that `build_debug_plan` returns, from its parts.
unfoldable pub debug_plan_of :
    DebugInputs
    → DebugEndpointPlan
    → OpenOcdBasePlan
    → Bool
    → List String
    → Option (List String)
    → DebugPlan
unfolding rtt_setup auxiliary
debug_plan_of i endpoints base rtos commands gdb_argv = record {
  argv = base.argv ++ texts commands;
  literal_prefix = base.literal_prefix;
  argv_templates = base.argv_templates;
  readiness_evidence = init_evidence ∷ startup_evidence ∷ [];
  readiness_timeout = openocd_readiness_timeout;
  completion_policy = live_server;
  forwards = endpoints.forwards;
  gdb_argv = gdb_argv;
  thread_info_requested = i.thread_info_requested;
  openocd_version = i.openocd_version;
  rtos_awareness = rtos;
  rtt_forward = endpoints.rtt_forward;
  rtt_setup_kind = rtt_setup i;
  launches_rtt_client = i.command == "rtt";
  auxiliary_forwards = auxiliary endpoints.forwards;
  reserved_listeners = endpoints.reserved_listeners;
}

-- `PathPlanner.plan_support_paths`
abbrev pub SupportPaths : Type 0
SupportPaths = List String → List String → Result (List PlannedPath × List PlannedPath)

module _ (numerals : Numerals) where
  -- `rtt setup …` with the size of the search range
  abbrev setup_command : ℤ → String
  setup_command z = "rtt setup 0x" & numerals.hexadecimal z & " 0x10 \"SEGGER RTT\""

  abbrev server_command : ForwardSpec → String
  server_command f = "rtt server start " & numerals.decimal f.remote_port & " 0"

  -- The RTT server of `_server_commands`; `assert` raises where a part is missing.
  unfoldable pub rtt_server_commands : DebugInputs → DebugEndpointPlan → Result (List String)
  rtt_server_commands i e =
      if i.rtt_server && not (i.command == "rtt")
      then elim i.rtt_address [
        | none ↦ raised assertion_error
        | some z ↦ elim e.rtt_forward [
          | none ↦ raised assertion_error
          | some f ↦ ok (debug_commands (setup_command z ∷ "rtt start" ∷ server_command f ∷ []))
        ]
      ]
      else ok []

  -- `_server_commands`
  unfoldable pub server_commands :
      DebugInputs → DebugEndpointPlan → Bool → String → Result (List String)
  server_commands i e rtos startup = rtt_server_commands i e >>= λ rtt. ok (
      debug_commands i.pre_init
      ++ (when rtos (debug_commands (("$" & i.target_handle & " configure -rtos Zephyr") ∷ []))
          ++ (when (not i.no_init) (debug_commands ("init" ∷ []))
              ++ (when (not i.no_targets) (debug_commands ("targets" ∷ []))
                  ++ ((if i.command == "debugserver"
                        then debug_commands (i.reset_halt ∷ [])
                        else when (not i.no_halt) (debug_commands ("halt" ∷ [])))
                      ++ (rtt ++ debug_commands (startup ∷ [])))))))

  -- `_rtt_client_commands`
  unfoldable pub rtt_client_commands : DebugInputs → DebugEndpointPlan → Result (List String)
  rtt_client_commands i e = elim i.rtt_address [
    | none ↦ raised assertion_error
    | some z ↦ elim e.rtt_forward [
      | none ↦ raised assertion_error
      | some f ↦ ok (
          gdb_commands (
            ("monitor " & setup_command z)
            ∷ "monitor reset run"
            ∷ "monitor rtt start"
            ∷ ("monitor " & server_command f)
            ∷ "detach"
            ∷ "quit"
            ∷ []))
    ]
  ]

  -- `_client_argv`, with a GDB and an ELF file
  unfoldable pub client_of :
      DebugInputs → DebugEndpointPlan → String → String → Result (List String)
  client_of i e gdb elf_file =
      (if i.command == "rtt" then rtt_client_commands i e else ok []) >>= λ rtt. ok (
        gdb
        ∷ (when (i.command == "rtt") ("--batch" ∷ [])
            ++ (when i.tui ("-tui" ∷ [])
                ++ ("-ex"
                    ∷ ("target extended-remote 127.0.0.1:" & numerals.decimal e.gdb_endpoint_port)
                    ∷ elf_file
                    ∷ (when (i.command == "debug" && i.load) (gdb_commands ("load" ∷ []))
                        ++ (gdb_commands i.gdb_init ++ rtt))))))

  -- `_client_argv`
  unfoldable pub client_argv : DebugInputs → DebugEndpointPlan → Result (Option (List String))
  client_argv i e = if i.command == "debugserver" then ok none else elim i.gdb [
    | none ↦ refuse ("cannot " & i.command & "; no GDB executable specified")
    | some gdb ↦
        if is_blank gdb
        then refuse ("cannot " & i.command & "; no GDB executable specified")
        else elim i.elf_file [
          | none ↦ refuse ("cannot " & i.command & "; no ELF file specified")
          | some elf_file ↦
              if is_blank elf_file
              then refuse ("cannot " & i.command & "; no ELF file specified")
              else (client_of i e gdb elf_file >>= λ argv. ok (some argv))
        ]
  ]

  -- The port of a service, or `"disabled"`
  abbrev port_word : Option ℕ → String
  port_word none = "disabled"
  port_word (some p) = numerals.decimal p

  -- `pre_config_commands`
  unfoldable pub pre_config : ReadinessCommands → DebugEndpointPlan → List Command
  pre_config r e =
      r.setup
      ++ (command_template
            (record { parts = plain (literal "bindto ") ∷ plain (session address) ∷ [] })
          ∷ command_text ("tcl_port " & port_word e.remote_tcl)
          ∷ command_text ("telnet_port " & port_word e.remote_telnet)
          ∷ command_text ("gdb_port " & numerals.decimal e.gdb_base_port)
          ∷ [])

  module _ (t : Texts) (plan_support_paths : SupportPaths) where
    unfoldable pub build_debug_plan : DebugInputs → Result DebugPlan
    build_debug_plan i = do
      validate_debug_inputs i
      endpoints ← plan_debug_endpoints t i
      let readiness = readiness_commands i.readiness_suffix
      support ← plan_support_paths i.search_paths i.config_files
      let base =
          base_argv i.executable i.serial support.0 support.1 (pre_config readiness endpoints)
            i.log_output
      rtos ←
          (if i.thread_info_supported
            then thread_info_enabled i.thread_info_requested i.openocd_version
            else ok false)
      commands ← server_commands i endpoints rtos readiness.startup
      gdb_argv ← client_argv i endpoints
      ok (debug_plan_of i endpoints base rtos commands gdb_argv)
