-- ===== src/Openocd/Tests.antt =====
-- A flash of an ELF image and a debug session.
use Prim.Native.String.{String}
use zephyr_remote_openocd.Shared.{
  ℕ, ℤ, ◌≡◌, refl, true, false, none, some, List, [], ◌∷◌, ◌++◌, string_eq, nat_eq, ◌==◌, ok,
  length, if◌then◌else◌,
}
use zephyr_remote_openocd.Outcome.{process_exit}
use zephyr_remote_openocd.Gate.{ForwardSpec}
use zephyr_remote_openocd.Endpoints.{
  make_forward, make_listener, listener, validated_forwards, validated_listeners,
}
use zephyr_remote_openocd.Endpoints.Sets.{listeners}
use zephyr_remote_openocd.Wire.Json.{contains}
use zephyr_remote_openocd.Arguments.{
  address, workspace, literal, session, plain, word, ArgumentTemplate, make_word, make_template,
  preview, log_spool_template,
}
use zephyr_remote_openocd.Openocd.{
  argument_template, render, append, append_text, append_paths, append_command, append_commands,
  append_log_output, append_serial, base_argv, texts,
}
use zephyr_remote_openocd.Openocd.Templates.{ordered}
use zephyr_remote_openocd.Openocd.Flash.{
  program_and_verify, programs, verifies, FlashInputs, commands, common_flash_commands,
  elf_flash_commands, bin_flash_commands, hex_flash_commands, finish_standard_commands, strip_erase,
  operation_commands, flash_argv, shown_argument, path_templates_from,
}
use zephyr_remote_openocd.Openocd.Flash.Build.{
  FlashPlan, Planner, image_kind, image_source, entry_of, validate_flash_inputs, plan_image,
  build_flash_plan,
}
use zephyr_remote_openocd.Openocd.Flash.Plans.{build_flash_plan-places}
use zephyr_remote_openocd.Openocd.Debug.{
  port_number, port_text, Texts, DebugInputs, DebugEndpointPlan, validate_debug_inputs, port_of,
  same_port, service_forward, base_listener, check_endpoints, port, required_port, place_rtt,
  add_rtt, client_port, plan_debug_endpoints,
}
use zephyr_remote_openocd.Openocd.Debug.Endpoints.{Distinct, plan_debug_endpoints-Distinct}
use zephyr_remote_openocd.Openocd.Debug.Plan.{
  Numerals, SupportPaths, DebugPlan, has_thread_info, thread_info_enabled, readiness_commands,
  debug_commands, gdb_commands, debug_plan_of, rtt_server_commands, server_commands,
  rtt_client_commands, client_of, client_argv, pre_config, build_debug_plan,
}
use zephyr_remote_openocd.Endpoints.Plan.{SessionPlan, make_session_plan}
use zephyr_remote_openocd.Openocd.Debug.Plan.Session.{make_session_plan-debug_plan}
use zephyr_remote_openocd.Openocd.Debug.Plan.Checks.{server_commands-total}

abbrev staged : ArgumentTemplate
staged = record { parts = plain (session workspace) ∷ plain (literal "/staged/zephyr.hex") ∷ [] }

abbrev planner : Planner
planner = record {
  lower = λ s. s;
  plan_support_paths =
      λ search configs. ok ([], record { remote = "/opt/board.cfg"; template = none } ∷ []);
  plan_file = λ source role.
      ok (record { remote = "{workspace}/staged/zephyr.hex"; template = some staged });
  elf_entry = λ source. ok "0x08000000";
}

abbrev inputs : FlashInputs
inputs = record {
  executable = "openocd" ∷ [];
  image_type = some "hex";
  file = none;
  elf_file = none;
  hex_file = some "build/zephyr/zephyr.hex";
  bin_file = none;
  search_paths = [];
  config_files = "board.cfg" ∷ [];
  pre_init = [];
  reset_halt = "reset init";
  pre_load = [];
  erase_commands = "flash erase_sector 0 0 last" ∷ [];
  load_command = some "flash write_image erase";
  verify_command = some "verify_image";
  post_verify = [];
  operation = record { mode = program_and_verify; erase = true };
  serial = none;
  flash_address = none;
  no_init = false;
  no_targets = false;
  log_output = false;
}

abbrev command_of : String → ArgumentTemplate
command_of command = record {
  parts =
      plain (literal command)
      ∷ word (record { parts = session workspace ∷ literal "/staged/zephyr.hex" ∷ [] })
      ∷ plain (literal "")
      ∷ [];
}

abbrev bindto : ArgumentTemplate
bindto = record { parts = plain (literal "bindto ") ∷ plain (session address) ∷ [] }

abbrev flash_plan : FlashPlan
flash_plan = record {
  argv = texts (
      "openocd" ∷ "-c" ∷ "bindto {address}" ∷ "-f" ∷ "/opt/board.cfg" ∷ "-c" ∷ "init" ∷ "-c"
      ∷ "targets" ∷ "-c" ∷ "reset init" ∷ "-c" ∷ "flash erase_sector 0 0 last" ∷ "-c"
      ∷ "flash write_image \"{workspace}/staged/zephyr.hex\"" ∷ "-c" ∷ "reset init" ∷ "-c"
      ∷ "verify_image \"{workspace}/staged/zephyr.hex\"" ∷ "-c" ∷ "reset run" ∷ "-c" ∷ "shutdown"
      ∷ []);
  literal_prefix = 1;
  argv_templates =
      (2, bindto) ∷ (14, command_of "flash write_image ") ∷ (18, command_of "verify_image ") ∷ [];
  completion_policy = process_exit;
  image = "{workspace}/staged/zephyr.hex";
}

planned : build_flash_plan planner inputs ≡ ok flash_plan
unfolding argument_template render append append_text append_paths append_command append_commands
    append_log_output append_serial base_argv commands common_flash_commands elf_flash_commands
    bin_flash_commands hex_flash_commands finish_standard_commands strip_erase operation_commands
    flash_argv shown_argument path_templates_from image_kind image_source entry_of
    validate_flash_inputs plan_image build_flash_plan programs verifies make_word make_template
    contains preview log_spool_template
planned = refl

build_flash_plan-places_example :
    (ordered 1 (length flash_plan.argv) flash_plan.argv_templates ≡ true)
    × (flash_plan.literal_prefix ≡ length (texts ("openocd" ∷ [])))
    × ((rest : List (List ℕ)) × (flash_plan.argv ≡ texts ("openocd" ∷ []) ++ rest))
    × (flash_plan.completion_policy ≡ process_exit)
build_flash_plan-places_example = build_flash_plan-places planner inputs flash_plan planned

-- `lower` leaves a text as it is, and `int` reads one port.
abbrev python : Texts
python = record { lower = λ s. s; to_int = λ s. if s == "4444" then some (ℤ.pos 4444) else none }

abbrev debugging : DebugInputs
debugging = record {
  command = "debug";
  executable = "openocd" ∷ [];
  gdb = some "gdb";
  elf_file = some "zephyr.elf";
  search_paths = [];
  config_files = "board.cfg" ∷ [];
  readiness_suffix = "a1";
  pre_init = [];
  reset_halt = "reset init";
  serial = none;
  no_halt = false;
  no_init = false;
  no_targets = false;
  tcl_port = port_text "disabled";
  telnet_port = port_text "4444";
  gdb_port = port_number (ℤ.pos 3333);
  gdb_client_port = port_number (ℤ.pos 3334);
  gdb_init = [];
  tui = false;
  load = true;
  target_handle = "_TARGETNAME";
  thread_info_requested = true;
  thread_info_supported = true;
  openocd_version = some (0, 12, 0);
  rtt_address = some (ℤ.pos 536870912);
  rtt_port = port_number (ℤ.pos 5555);
  rtt_server = true;
  log_output = true;
}

abbrev self : String → ℕ → ForwardSpec
self name p = record { name = name; local_port = p; remote_port = p }

abbrev endpoints : DebugEndpointPlan
endpoints = record {
  gdb_base_port = 3333;
  gdb_endpoint_port = 3334;
  remote_tcl = none;
  remote_telnet = some 4444;
  forwards = self "gdb" 3334 ∷ self "telnet" 4444 ∷ self "rtt" 5555 ∷ [];
  rtt_forward = some (self "rtt" 5555);
  reserved_listeners = record { name = "gdb_base"; remote_port = 3333 } ∷ [];
}

endpoints_planned : plan_debug_endpoints python debugging ≡ ok endpoints
unfolding plan_debug_endpoints make_forward make_listener listener validated_forwards
    validated_listeners listeners port_of same_port service_forward base_listener check_endpoints
    port required_port place_rtt add_rtt client_port
endpoints_planned = refl

plan_debug_endpoints-Distinct_example : Distinct endpoints
plan_debug_endpoints-Distinct_example =
    plan_debug_endpoints-Distinct python debugging endpoints endpoints_planned

abbrev numerals : Numerals
numerals = record { decimal = λ n. "4444"; hexadecimal = λ z. "20000000" }

server_commands-total_example :
    ((commands : List String) × (server_commands numerals debugging endpoints true
          "evidence startup"
        ≡ ok commands))
    × (((debugging.command == "rtt") ≡ true)
        → (commands : List String) × (rtt_client_commands numerals debugging endpoints
            ≡ ok commands))
server_commands-total_example =
    server_commands-total numerals python debugging endpoints true "evidence startup"
      endpoints_planned

abbrev one_config : SupportPaths
one_config search configs = ok ([], record { remote = "/opt/board.cfg"; template = none } ∷ [])

abbrev debug_plan : DebugPlan
debug_plan =
    debug_plan_of debugging endpoints
      (base_argv ("openocd" ∷ []) none []
        (record { remote = "/opt/board.cfg"; template = none } ∷ [])
        (pre_config numerals (readiness_commands "a1") endpoints) true)
      true
      ("-c" ∷ "$_TARGETNAME configure -rtos Zephyr" ∷ "-c" ∷ "init" ∷ "-c" ∷ "targets" ∷ "-c"
        ∷ "halt" ∷ "-c" ∷ "rtt setup 0x20000000 0x10 \"SEGGER RTT\"" ∷ "-c" ∷ "rtt start" ∷ "-c"
        ∷ "rtt server start 4444 0" ∷ "-c" ∷ "zro_evidence_a1 startup" ∷ [])
      (some (
        "gdb" ∷ "-ex" ∷ "target extended-remote 127.0.0.1:4444" ∷ "zephyr.elf" ∷ "-ex" ∷ "load"
        ∷ []))

debug_planned : build_debug_plan numerals python one_config debugging ≡ ok debug_plan
unfolding plan_debug_endpoints make_forward make_listener listener validated_forwards
    validated_listeners listeners port_of same_port service_forward base_listener check_endpoints
    port required_port place_rtt add_rtt client_port has_thread_info thread_info_enabled
    readiness_commands debug_commands gdb_commands rtt_server_commands server_commands
    rtt_client_commands client_of client_argv pre_config build_debug_plan validate_debug_inputs
debug_planned = refl

abbrev debug_session : SessionPlan
debug_session = record {
  host = "lab";
  forwards = debug_plan.forwards;
  auxiliary_forwards = debug_plan.auxiliary_forwards;
  reserved_listeners = debug_plan.reserved_listeners;
  log_file = some "openocd.log";
}

make_session_plan-debug_plan_example : make_session_plan true debug_session ≡ ok debug_session
make_session_plan-debug_plan_example =
    make_session_plan-debug_plan numerals python one_config debugging "lab" (some "openocd.log")
      true debug_plan refl refl debug_planned
