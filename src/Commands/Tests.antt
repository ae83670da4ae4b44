-- ===== src/Commands/Tests.antt =====
-- A concrete process and its START message.
use zephyr_remote_openocd.Shared.{
  ℕ, ◌≡◌, refl, true, Option, none, some, List, [], ◌∷◌, ℤ, ok, length, nat_eq, int_eq, string_eq,
  all,
}
use zephyr_remote_openocd.Outcome.{live_server}
use zephyr_remote_openocd.Endpoints.{ListenerSpec, validated_listeners}
use zephyr_remote_openocd.Wire.Json.{contains}
use zephyr_remote_openocd.Arguments.{
  workspace, address, literal, session, log_spool, plain, word, ArgumentTemplate, make_word,
  make_template, log_spool_requested, Replacements, materialize_argv, preview,
}
use zephyr_remote_openocd.Arguments.Materialize.{templates_of, literals, materialize_argv-total}
use zephyr_remote_openocd.Process.{
  directory, make_required_path, ProcessSpec, binary64, check_process, validate_readiness,
  valid_argv, valid_variable, valid_evidence_name, valid_path, clean, seconds_of, positive_finite,
}
use zephyr_remote_openocd.Commands.Start.{decode_start}
use zephyr_remote_openocd.Commands.Encode.{start_message, encode_start}
use zephyr_remote_openocd.Commands.Encode.Built.{
  built, built_listener, built_template, built_path, built_part,
}
use zephyr_remote_openocd.Commands.Encode.Trip.{request_of, decode_start-encode_start}

abbrev bindto : ArgumentTemplate
bindto = record { parts = plain (literal "bindto ") ∷ plain (session address) ∷ [] }

abbrev spool : ArgumentTemplate
spool = record { parts = word (record { parts = session log_spool ∷ [] }) ∷ [] }

abbrev config : ArgumentTemplate
config = record { parts = plain (session workspace) ∷ plain (literal "/staged/board.cfg") ∷ [] }

-- 30.0 seconds
abbrev thirty : ℕ
thirty = 0x403e000000000000

abbrev openocd : ProcessSpec
openocd = record {
  argv = "openocd" ∷ "--log_output" ∷ "{log_spool}" ∷ "-c" ∷ "bindto {address}" ∷ [];
  environment = ("LANG", "C") ∷ [];
  required_paths =
      record { path = "/opt/scripts"; kind = directory; template = none }
      ∷ record { path = "{workspace}"; kind = directory; template = some config }
      ∷ [];
  readiness_evidence = "init" ∷ "startup" ∷ [];
  readiness_timeout = binary64 thirty;
  literal_prefix = ℤ.pos 1;
  argv_templates = (ℤ.pos 2, spool) ∷ (ℤ.pos 4, bindto) ∷ [];
  completion_policy = live_server;
}

abbrev services : List ListenerSpec
services = record { name = "gdb"; remote_port = 3333 } ∷ []

-- No integer is converted.
abbrev to_float : ℤ → Option ℕ
to_float n = none

accepted : check_process to_float openocd ≡ ok openocd
unfolding check_process validate_readiness valid_argv valid_variable valid_evidence_name valid_path
    clean seconds_of positive_finite log_spool_requested contains
accepted = refl

constructed : built openocd ≡ true
unfolding built built_template built_path built_part make_word make_template make_required_path
    contains preview
constructed = refl

services_built : all services built_listener ≡ true
unfolding built_listener
services_built = refl

services_valid : validated_listeners services ≡ ok services
unfolding validated_listeners
services_valid = refl

encoded : encode_start openocd services none ≡ ok (start_message openocd services none)
unfolding encode_start
encoded = refl

decode_start-encode_start_example :
    (bits : ℕ) × (seconds_of to_float (binary64 thirty) ≡ some bits)
    × (decode_start to_float (start_message openocd services none)
        ≡ ok (request_of openocd services none bits))
decode_start-encode_start_example =
    decode_start-encode_start to_float openocd services none (start_message openocd services none)
      accepted constructed services_built services_valid encoded

abbrev replacements : Replacements
replacements = record {
  workspace_text = 47 ∷ 119 ∷ [];
  address_text = 49 ∷ [];
  log_spool_text = some (47 ∷ 108 ∷ []);
}

abbrev templates : List (ℕ × ArgumentTemplate)
templates = (2, spool) ∷ (4, bindto) ∷ []

requested : log_spool_requested (templates_of templates) (config ∷ []) ≡ ok true
unfolding log_spool_requested
requested = refl

materialize_argv-total_example :
    (texts : List (List ℕ)) × (materialize_argv replacements 1 templates openocd.argv ≡ some texts)
    × (length texts ≡ length openocd.argv)
materialize_argv-total_example =
    materialize_argv-total replacements templates (config ∷ []) true requested refl 1 openocd.argv

-- A prefix that has a template is not replaced.
materialized :
    materialize_argv replacements 1 ((0, bindto) ∷ []) ("openocd" ∷ [])
    ≡ some (literals ("openocd" ∷ []))
unfolding materialize_argv
materialized = refl
