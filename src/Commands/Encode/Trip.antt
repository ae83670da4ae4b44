-- ===== src/Commands/Encode/Trip.antt =====
-- The round trip of START: what the controller encodes is what the helper decodes.
use Prim.Native.String.{String}
use zephyr_remote_openocd.Shared.{
  ℕ, ◌≡◌, refl, true, Option, none, some, List, arith, all, length, unique, string_eq, int_eq,
  nat_eq, ℤ, ok,
}
use zephyr_remote_openocd.Outcome.{CompletionPolicy, live_server, process_exit}
use zephyr_remote_openocd.Endpoints.{ListenerSpec, validated_listeners}
use zephyr_remote_openocd.Wire.Json.{int, str, arr, Fields, exact}
use zephyr_remote_openocd.Arguments.Wire.{items}
use zephyr_remote_openocd.Process.{
  ProcessSpec, check_process, valid_argv, valid_evidence_name, prefix_in_range, seconds_of,
  positive_finite, Number, integer, binary64, index_in_range, template_indices, templates_of,
}
use zephyr_remote_openocd.Commands.{
  decode_argv, decode_environment, decode_evidence, number_of, decode_prefix, parse_argv_templates,
}
use zephyr_remote_openocd.Commands.Start.{
  StartRequest, decode_start, decode_timeout, parse_required_paths, decode_address, decode_policy,
}
use zephyr_remote_openocd.Commands.Encode.{
  policy_name, encode_address, encode_number, start_message, encode_start,
}
use zephyr_remote_openocd.Commands.Encode.Built.{
  built, built_listener, built_path, built_template, IsAccepted, check_process-IsAccepted,
  check_process-seconds,
}
use zephyr_remote_openocd.Commands.Encode.Parts.{
  strings-items, variables-encode_environment, index_number, numbered, templates-encode_template,
  start_templates-numbered,
}
use zephyr_remote_openocd.Commands.Encode.Services.{
  checks_of, each-encode_check, start_paths-checks_of, parse_listeners-encode_listener,
}

-- The request that stands for a process, its listeners and its preferred address.
abbrev pub request_of : ProcessSpec → List ListenerSpec → Option String → ℕ → StartRequest
request_of p listeners address seconds = record {
  completion_policy = p.completion_policy;
  argv = p.argv;
  environment = p.environment;
  required_paths = checks_of p.required_paths;
  listeners = listeners;
  readiness_evidence = p.readiness_evidence;
  readiness_timeout = seconds;
  literal_prefix = index_number p.literal_prefix;
  argv_templates = numbered p.argv_templates;
  preferred_address = address;
}

decode_argv-items :
    (argv : List String) → valid_argv argv ≡ true → decode_argv (arr (items argv str)) ≡ ok argv
unfolding decode_argv
decode_argv-items argv h = ground (arith, strings-items argv)

decode_evidence-items :
    (names : List String)
    → all names valid_evidence_name ≡ true
    → unique names ≡ true
    → decode_evidence (arr (items names str)) ≡ ok names
unfolding decode_evidence
decode_evidence-items names h u = ground (arith, strings-items names)

decode_prefix-int :
    (n : ℤ) (count : ℕ)
    → prefix_in_range n count ≡ true
    → decode_prefix (int n) count ≡ ok (index_number n)
unfolding decode_prefix
decode_prefix-int n count h = ground arith

decode_policy-policy_name : (p : CompletionPolicy) → decode_policy (str (policy_name p)) ≡ ok p
unfolding decode_policy policy_name
decode_policy-policy_name live_server = refl
decode_policy-policy_name process_exit = refl

templates_in_range :
    (p : ProcessSpec)
    → IsAccepted p
    → all
        (template_indices p.argv_templates)
        (λ j. index_in_range (ℤ.pos (index_number p.literal_prefix)) j (length p.argv))
      ≡ true
templates_in_range p a = ground (arith, a.literal_prefix, a.indices)

paths_built : (p : ProcessSpec) → built p ≡ true → all p.required_paths built_path ≡ true
unfolding built
paths_built p h = ground arith

templates_built :
    (p : ProcessSpec) → built p ≡ true → all (templates_of p.argv_templates) built_template ≡ true
unfolding built
templates_built p h = ground arith

module _ (p : ProcessSpec) (listeners : List ListenerSpec) where
  encode_start-message :
      (address : Option String) (message : Fields)
      → encode_start p listeners address ≡ ok message
      → message ≡ start_message p listeners address
  unfolding encode_start
  encode_start-message none message h = ground arith
  encode_start-message (some address) message h = ground arith

  decode_address-encode_start :
      (address : Option String) (message : Fields)
      → encode_start p listeners address ≡ ok message
      → decode_address (encode_address address) ≡ ok address
  unfolding encode_start decode_address encode_address
  decode_address-encode_start none message h = refl
  decode_address-encode_start (some address) message h = ground arith

module _ (to_float : ℤ → Option ℕ) where
  decode_timeout-encode_number :
      (n : Number) (bits : ℕ)
      → seconds_of to_float n ≡ some bits
      → positive_finite bits ≡ true
      → decode_timeout to_float (encode_number n) ≡ ok bits
  unfolding decode_timeout encode_number number_of seconds_of
  decode_timeout-encode_number (integer n) bits h k = ground arith
  decode_timeout-encode_number (binary64 b) bits h k = ground arith

  module _ (p : ProcessSpec) (listeners : List ListenerSpec) (address : Option String)
      (message : Fields) (accepted : check_process to_float p ≡ ok p) (constructed : built p ≡ true)
      (listeners_built : all listeners built_listener ≡ true)
      (listeners_valid : validated_listeners listeners ≡ ok listeners)
      (encoded : encode_start p listeners address ≡ ok message) where
    decoded :
        (bits : ℕ)
        → seconds_of to_float p.readiness_timeout ≡ some bits
        → positive_finite bits ≡ true
        → decode_start to_float (start_message p listeners address)
          ≡ ok (request_of p listeners address bits)
    unfolding decode_start start_message exact decode_environment parse_required_paths
        parse_argv_templates
    decoded bits h k =
        let a = check_process-IsAccepted to_float p accepted in
        ground (
          arith,
          decode_argv-items p.argv a.argv,
          variables-encode_environment p.environment a.names_valid a.values,
          decode_evidence-items p.readiness_evidence a.evidence a.evidence_unique,
          decode_timeout-encode_number p.readiness_timeout bits h k,
          decode_prefix-int p.literal_prefix (length p.argv) a.literal_prefix,
          parse_listeners-encode_listener listeners listeners_built listeners_valid,
          each-encode_check p.required_paths (paths_built p constructed),
          templates-encode_template p.argv_templates (index_number p.literal_prefix) (length p.argv)
              (templates_in_range p a) a.indices_unique (templates_built p constructed),
          decode_address-encode_start p listeners address message encoded,
          decode_policy-policy_name p.completion_policy,
          start_templates-numbered p.argv_templates,
          start_paths-checks_of p.required_paths,
          a.spool,
        )

    -- For a process that `ProcessSpec` accepts, with parts that their constructors have made, a valid set
    -- of listeners and an address that `encode_start` does not refuse, `_decode_start` accepts the
    -- message that `encode_start` hands to `encode_frame`, and returns the same process, listeners and
    -- address, with the timeout as the number of seconds `float` makes of it.
    pub decode_start-encode_start :
        (bits : ℕ) × (seconds_of to_float p.readiness_timeout ≡ some bits)
        × (decode_start to_float message ≡ ok (request_of p listeners address bits))
    decode_start-encode_start =
        let (bits, h, k) = check_process-seconds to_float p accepted in
        (bits, h, rw (encode_start-message p listeners address message encoded) (decoded bits h k))
