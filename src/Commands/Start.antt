-- ===== src/Commands/Start.antt =====
-- `_decode_start` and RELEASE of protocol/commands.py.
use Prim.Native.String.{String}
use zephyr_remote_openocd.Shared.{
  ℕ, Bool, true, false, ◌&&◌, Option, none, some, List, [], ◌∷◌, if◌then◌else◌, length, leb, nat_eq,
  string_eq, ◌==◌, ℤ, Result, ok, raised, value_error,
}
use zephyr_remote_openocd.Shared.Chain.{◌>>=◌, ◌>>◌, require}
use zephyr_remote_openocd.Outcome.{CompletionPolicy, live_server, process_exit}
use zephyr_remote_openocd.Endpoints.{ListenerSpec, make_listener, validated_listeners}
use zephyr_remote_openocd.Wire.Json.{
  Json, null, int, str, arr, obj, Items, nil, cons, Fields, exact, codes,
}
use zephyr_remote_openocd.Wire.Address.{valid_address}
use zephyr_remote_openocd.Arguments.{
  ArgumentTemplate, make_template, Part, plain, Plain, log_spool_requested,
}
use zephyr_remote_openocd.Process.{
  PathKind, file, directory, valid_path, positive_finite, seconds_of,
}
use zephyr_remote_openocd.Commands.{
  item, each, decode_argv, decode_environment, decode_evidence, number_of, decode_prefix,
  parse_plain_parts, parse_argv_templates, PathValue, path_text, path_template, RequiredPath,
}

abbrev invalid {ℓ} : {A : Type ℓ} → String → Result A
invalid text = raised (value_error text)

unfoldable pub path_kind : Json → Result PathKind
path_kind (str name) =
    if name == "file"
    then ok file
    else if name == "directory"
    then ok directory
    else invalid "invalid required-path assertion"
path_kind _ = invalid "invalid required-path assertion"

-- `tuple[str | SessionValue]` as the parts of a template
abbrev pub plain_parts : List Plain → List Part
plain_parts [] = []
plain_parts (p ∷ ps) = plain p ∷ plain_parts ps

unfoldable pub path_value : Json → Result PathValue
unfolding valid_path parse_plain_parts make_template
path_value (str path) =
    if valid_path path then ok (path_text path) else invalid "invalid required-path assertion"
path_value (obj fs) =
    if exact fs ("parts" ∷ [])
    then (do
      parts ← parse_plain_parts (item "parts" fs)
      template ← make_template (plain_parts parts)
      ok (path_template template))
    else invalid "invalid required-path assertion"
path_value _ = invalid "invalid required-path assertion"

-- `_parse_required_path`
unfoldable pub parse_required_path : Json → Result RequiredPath
unfolding path_kind path_value
parse_required_path (obj fs) =
    if exact fs ("kind" ∷ "path" ∷ [])
    then (do
      kind ← path_kind (item "kind" fs)
      path ← path_value (item "path" fs)
      ok (record { kind = kind; path = path }))
    else invalid "invalid required-path assertion"
parse_required_path _ = invalid "invalid required-path assertion"

unfoldable pub parse_required_paths : Json → Result (List RequiredPath)
unfolding parse_required_path
parse_required_paths (arr items) = each items parse_required_path
parse_required_paths _ = invalid "invalid required-path assertion"

-- `ListenerSpec(**item)`, for a dict with the two keys
unfoldable pub listener_of : Json → Json → Result ListenerSpec
unfolding make_listener
listener_of (str name) (int port) = make_listener name port
listener_of (str name) _ =
    if leb (length (codes name)) 0
    then invalid "listener name must be a non-empty string"
    else invalid "remote port must be in 1..65535"
listener_of _ _ = invalid "listener name must be a non-empty string"

unfoldable pub is_service : Json → Bool
is_service (obj fs) = exact fs ("name" ∷ "remote_port" ∷ [])
is_service _ = false

unfoldable pub parse_listener : Json → Result ListenerSpec
unfolding listener_of
parse_listener (obj fs) = listener_of (item "name" fs) (item "remote_port" fs)
parse_listener _ = invalid "START services are invalid"

abbrev pub all_items : Items → (Json → Bool) → Bool
all_items nil test = true
all_items (cons v vs) test = test v && all_items vs test

-- `_parse_listeners`
unfoldable pub parse_listeners : Json → Result (List ListenerSpec)
unfolding is_service parse_listener validated_listeners
parse_listeners (arr items) =
    if all_items items is_service
    then (each items parse_listener >>= validated_listeners)
    else invalid "START services are invalid"
parse_listeners _ = invalid "START services are invalid"

-- `validate_preferred_address`, with the address
unfoldable pub decode_address : Json → Result (Option String)
unfolding valid_address
decode_address null = ok none
decode_address (str address) =
    if valid_address address
    then ok (some address)
    else invalid "preferred address must be a usable address in 127.64.0.0/10"
decode_address _ = invalid "preferred address must be a string or null"

-- `CompletionPolicy(…)`
unfoldable pub decode_policy : Json → Result CompletionPolicy
decode_policy (str name) =
    if name == "live_server"
    then ok live_server
    else if name == "process_exit"
    then ok process_exit
    else invalid "not a valid CompletionPolicy"
decode_policy _ = invalid "not a valid CompletionPolicy"

pub record StartRequest : Type 0 where
  pub completion_policy : CompletionPolicy
  pub argv : List String
  pub environment : List (String × String)
  pub required_paths : List RequiredPath
  pub listeners : List ListenerSpec
  pub readiness_evidence : List String
  pub readiness_timeout : ℕ
  pub literal_prefix : ℕ
  pub argv_templates : List (ℕ × ArgumentTemplate)
  pub preferred_address : Option String

abbrev pub start_templates : List (ℕ × ArgumentTemplate) → List ArgumentTemplate
start_templates [] = []
start_templates ((index, t) ∷ rest) = t ∷ start_templates rest

abbrev pub start_paths : List RequiredPath → List ArgumentTemplate
start_paths [] = []
start_paths (check ∷ rest) = elim check.path [
  | path_text path ↦ start_paths rest
  | path_template t ↦ t ∷ start_paths rest
]

-- `StartRequest.uses_log_spool`
unfoldable pub uses_log_spool : StartRequest → Result Bool
unfolding log_spool_requested
uses_log_spool r =
    log_spool_requested (start_templates r.argv_templates) (start_paths r.required_paths)

abbrev pub start_fields : List String
start_fields =
    "version" ∷ "type" ∷ "argv" ∷ "environment" ∷ "required_paths" ∷ "services"
    ∷ "readiness_evidence" ∷ "readiness_timeout" ∷ "literal_prefix" ∷ "argv_templates"
    ∷ "preferred_address" ∷ "completion_policy" ∷ []

-- `float(value)` of Python: `none` is the `OverflowError` of an integer that is too large.
module _ (to_float : ℤ → Option ℕ) where
  -- `_validate_timeout`, with the seconds
  unfoldable pub decode_timeout : Json → Result ℕ
  decode_timeout value = elim (number_of value) [
    | none ↦ invalid "START readiness options are invalid"
    | some number ↦ elim (seconds_of to_float number) [
      | none ↦ invalid "START readiness timeout does not convert to a finite float"
      | some bits ↦
          if positive_finite bits then ok bits else invalid "START readiness options are invalid"
    ]
  ]

  unfoldable pub decode_start : Fields → Result StartRequest
  decode_start message = do
    require (exact message start_fields) "START fields are invalid"
    argv ← decode_argv (item "argv" message)
    environment ← decode_environment (item "environment" message)
    evidence ← decode_evidence (item "readiness_evidence" message)
    timeout ← decode_timeout (item "readiness_timeout" message)
    literal_prefix ← decode_prefix (item "literal_prefix" message) (length argv)
    listeners ← parse_listeners (item "services" message)
    checks ← parse_required_paths (item "required_paths" message)
    templates ← parse_argv_templates (item "argv_templates" message) (length argv) literal_prefix
    address ← decode_address (item "preferred_address" message)
    log_spool_requested (start_templates templates) (start_paths checks)
    policy ← decode_policy (item "completion_policy" message)
    ok (record {
      completion_policy = policy;
      argv = argv;
      environment = environment;
      required_paths = checks;
      listeners = listeners;
      readiness_evidence = evidence;
      readiness_timeout = timeout;
      literal_prefix = literal_prefix;
      argv_templates = templates;
      preferred_address = address;
    })

  -- `decode_command`, on a message that `decode_frame` has returned
  unfoldable pub decode_command : Fields → Result StartRequest
  decode_command message = elim (item "type" message) [
    | str name ↦
        if name == "START"
        then decode_start message
        else invalid "only START is valid on controller input"
    | _ ↦ invalid "only START is valid on controller input"
  ]

-- `decode_release`, on such a message
unfoldable pub decode_release : Fields → Result (Unit {0})
decode_release message = elim (item "type" message) [
  | str name ↦
      require (name == "RELEASE" && exact message ("version" ∷ "type" ∷ []))
        "only RELEASE is valid on controller input after START"
  | _ ↦ invalid "only RELEASE is valid on controller input after START"
]
