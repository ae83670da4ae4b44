-- ===== src/Commands/Encode.antt =====
-- `encode_start`: the dict that it hands to `encode_frame`, with the version and the type that
-- `encode_frame` adds. The frame's text is that of the json library.
pub mod Built
pub mod Parts
pub mod Services
pub mod Trip
use Prim.Native.String.{String}
use zephyr_remote_openocd.Shared.{
  ℕ, Option, none, some, List, [], ◌∷◌, ℤ, if◌then◌else◌, Result, ok, raised, value_error,
}
use zephyr_remote_openocd.Wire.Address.{valid_address}
use zephyr_remote_openocd.Outcome.{CompletionPolicy, live_server, process_exit}
use zephyr_remote_openocd.Endpoints.{ListenerSpec}
use zephyr_remote_openocd.Wire.Json.{
  Json, null, int, float, str, arr, obj, Items, nil, cons, Fields, end, field,
}
use zephyr_remote_openocd.Arguments.{ArgumentTemplate}
use zephyr_remote_openocd.Arguments.Wire.{items, wire_parts}
use zephyr_remote_openocd.Process.{
  PathKind, file, directory, RequiredPathSpec, Number, integer, binary64, ProcessSpec,
}

unfoldable pub policy_name : CompletionPolicy → String
policy_name live_server = "live_server"
policy_name process_exit = "process_exit"

unfoldable pub encode_address : Option String → Json
encode_address none = null
encode_address (some address) = str address

unfoldable pub encode_environment : List (String × String) → Fields
encode_environment [] = end
encode_environment ((name, value) ∷ rest) = field name (str value) (encode_environment rest)

unfoldable pub kind_name : PathKind → String
kind_name file = "file"
kind_name directory = "directory"

unfoldable pub encode_path : RequiredPathSpec → Json
unfolding wire_parts
encode_path check = elim check.template [
  | none ↦ str check.path
  | some t ↦ obj (field "parts" (wire_parts t) end)
]

unfoldable pub encode_check : RequiredPathSpec → Json
unfolding kind_name encode_path
encode_check check =
    obj (field "kind" (str (kind_name check.kind)) (field "path" (encode_path check) end))

unfoldable pub encode_listener : ListenerSpec → Json
encode_listener l =
    obj (field "name" (str l.name) (field "remote_port" (int (ℤ.pos l.remote_port)) end))

unfoldable pub encode_number : Number → Json
encode_number (integer n) = int n
encode_number (binary64 bits) = float bits

unfoldable pub encode_template : ℤ × ArgumentTemplate → Json
unfolding wire_parts
encode_template (index, template) =
    obj (field "index" (int index) (field "parts" (wire_parts template) end))

unfoldable pub start_message : ProcessSpec → List ListenerSpec → Option String → Fields
start_message process listeners preferred_address = field "version" (int (ℤ.pos 1)) (
    field "type" (str "START") (
      field "completion_policy" (str (policy_name process.completion_policy)) (
        field "preferred_address" (encode_address preferred_address) (
          field "argv" (arr (items process.argv str)) (
            field "environment" (obj (encode_environment process.environment)) (
              field "required_paths" (arr (items process.required_paths encode_check)) (
                field "services" (arr (items listeners encode_listener)) (
                  field "readiness_evidence" (arr (items process.readiness_evidence str)) (
                    field "readiness_timeout" (encode_number process.readiness_timeout) (
                      field "literal_prefix" (int process.literal_prefix) (
                        field "argv_templates" (arr (items process.argv_templates encode_template))
                          end)))))))))))

-- `validate_preferred_address` passes `None` and usable addresses.
unfoldable pub encode_start : ProcessSpec → List ListenerSpec → Option String → Result Fields
encode_start process listeners none = ok (start_message process listeners none)
encode_start process listeners (some address) =
    if valid_address address
    then ok (start_message process listeners (some address))
    else raised (value_error "preferred address must be a usable address in 127.64.0.0/10")
