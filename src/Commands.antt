-- ===== src/Commands.antt =====
-- protocol/commands.py: START and RELEASE. The values are the decoded frames of `decode_frame`, and
-- those that are handed to `encode_frame`.
mod Tests
pub mod Start
pub mod Encode
use Prim.Native.String.{String}
use zephyr_remote_openocd.Shared.{
  ℕ, Bool, true, false, not, ◌&&◌, ◌||◌, Option, none, some, List, [], ◌∷◌, if◌then◌else◌, all,
  length, leb, ltb, member, unique, nat_eq, string_eq, ◌==◌, ℤ, Result, ok, raised, value_error,
}
use zephyr_remote_openocd.Shared.Chain.{◌>>=◌, ◌>>◌, require}
use zephyr_remote_openocd.Outcome.{CompletionPolicy, live_server, process_exit}
use zephyr_remote_openocd.Endpoints.{ListenerSpec, make_listener, validated_listeners}
use zephyr_remote_openocd.Wire.Json.{
  Json, null, bool, int, float, str, arr, obj, Items, nil, cons, Fields, end, field, get, exact,
  codes, contains,
}
use zephyr_remote_openocd.Wire.Address.{valid_address}
use zephyr_remote_openocd.Arguments.{
  SessionValue, workspace, address, log_spool, Plain, literal, session, make_word, Part, plain,
  word, ArgumentTemplate, make_template, log_spool_requested, is_empty,
}
use zephyr_remote_openocd.Process.{
  valid_evidence_name, PathKind, file, directory, valid_path, clean, valid_argv, valid_variable,
  positive_finite, Number, integer, binary64, seconds_of,
}

-- `message[key]`, for a key that an earlier test of the keys has found; `null` elsewhere.
abbrev pub item : String → Fields → Json
item key fs = elim (get key fs) [ none ↦ null | some v ↦ v ]

abbrev invalid {ℓ} : {A : Type ℓ} → String → Result A
invalid text = raised (value_error text)

-- `tuple(f(item) for item in items)`
abbrev pub each {ℓ} : {A : Type ℓ} → Items → (Json → Result A) → Result (List A)
each nil f = ok []
each (cons v vs) f = f v >>= λ x. each vs f >>= λ xs. ok (x ∷ xs)

unfoldable pub text_of : Json → Result String
text_of (str s) = ok s
text_of _ = invalid "not a string"

-- The strings of a list, `none` where a member is none.
unfoldable pub strings : Items → Option (List String)
strings nil = some []
strings (cons (str s) vs) = elim (strings vs) [ none ↦ none | some ss ↦ some (s ∷ ss) ]
strings (cons _ vs) = none

-- `validate_argv`, with the list it accepts
unfoldable pub decode_argv : Json → Result (List String)
unfolding strings valid_argv
decode_argv (arr items) = elim (strings items) [
  | none ↦ invalid "START requires a non-empty string argv"
  | some argv ↦
      if valid_argv argv then ok argv else invalid "START requires a non-empty string argv"
]
decode_argv _ = invalid "START requires a non-empty string argv"

-- `_validate_environment`, with the items of the dict
unfoldable pub variables : Fields → Result (List (String × String))
unfolding valid_variable clean
variables end = ok []
variables (field key (str value) fs) =
    if valid_variable key && clean value
    then (variables fs >>= λ rest. ok ((key, value) ∷ rest))
    else invalid "START environment must contain valid string values"
variables (field key _ fs) = invalid "START environment must contain valid string values"

unfoldable pub decode_environment : Json → Result (List (String × String))
unfolding variables
decode_environment (obj fs) = variables fs
decode_environment _ = invalid "START environment must contain valid string values"

-- `_validate_readiness_evidence`, with the names
unfoldable pub decode_evidence : Json → Result (List String)
unfolding strings valid_evidence_name
decode_evidence (arr items) = elim (strings items) [
  | none ↦ invalid "START readiness evidence names are invalid"
  | some names ↦
      if not (all names valid_evidence_name)
      then invalid "START readiness evidence names are invalid"
      else if not (unique names)
      then invalid "START readiness evidence names must be unique"
      else ok names
]
decode_evidence _ = invalid "START readiness evidence names are invalid"

unfoldable pub number_of : Json → Option Number
number_of (int n) = some (integer n)
number_of (float bits) = some (binary64 bits)
number_of _ = none

-- `_validate_literal_prefix`, with the number
unfoldable pub decode_prefix : Json → ℕ → Result ℕ
decode_prefix (int (ℤ.pos n)) count =
    if leb n count then ok n else invalid "START readiness options are invalid"
decode_prefix _ count = invalid "START readiness options are invalid"

unfoldable pub session_value : Json → Result SessionValue
session_value (str name) =
    if name == "workspace"
    then ok workspace
    else if name == "address"
    then ok address
    else if name == "log_spool"
    then ok log_spool
    else invalid "not a valid SessionValue"
session_value _ = invalid "not a valid SessionValue"

unfoldable pub parse_plain_part : Json → Result Plain
unfolding session_value
parse_plain_part (str s) = ok (literal s)
parse_plain_part (obj fs) =
    if exact fs ("session" ∷ [])
    then (session_value (item "session" fs) >>= λ v. ok (session v))
    else invalid "invalid argument template part"
parse_plain_part _ = invalid "invalid argument template part"

unfoldable pub parse_plain_parts : Json → Result (List Plain)
unfolding parse_plain_part
parse_plain_parts (arr (cons v vs)) = each (cons v vs) parse_plain_part
parse_plain_parts _ = invalid "invalid argument template parts"

unfoldable pub parse_argv_part : Json → Result Part
unfolding parse_plain_part parse_plain_parts make_word
parse_argv_part (obj fs) =
    if exact fs ("tcl_word" ∷ [])
    then (do parts ← parse_plain_parts (item "tcl_word" fs); w ← make_word parts; ok (word w))
    else (parse_plain_part (obj fs) >>= λ p. ok (plain p))
parse_argv_part v = parse_plain_part v >>= λ p. ok (plain p)

unfoldable pub parse_argv_parts : Json → Result (List Part)
unfolding parse_argv_part
parse_argv_parts (arr (cons v vs)) = each (cons v vs) parse_argv_part
parse_argv_parts _ = invalid "invalid argument template parts"

-- The test on `index`, with the number
unfoldable pub template_index : Json → ℕ → ℕ → List ℕ → Result ℕ
template_index (int (ℤ.pos n)) count literal_prefix seen =
    if (leb literal_prefix n && ltb n count) && not (member n seen)
    then ok n
    else invalid "invalid argv template index"
template_index _ count literal_prefix seen = invalid "invalid argv template index"

unfoldable pub parse_argv_template : Json → ℕ → ℕ → List ℕ → Result (ℕ × ArgumentTemplate)
unfolding template_index parse_argv_parts make_template
parse_argv_template (obj fs) count literal_prefix seen =
    if exact fs ("index" ∷ "parts" ∷ [])
    then (do
      index ← template_index (item "index" fs) count literal_prefix seen
      parts ← parse_argv_parts (item "parts" fs)
      template ← make_template parts
      ok (index, template))
    else invalid "invalid argv template"
parse_argv_template _ count literal_prefix seen = invalid "invalid argv template"

-- The loop of `_parse_argv_templates`
unfoldable pub parse_templates_from : Items → ℕ → ℕ → List ℕ → Result (List (ℕ × ArgumentTemplate))
unfolding parse_argv_template
parse_templates_from nil count literal_prefix seen = ok []
parse_templates_from (cons v vs) count literal_prefix seen =
    parse_argv_template v count literal_prefix seen >>= λ pair.
    parse_templates_from vs count literal_prefix (pair.0 ∷ seen) >>= λ rest. ok (pair ∷ rest)

unfoldable pub parse_argv_templates : Json → ℕ → ℕ → Result (List (ℕ × ArgumentTemplate))
unfolding parse_templates_from
parse_argv_templates (arr items) count literal_prefix =
    parse_templates_from items count literal_prefix []
parse_argv_templates _ count literal_prefix = invalid "invalid argv templates"

-- `str | ArgumentTemplate`
pub data PathValue : Type 0 where
  path_text : String → PathValue
  path_template : ArgumentTemplate → PathValue

pub record RequiredPath : Type 0 where
  pub kind : PathKind
  pub path : PathValue
