-- ===== src/Process.antt =====
-- protocol/process.py: the specification of a process. A `str` or an `int` that the constructor asks
-- for is one by its type here.
use Prim.Native.String.{String}
use zephyr_remote_openocd.Shared.{
  ℕ, Bool, true, false, not, ◌&&◌, ◌||◌, Option, none, some, List, [], ◌∷◌, if◌then◌else◌, all, any,
  length, leb, ltb, unique, nat_eq, string_eq, int_eq, ℤ, Result, ok, raised, value_error,
}
use zephyr_remote_openocd.Shared.Chain.{◌>>◌, require}
use zephyr_remote_openocd.Outcome.{CompletionPolicy}
use zephyr_remote_openocd.Wire.Json.{codes, contains}
use zephyr_remote_openocd.Arguments.{
  Part, plain, word, ArgumentTemplate, preview, log_spool_requested, is_empty,
}

-- `[A-Za-z0-9_]`
unfoldable pub name_code : ℕ → Bool
name_code c =
    (leb b'A' c && leb c b'Z')
    || ((leb b'a' c && leb c b'z') || ((leb b'0' c && leb c b'9') || leb c b'_' && leb b'_' c))

unfoldable pub valid_evidence_name : String → Bool
unfolding name_code
valid_evidence_name name = not (is_empty (codes name)) && all (codes name) name_code

pub data PathKind : Type 0 where
  file directory : PathKind

pub record RequiredPathSpec : Type 0 where
  pub path : String
  pub kind : PathKind
  pub template : Option ArgumentTemplate

unfoldable pub is_word : Part → Bool
is_word (plain p) = false
is_word (word w) = true

-- `path`, non-empty and without NUL
unfoldable pub valid_path : String → Bool
unfolding contains
valid_path path = not (is_empty (codes path)) && not (contains 0 path)

-- `RequiredPathSpec.__post_init__`
unfoldable pub make_required_path :
    String → PathKind → Option ArgumentTemplate → Result RequiredPathSpec
unfolding valid_path is_word preview
make_required_path path kind template =
    if not (valid_path path)
    then raised (value_error "remote path check must have a non-empty path")
    else elim template [
      | none ↦ ok (record { path = path; kind = kind; template = none })
      | some t ↦
          if any t.parts is_word
          then raised (value_error "remote path checks cannot contain Tcl words")
          else if is_empty (preview t)
          then raised (value_error "remote path check template must not be empty")
          else ok (record { path = path; kind = kind; template = some t })
    ]

-- `int | float`; a float is the bit pattern of its binary64 value.
pub data Number : Type 0 where
  integer : ℤ → Number
  binary64 : ℕ → Number

pub record ProcessSpec : Type 0 where
  pub argv : List String
  pub environment : List (String × String)
  pub required_paths : List RequiredPathSpec
  pub readiness_evidence : List String
  pub readiness_timeout : Number
  pub literal_prefix : ℤ
  pub argv_templates : List (ℤ × ArgumentTemplate)
  pub completion_policy : CompletionPolicy

unfoldable pub clean : String → Bool
unfolding contains
clean s = not (contains 0 s)

-- The test of `_validate_process_argv`, and of `validate_argv` of protocol/commands.py.
unfoldable pub valid_argv : List String → Bool
unfolding clean
valid_argv [] = false
valid_argv (executable ∷ arguments) =
    not (is_empty (codes executable)) && all (executable ∷ arguments) clean

unfoldable pub valid_variable : String → Bool
unfolding contains clean
valid_variable name = not (is_empty (codes name)) && (not (contains b'=' name) && clean name)

abbrev pub variable_names : List (String × String) → List String
variable_names [] = []
variable_names ((name, value) ∷ rest) = name ∷ variable_names rest

abbrev pub variable_values : List (String × String) → List String
variable_values [] = []
variable_values ((name, value) ∷ rest) = value ∷ variable_values rest

-- Finite and above 0, by the bit pattern: no sign, an exponent below the largest, not 0.
unfoldable pub positive_finite : ℕ → Bool
positive_finite bits = ltb 0 bits && ltb bits 0x7ff0000000000000

abbrev pub index_in_range : ℤ → ℤ → ℕ → Bool
index_in_range (ℤ.pos low) (ℤ.pos index) count = leb low index && ltb index count
index_in_range (ℤ.negsuc low) (ℤ.pos index) count = ltb index count
index_in_range low (ℤ.negsuc index) count = false

abbrev pub prefix_in_range : ℤ → ℕ → Bool
prefix_in_range (ℤ.pos literal_prefix) count = leb literal_prefix count
prefix_in_range (ℤ.negsuc n) count = false

abbrev pub template_indices : List (ℤ × ArgumentTemplate) → List ℤ
template_indices [] = []
template_indices ((index, t) ∷ rest) = index ∷ template_indices rest

abbrev pub templates_of : List (ℤ × ArgumentTemplate) → List ArgumentTemplate
templates_of [] = []
templates_of ((index, t) ∷ rest) = t ∷ templates_of rest

abbrev pub path_templates : List RequiredPathSpec → List ArgumentTemplate
path_templates [] = []
path_templates (check ∷ rest) = elim check.template [
  | none ↦ path_templates rest
  | some t ↦ t ∷ path_templates rest
]

-- `float(value)` of Python: `none` is the `OverflowError` of an integer that is too large.
module _ (to_float : ℤ → Option ℕ) where
  unfoldable pub seconds_of : Number → Option ℕ
  seconds_of (integer n) = to_float n
  seconds_of (binary64 bits) = some bits

  -- `_validate_process_readiness`
  unfoldable pub validate_readiness : List String → Number → Result (Unit {0})
  validate_readiness evidence timeout =
      if not (all evidence valid_evidence_name && unique evidence)
      then raised
          (value_error "readiness evidence must be unique names of ASCII letters, digits, or _")
      else elim (seconds_of timeout) [
        | none ↦ raised (value_error "readiness timeout does not convert to a finite float")
        | some bits ↦ require (positive_finite bits) "readiness timeout must be positive"
      ]

  -- `ProcessSpec.__post_init__`
  unfoldable pub check_process : ProcessSpec → Result ProcessSpec
  check_process p = do
    require (valid_argv p.argv) "remote process argv must start with a non-empty string"
    require
        (unique (variable_names p.environment) && all (variable_names p.environment) valid_variable)
        "remote environment names must be unique and valid"
    require (all (variable_values p.environment) clean)
        "remote environment values must be strings without NUL"
    require (all p.required_paths (λ check. valid_path check.path))
        "remote path checks must be RequiredPathSpec values"
    validate_readiness p.readiness_evidence p.readiness_timeout
    require (prefix_in_range p.literal_prefix (length p.argv)) "literal argv prefix is invalid"
    require
        (unique (template_indices p.argv_templates)
          && all (template_indices p.argv_templates)
              (λ index. index_in_range p.literal_prefix index (length p.argv)))
        "argv templates must target unique non-prefix argument indices"
    log_spool_requested (templates_of p.argv_templates) (path_templates p.required_paths)
    ok p
