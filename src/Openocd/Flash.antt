-- ===== src/Openocd/Flash.antt =====
-- openocd/flash.py: the commands of a flash operation.
pub mod Plans
pub mod Build
use Prim.Native.String.{String, ◌++◌ as string_append}
use zephyr_remote_openocd.Shared.{
  ℕ, ◌+◌, Bool, true, false, not, ◌&&◌, ◌||◌, Option, none, some, List, [], ◌∷◌, ◌++◌,
  if◌then◌else◌, length, string_eq, ◌==◌, Result, ok, raised, runtime_error, is_none,
}
use zephyr_remote_openocd.Shared.Chain.{◌>>=◌, ◌>>◌, traverse}
use zephyr_remote_openocd.Outcome.{CompletionPolicy, process_exit}
use zephyr_remote_openocd.Wire.Json.{codes}
use zephyr_remote_openocd.Arguments.{
  address, Plain, literal, session, plain, ArgumentTemplate, is_empty,
}
use zephyr_remote_openocd.Openocd.{
  PlannedPath, TclPathArgument, argument_template, render, OpenOcdBasePlan, command_template,
  is_blank, base_argv,
}

pub data FlashMode : Type 0 where
  program program_and_verify verify_only : FlashMode

pub record FlashOperation : Type 0 where
  pub mode : FlashMode
  pub erase : Bool

-- `FlashOperation.programs`, `FlashOperation.verifies`
unfoldable pub programs : FlashOperation → Bool
programs o = elim o.mode [ program ↦ true | program_and_verify ↦ true | verify_only ↦ false ]

unfoldable pub verifies : FlashOperation → Bool
verifies o = elim o.mode [ program ↦ false | program_and_verify ↦ true | verify_only ↦ true ]

-- `FlashPlanError` is a `RuntimeError`.
abbrev refuse {ℓ} : {A : Type ℓ} → String → Result A
refuse text = raised (runtime_error text)

-- `FlashOperation.__post_init__`
unfoldable pub make_operation : FlashMode → Bool → Result FlashOperation
unfolding programs
make_operation mode erase =
    let o : FlashOperation = record { mode = mode; erase = erase } in
    if erase && not (programs o)
    then refuse "--erase cannot be combined with --verify-only"
    else ok o

pub record FlashInputs : Type 0 where
  pub executable : List String
  pub image_type : Option String
  pub file : Option String
  pub elf_file : Option String
  pub hex_file : Option String
  pub bin_file : Option String
  pub search_paths : List String
  pub config_files : List String
  pub pre_init : List String
  pub reset_halt : String
  pub pre_load : List String
  pub erase_commands : List String
  pub load_command : Option String
  pub verify_command : Option String
  pub post_verify : List String
  pub operation : FlashOperation
  pub serial : Option String
  pub flash_address : Option String
  pub no_init : Bool
  pub no_targets : Bool
  pub log_output : Bool

-- `not text` of an optional text
abbrev pub missing : Option String → Bool
missing none = true
missing (some s) = is_blank s

-- The text of an optional value in an f-string.
abbrev pub shown : Option String → String
shown none = "None"
shown (some s) = s

-- `str | TclPathArgument`
pub data Argument : Type 0 where
  text : List ℕ → Argument
  path : TclPathArgument → Argument

abbrev pub word : String → Argument
word s = text (codes s)

pub record PlannedFlashImage : Type 0 where
  pub kind : String
  pub remote : String
  pub entry : Option String
  pub template : Option ArgumentTemplate

-- `_commands`
unfoldable pub commands : List String → List Argument
commands [] = []
commands (c ∷ cs) = word "-c" ∷ word c ∷ commands cs

abbrev pub when {ℓ} : {A : Type ℓ} → Bool → List A → List A
when true xs = xs
when false xs = []

-- `_common_flash_commands`
unfoldable pub common_flash_commands : FlashInputs → List Argument
common_flash_commands i =
    commands i.pre_init
    ++ (when (not i.no_init) (word "-c" ∷ word "init" ∷ [])
        ++ when (not i.no_targets) (word "-c" ∷ word "targets" ∷ []))

-- `TclPathArgument` for the image behind a command, with an optional address after it
abbrev image_command : String → PlannedFlashImage → String → Argument
image_command command image suffix = path (record {
  prefix = string_append command " ";
  path = image.remote;
  suffix = suffix;
  template = image.template;
})

abbrev pub closing : List Argument
closing = word "-c" ∷ word "shutdown" ∷ []

-- `_elf_flash_commands`
unfoldable pub elf_flash_commands : FlashInputs → PlannedFlashImage → List Argument
elf_flash_commands i image =
    when (programs i.operation) (
      commands i.pre_load
      ++ (word "-c" ∷ word i.reset_halt ∷ word "-c" ∷ image_command "load_image" image "" ∷ []))
    ++ (when (verifies i.operation)
          (word "-c" ∷ image_command "verify_image" image "" ∷ commands i.post_verify)
        ++ (word "-c" ∷ word (string_append "resume " (shown image.entry)) ∷ closing))

-- `_finish_standard_commands`
unfoldable pub finish_standard_commands : List Argument → FlashInputs → List Argument
finish_standard_commands cs i =
    cs ++ (commands i.post_verify ++ (word "-c" ∷ word "reset run" ∷ closing))

-- `f" {inputs.flash_address}"`
abbrev address_suffix : FlashInputs → String
address_suffix i = string_append " " (shown i.flash_address)

-- `_bin_flash_commands`
unfoldable pub bin_flash_commands : FlashInputs → PlannedFlashImage → List Argument
unfolding finish_standard_commands
bin_flash_commands i image =
    finish_standard_commands
      (commands i.pre_load
        ++ (when (programs i.operation) (
              word "-c"
              ∷ word i.reset_halt
              ∷ (when i.operation.erase (commands i.erase_commands)
                  ++ (word "-c"
                      ∷ image_command (shown i.load_command) image (address_suffix i)
                      ∷ [])))
            ++ when (verifies i.operation) (
                word "-c"
                ∷ word i.reset_halt
                ∷ word "-c"
                ∷ image_command (shown i.verify_command) image (address_suffix i)
                ∷ [])))
      i

-- `load_command[:-6]` where it ends with `" erase"`, and else the text itself
unfoldable pub strip_erase : String → String
strip_erase String.[] = String.[]
strip_erase (String.◌∷◌ c s) =
    let rest = strip_erase s in if String.◌∷◌ c s == " erase" then String.[] else String.◌∷◌ c rest

-- `inputs.load_command or ""`
abbrev loading : Option String → String
loading none = ""
loading (some s) = s

-- `_hex_flash_commands`
unfoldable pub hex_flash_commands : FlashInputs → PlannedFlashImage → List Argument
unfolding finish_standard_commands strip_erase
hex_flash_commands i image =
    let load_command =
      if i.operation.erase then strip_erase (loading i.load_command) else loading i.load_command in
    finish_standard_commands
      (commands i.pre_load
        ++ (when (programs i.operation) (
              word "-c"
              ∷ word i.reset_halt
              ∷ (when i.operation.erase (commands i.erase_commands)
                  ++ (word "-c" ∷ image_command load_command image "" ∷ [])))
            ++ when (verifies i.operation) (
                word "-c"
                ∷ word i.reset_halt
                ∷ word "-c"
                ∷ image_command (shown i.verify_command) image ""
                ∷ [])))
      i

-- `_operation_commands`
unfoldable pub operation_commands : FlashInputs → PlannedFlashImage → List Argument
unfolding elf_flash_commands bin_flash_commands hex_flash_commands
operation_commands i image =
    if image.kind == "elf"
    then elf_flash_commands i image
    else if image.kind == "bin"
    then bin_flash_commands i image
    else hex_flash_commands i image

abbrev pub as_text : List (List ℕ) → List Argument
as_text [] = []
as_text (a ∷ argv) = text a ∷ as_text argv

-- `_flash_argv`
unfoldable pub flash_argv : FlashInputs → OpenOcdBasePlan → PlannedFlashImage → List Argument
unfolding common_flash_commands operation_commands
flash_argv i base image =
    as_text base.argv ++ (common_flash_commands i ++ operation_commands i image)

-- `arg.render() if isinstance(arg, TclPathArgument) else arg`
unfoldable pub shown_argument : Argument → Result (List ℕ)
unfolding render
shown_argument (text s) = ok s
shown_argument (path a) = render a

-- The pairs of the numbers and templates of the path arguments, from the number `index`.
unfoldable pub path_templates_from : ℕ → List Argument → Result (List (ℕ × ArgumentTemplate))
unfolding argument_template
path_templates_from index [] = ok []
path_templates_from index (text s ∷ args) = path_templates_from (index + 1) args
path_templates_from index (path a ∷ args) =
    argument_template a >>= λ t. path_templates_from (index + 1) args >>= λ ts. ok ((index, t) ∷ ts)
