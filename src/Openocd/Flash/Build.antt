-- ===== src/Openocd/Flash/Build.antt =====
-- The plan of a flash operation: `build_flash_plan` of openocd/flash.py. Lowercasing, the planning of paths
-- and the entry point of an ELF file are arguments.
use Prim.Native.String.{String, ◌++◌ as string_append}
use zephyr_remote_openocd.Shared.{
  ℕ, not, ◌&&◌, ◌||◌, Option, none, some, List, [], ◌∷◌, ◌++◌, if◌then◌else◌, string_eq, ◌==◌,
  Result, ok, is_none,
}
use zephyr_remote_openocd.Shared.Chain.{◌>>=◌, ◌>>◌, traverse}
use zephyr_remote_openocd.Outcome.{CompletionPolicy, process_exit}
use zephyr_remote_openocd.Arguments.{address, literal, session, plain, ArgumentTemplate, is_empty}
use zephyr_remote_openocd.Openocd.{PlannedPath, command_template, is_blank, base_argv}
use zephyr_remote_openocd.Openocd.Flash.{
  verifies, refuse, FlashInputs, missing, PlannedFlashImage, flash_argv, shown_argument,
  path_templates_from,
}

-- What the plan gives `ProcessSpec`, and the image.
pub record FlashPlan : Type 0 where
  pub argv : List (List ℕ)
  pub literal_prefix : ℕ
  pub argv_templates : List (ℕ × ArgumentTemplate)
  pub completion_policy : CompletionPolicy
  pub image : String

-- What the plan takes from Python's texts, from `PathPlanner` and from the ELF reader.
pub record Planner : Type 0 where
  pub lower : String → String
  pub plan_support_paths : List String → List String → Result (List PlannedPath × List PlannedPath)
  pub plan_file : String → String → Result PlannedPath
  pub elf_entry : String → Result String

module _ (planner : Planner) where
  -- `_image_kind`
  unfoldable pub image_kind : FlashInputs → String
  image_kind i = elim i.image_type [
    | none ↦ "hex"
    | some t ↦ if is_blank t || is_blank (planner.lower t) then "hex" else planner.lower t
  ]

  -- `_image_source`
  unfoldable pub image_source : FlashInputs → String → Option String
  image_source i kind = elim i.file [
    | some f ↦ some f
    | none ↦ if kind == "elf" then i.elf_file else if kind == "bin" then i.bin_file else i.hex_file
  ]

  -- `validate_flash_inputs`
  unfoldable pub validate_flash_inputs : FlashInputs → Result (Unit {0})
  unfolding image_kind verifies
  validate_flash_inputs i =
      let kind = image_kind i in
      if i.operation.erase && kind == "elf"
      then refuse "--erase is not supported when flashing an ELF image"
      else if kind == "bin" && (missing i.load_command || is_none i.flash_address)
      then refuse "cannot flash BIN; load command and flash address are required"
      else if kind == "bin" && (verifies i.operation && missing i.verify_command)
      then refuse "BIN verification requested but no verify command is available"
      else if not (kind == "elf" || kind == "bin")
          && (missing i.load_command || missing i.verify_command)
      then refuse "cannot flash image; load and verify commands are required"
      else if i.operation.erase && is_empty i.erase_commands
      then refuse "erase requested but the target supplies no erase command"
      else ok tt

  -- `_elf_entry`, for an ELF image
  unfoldable pub entry_of : String → String → Result (Option String)
  entry_of kind source =
      if kind == "elf" then (planner.elf_entry source >>= λ e. ok (some e)) else ok none

  -- `_plan_image`
  unfoldable pub plan_image : FlashInputs → Result PlannedFlashImage
  unfolding image_kind image_source entry_of
  plan_image i =
      let kind = image_kind i in
      elim (image_source i kind) [
        | none ↦ refuse (string_append "cannot flash; no " (string_append kind " image specified"))
        | some source ↦
            if is_blank source
            then refuse (string_append "cannot flash; no " (string_append kind " image specified"))
            else do
              remote ← planner.plan_file source "firmware"
              entry ← entry_of kind source
              ok (record {
                kind = kind;
                remote = remote.remote;
                entry = entry;
                template = remote.template;
              })
      ]

  unfoldable pub build_flash_plan : FlashInputs → Result FlashPlan
  build_flash_plan i = do
    validate_flash_inputs i
    support ← planner.plan_support_paths i.search_paths i.config_files
    let bindto : ArgumentTemplate = record {
      parts = plain (literal "bindto ") ∷ plain (session address) ∷ [];
    }
    let base =
        base_argv i.executable i.serial support.0 support.1 (command_template bindto ∷ [])
          i.log_output
    image ← plan_image i
    argv ← traverse (flash_argv i base image) shown_argument
    templates ← path_templates_from 0 (flash_argv i base image)
    ok (record {
      argv = argv;
      literal_prefix = base.literal_prefix;
      argv_templates = base.argv_templates ++ templates;
      completion_policy = process_exit;
      image = image.remote;
    })
