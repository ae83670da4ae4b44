-- ===== src/Openocd.antt =====
-- openocd/arguments.py and openocd/command.py: the start of every OpenOCD command line. The plan of
-- the paths (`PathPlanner`) is an argument.
mod Tests
pub mod Debug
pub mod Flash
pub mod Templates
use Prim.Native.String.{String, ◌++◌ as string_append}
use zephyr_remote_openocd.Shared.{
  ℕ, ◌+◌, Bool, true, false, not, ◌&&◌, Option, none, some, List, [], ◌∷◌, ◌++◌, if◌then◌else◌, any,
  length, Result, ok, raised, value_error, ◌≡◌, flatten, ◌≤◌, ◌<◌,
}
use zephyr_remote_openocd.Shared.Chain.{◌>>=◌}
use zephyr_remote_openocd.Wire.Json.{codes}
use zephyr_remote_openocd.Arguments.{
  SessionValue, log_spool, address, workspace, Plain, literal, session, TclWord, make_word, Part,
  plain, word, ArgumentTemplate, make_template, log_spool_template, preview, is_empty,
}

-- `PlannedPath` of controller/paths.py
pub record PlannedPath : Type 0 where
  pub remote : String
  pub template : Option ArgumentTemplate

-- `TclPathArgument`
pub record TclPathArgument : Type 0 where
  pub prefix : String
  pub path : String
  pub suffix : String
  pub template : Option ArgumentTemplate

-- The parts of a path template that are no Tcl words.
abbrev pub plain_only : List Part → List Plain
plain_only [] = []
plain_only (plain p ∷ ps) = p ∷ plain_only ps
plain_only (word w ∷ ps) = plain_only ps

abbrev pub has_word : List Part → Bool
has_word [] = false
has_word (plain p ∷ ps) = has_word ps
has_word (word w ∷ ps) = true

abbrev pub path_parts : TclPathArgument → List Part
path_parts a = elim a.template [ none ↦ plain (literal a.path) ∷ [] | some t ↦ t.parts ]

unfoldable pub argument_template : TclPathArgument → Result ArgumentTemplate
argument_template a =
    if has_word (path_parts a)
    then raised (value_error "a Tcl path cannot contain nested Tcl words")
    else make_word (plain_only (path_parts a)) >>= λ w.
        make_template (plain (literal a.prefix) ∷ word w ∷ plain (literal a.suffix) ∷ [])

-- `render`
unfoldable pub render : TclPathArgument → Result (List ℕ)
unfolding argument_template preview
render a = argument_template a >>= λ t. ok (preview t)

-- `OpenOcdBasePlan`, and the lists from which `base_argv` makes it. A text is its code points.
pub record OpenOcdBasePlan : Type 0 where
  pub argv : List (List ℕ)
  pub literal_prefix : ℕ
  pub argv_templates : List (ℕ × ArgumentTemplate)

-- `append` of `base_argv`, and `argv.append`
unfoldable pub append : List ℕ → Option ArgumentTemplate → OpenOcdBasePlan → OpenOcdBasePlan
append value none b = record b { argv = b.argv ++ (value ∷ []) }
append value (some t) b = record b {
  argv = b.argv ++ (value ∷ []);
  argv_templates = b.argv_templates ++ ((length b.argv, t) ∷ []);
}

unfoldable pub append_text : String → OpenOcdBasePlan → OpenOcdBasePlan
unfolding append
append_text value b = append (codes value) none b

-- The loops over the search directories and the configuration files, each behind its option.
unfoldable pub append_paths : String → List PlannedPath → OpenOcdBasePlan → OpenOcdBasePlan
unfolding append append_text
append_paths option [] b = b
append_paths option (p ∷ ps) b =
    append_paths option ps (append (codes p.remote) p.template (append_text option b))

-- `str | ArgumentTemplate`
pub data Command : Type 0 where
  command_text : String → Command
  command_template : ArgumentTemplate → Command

unfoldable pub append_command : Command → OpenOcdBasePlan → OpenOcdBasePlan
unfolding append append_text preview
append_command (command_text s) b = append_text s (append_text "-c" b)
append_command (command_template t) b = append (preview t) (some t) (append_text "-c" b)

unfoldable pub append_commands : List Command → OpenOcdBasePlan → OpenOcdBasePlan
unfolding append_command
append_commands [] b = b
append_commands (c ∷ cs) b = append_commands cs (append_command c b)

unfoldable pub append_log_output : Bool → OpenOcdBasePlan → OpenOcdBasePlan
unfolding append append_text preview log_spool_template
append_log_output true b =
    append (preview log_spool_template) (some log_spool_template) (append_text "--log_output" b)
append_log_output false b = b

abbrev pub is_blank : String → Bool
is_blank String.[] = true
is_blank (String.◌∷◌ c s) = false

unfoldable pub append_serial : Option String → OpenOcdBasePlan → OpenOcdBasePlan
unfolding append_text
append_serial none b = b
append_serial (some serial) b =
    if is_blank serial
    then b
    else append_text (string_append "set _ZEPHYR_BOARD_SERIAL " serial) (append_text "-c" b)

abbrev pub texts : List String → List (List ℕ)
texts [] = []
texts (s ∷ ss) = codes s ∷ texts ss

unfoldable pub base_argv :
    List String
    → Option String
    → List PlannedPath
    → List PlannedPath
    → List Command
    → Bool
    → OpenOcdBasePlan
unfolding append_paths append_commands append_log_output append_serial
base_argv executable serial search configs pre_config_commands log_output =
    let start : OpenOcdBasePlan = record {
      argv = texts executable;
      literal_prefix = length (texts executable);
      argv_templates = [];
    } in
    append_paths "-f" configs (
      append_serial serial (
        append_commands pre_config_commands
          (append_log_output log_output (append_paths "-s" search start))))
