-- ===== src/Openocd/Templates.antt =====
-- Where the templates of an OpenOCD command line stand.
use Prim.Native.String.{String, ◌++◌ as string_append}
use zephyr_remote_openocd.Shared.{
  ℕ, ◌+◌, ◌≤◌, ◌≡◌, refl, ap, Bool, true, false, ◌&&◌, Option, none, some, List, [], ◌∷◌, ◌++◌,
  arith, length, leb, length-append, append_assoc, append-nil, ◌∙◌, Bool-cases, inl, inr, nat_eq,
}
use zephyr_remote_openocd.Wire.Json.{codes}
use zephyr_remote_openocd.Arguments.{ArgumentTemplate, preview, log_spool_template}
use zephyr_remote_openocd.Openocd.{
  PlannedPath, OpenOcdBasePlan, append, append_text, append_paths, Command, command_text,
  command_template, append_command, append_commands, append_log_output, append_serial, is_blank,
  base_argv, texts,
}

-- The indices rise, from `low` on, and stay below `high`.
abbrev pub ordered : ℕ → ℕ → List (ℕ × ArgumentTemplate) → Bool
ordered low high [] = leb low high
ordered low high ((index, t) ∷ rest) = leb low index && ordered (index + 1) high rest

pub ordered-weaken :
    (low high higher : ℕ) (ts : List (ℕ × ArgumentTemplate))
    → ordered low high ts ≡ true
    → high ≤ higher
    → ordered low higher ts ≡ true
ordered-weaken low high higher [] h le = ground arith
ordered-weaken low high higher ((i, t) ∷ ts) h le =
    ground (arith, ordered-weaken (i + 1) high higher ts)

pub ordered-append :
    (low middle high : ℕ) (ts us : List (ℕ × ArgumentTemplate))
    → ordered low middle ts ≡ true
    → ordered middle high us ≡ true
    → ordered low high (ts ++ us) ≡ true
ordered-append low middle high [] [] h k = ground arith
ordered-append low middle high [] ((i, t) ∷ us) h k = ground arith
ordered-append low middle high ((i, t) ∷ ts) us h k =
    ground (arith, ordered-append (i + 1) middle high ts us)

-- A command line under construction: its prefix is fixed, and its templates stand behind the prefix, in
-- the order of their places.
pub record IsPlan (executable : List (List ℕ)) (b : OpenOcdBasePlan) : Type 0 where
  pub places : ordered b.literal_prefix (length b.argv) b.argv_templates ≡ true
  pub prefix_length : b.literal_prefix ≡ length executable
  pub rest : List (List ℕ)
  pub prefix_kept : b.argv ≡ executable ++ rest

module _ (executable : List (List ℕ)) where
  kept :
      (value : List ℕ) (b : OpenOcdBasePlan) (h : IsPlan executable b)
      → b.argv ++ (value ∷ []) ≡ executable ++ (h.rest ++ (value ∷ []))
  kept value b h =
      ap (λ (xs : List (List ℕ)). xs ++ (value ∷ [])) h.prefix_kept
      ∙ append_assoc executable h.rest (value ∷ [])

  grown :
      (value : List ℕ) (b : OpenOcdBasePlan) → length (b.argv ++ (value ∷ [])) ≡ length b.argv + 1
  grown value b = omega (arith, length-append b.argv (value ∷ []))

  append-IsPlan :
      (value : List ℕ) (template : Option ArgumentTemplate) (b : OpenOcdBasePlan)
      → IsPlan executable b
      → IsPlan executable (append value template b)
  unfolding append
  append-IsPlan value none b h = record {
    places = rw (grown value b) (
        ordered-weaken b.literal_prefix (length b.argv) (length b.argv + 1) b.argv_templates
          h.places (omega arith));
    prefix_length = h.prefix_length;
    rest = h.rest ++ (value ∷ []);
    prefix_kept = kept value b h;
  }
  append-IsPlan value (some t) b h = record {
    places = rw (grown value b) (
        ordered-append b.literal_prefix (length b.argv) (length b.argv + 1) b.argv_templates
          ((length b.argv, t) ∷ []) h.places (ground arith));
    prefix_length = h.prefix_length;
    rest = h.rest ++ (value ∷ []);
    prefix_kept = kept value b h;
  }

  append_text-IsPlan :
      (value : String) (b : OpenOcdBasePlan)
      → IsPlan executable b
      → IsPlan executable (append_text value b)
  unfolding append_text
  append_text-IsPlan value b h = append-IsPlan (codes value) none b h

  append_paths-IsPlan :
      (option : String) (ps : List PlannedPath) (b : OpenOcdBasePlan)
      → IsPlan executable b
      → IsPlan executable (append_paths option ps b)
  unfolding append_paths
  append_paths-IsPlan option [] b h = h
  append_paths-IsPlan option (p ∷ ps) b h =
      append_paths-IsPlan option ps (append (codes p.remote) p.template (append_text option b)) (
        append-IsPlan (codes p.remote) p.template (append_text option b)
          (append_text-IsPlan option b h))

  append_command-IsPlan :
      (c : Command) (b : OpenOcdBasePlan)
      → IsPlan executable b
      → IsPlan executable (append_command c b)
  unfolding append_command
  append_command-IsPlan (command_text s) b h =
      append_text-IsPlan s (append_text "-c" b) (append_text-IsPlan "-c" b h)
  append_command-IsPlan (command_template t) b h =
      append-IsPlan (preview t) (some t) (append_text "-c" b) (append_text-IsPlan "-c" b h)

  append_commands-IsPlan :
      (cs : List Command) (b : OpenOcdBasePlan)
      → IsPlan executable b
      → IsPlan executable (append_commands cs b)
  unfolding append_commands
  append_commands-IsPlan [] b h = h
  append_commands-IsPlan (c ∷ cs) b h =
      append_commands-IsPlan cs (append_command c b) (append_command-IsPlan c b h)

  append_log_output-IsPlan :
      (log_output : Bool) (b : OpenOcdBasePlan)
      → IsPlan executable b
      → IsPlan executable (append_log_output log_output b)
  unfolding append_log_output
  append_log_output-IsPlan true b h =
      append-IsPlan (preview log_spool_template) (some log_spool_template)
        (append_text "--log_output" b) (append_text-IsPlan "--log_output" b h)
  append_log_output-IsPlan false b h = h

  append_serial-IsPlan :
      (serial : Option String) (b : OpenOcdBasePlan)
      → IsPlan executable b
      → IsPlan executable (append_serial serial b)
  unfolding append_serial
  append_serial-IsPlan none b h = h
  append_serial-IsPlan (some serial) b h = elim (Bool-cases (is_blank serial)) [
    | inl e ↦ rw e h
    | inr e ↦ rw e (
        append_text-IsPlan (string_append "set _ZEPHYR_BOARD_SERIAL " serial) (append_text "-c" b)
          (append_text-IsPlan "-c" b h))
  ]

start-IsPlan :
    (executable : List (List ℕ))
    → IsPlan executable
        (record { argv = executable; literal_prefix = length executable; argv_templates = [] })
start-IsPlan executable = record {
  places = ground arith;
  prefix_length = refl;
  rest = [];
  prefix_kept = rw append-nil;
}

-- The command line of `base_argv` begins with the configured executable and its fixed arguments, as
-- they are, and its literal prefix is just these; its templates stand at different places behind the
-- prefix and inside the command line, in the order of the places.
pub base_argv-IsPlan :
    (executable : List String) (serial : Option String) (search configs : List PlannedPath)
    (commands : List Command) (log_output : Bool)
    → IsPlan (texts executable) (base_argv executable serial search configs commands log_output)
unfolding base_argv
base_argv-IsPlan executable serial search configs commands log_output =
    let e = texts executable in
    append_paths-IsPlan e "-f" configs _ (
      append_serial-IsPlan e serial _ (
        append_commands-IsPlan e commands _ (
          append_log_output-IsPlan e log_output _
            (append_paths-IsPlan e "-s" search _ (start-IsPlan e)))))
