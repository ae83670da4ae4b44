-- ===== src/Commands/Encode/Built.antt =====
-- What a constructed process specification has passed.
use zephyr_remote_openocd.Shared.{
  ℕ, ◌≡◌, Bool, true, false, ◌&&◌, Option, none, some, arith, all, length, unique, string_eq,
  int_eq, nat_eq, ℤ, Result, ok, raised, inl, inr, Option-cases,
}
use zephyr_remote_openocd.Endpoints.{ListenerSpec, make_listener}
use zephyr_remote_openocd.Arguments.{
  Part, plain, word, make_word, ArgumentTemplate, make_template, log_spool_requested,
}
use zephyr_remote_openocd.Process.{
  RequiredPathSpec, make_required_path, ProcessSpec, check_process, valid_argv, variable_names,
  variable_values, valid_variable, clean, valid_evidence_name, positive_finite, seconds_of,
  prefix_in_range, index_in_range, template_indices, templates_of, path_templates,
  validate_readiness,
}

abbrev pub is_ok {ℓ} : {A : Type ℓ} → Result A → Bool
is_ok (ok a) = true
is_ok (raised e) = false

-- Each Tcl word in a template, and the template, are ones that their constructors return.
unfoldable pub built_part : Part → Bool
unfolding make_word
built_part (plain p) = true
built_part (word w) = is_ok (make_word w.parts)

unfoldable pub built_template : ArgumentTemplate → Bool
unfolding make_template built_part
built_template t = is_ok (make_template t.parts) && all t.parts built_part

unfoldable pub built_path : RequiredPathSpec → Bool
unfolding make_required_path built_template
built_path check =
    is_ok (make_required_path check.path check.kind check.template)
    && elim check.template [ none ↦ true | some t ↦ built_template t ]

unfoldable pub built_listener : ListenerSpec → Bool
unfolding make_listener
built_listener l = is_ok (make_listener l.name (ℤ.pos l.remote_port))

-- All that a process specification is made of is constructed.
unfoldable pub built : ProcessSpec → Bool
unfolding built_template built_path
built p = all (templates_of p.argv_templates) built_template && all p.required_paths built_path

-- What `ProcessSpec.__post_init__` has found of a specification that it accepts.
pub record IsAccepted (p : ProcessSpec) : Type 0 where
  pub argv : valid_argv p.argv ≡ true
  pub names_unique : unique (variable_names p.environment) ≡ true
  pub names_valid : all (variable_names p.environment) valid_variable ≡ true
  pub values : all (variable_values p.environment) clean ≡ true
  pub evidence : all p.readiness_evidence valid_evidence_name ≡ true
  pub evidence_unique : unique p.readiness_evidence ≡ true
  pub literal_prefix : prefix_in_range p.literal_prefix (length p.argv) ≡ true
  pub indices_unique : unique (template_indices p.argv_templates) ≡ true
  pub indices :
      all
        (template_indices p.argv_templates)
        (λ index. index_in_range p.literal_prefix index (length p.argv))
      ≡ true
  pub spool :
      is_ok (log_spool_requested (templates_of p.argv_templates) (path_templates p.required_paths))
      ≡ true

module _ (to_float : ℤ → Option ℕ) where
  module _ (p : ProcessSpec) (h : check_process to_float p ≡ ok p) where
    readiness_ok :
        is_ok (validate_readiness to_float p.readiness_evidence p.readiness_timeout) ≡ true
    unfolding check_process
    readiness_ok = ground arith

    evidence_ok :
        (all p.readiness_evidence valid_evidence_name ≡ true) × (unique p.readiness_evidence ≡ true)
    unfolding validate_readiness
    evidence_ok = ground (arith, readiness_ok)

    pub check_process-IsAccepted : IsAccepted p
    unfolding check_process
    check_process-IsAccepted = ground (arith, evidence_ok)

    -- The timeout has a value in seconds, positive and finite.
    pub check_process-seconds :
        (bits : ℕ) × (seconds_of to_float p.readiness_timeout ≡ some bits)
        × (positive_finite bits ≡ true)
    unfolding validate_readiness
    check_process-seconds = elim (Option-cases (seconds_of to_float p.readiness_timeout)) [
      | inl e ↦ absurd (ground (arith, e, readiness_ok))
      | inr (bits, e) ↦ (bits, e, ground (arith, e, readiness_ok))
    ]
