-- ===== src/Openocd/Debug/Plan/Checks.antt =====
-- What holds of every debug plan.
use Prim.Native.String.{String}
use zephyr_remote_openocd.Shared.{
  ℕ, ◌+◌, ◌≡◌, refl, ap, subst, ◌∙◌, Bool, true, false, not, ◌&&◌, ◌||◌, Option, List, [], ◌∷◌,
  ◌++◌, arith, if◌then◌else◌, string_eq, nat_eq, ◌==◌, ok, is_some, Result-cases, inl, inr, length,
  append_assoc, length-append,
}
use zephyr_remote_openocd.Shared.Chain.{bind-ok, then-ok}
use zephyr_remote_openocd.Outcome.{live_server}
use zephyr_remote_openocd.Openocd.{OpenOcdBasePlan, texts}
use zephyr_remote_openocd.Openocd.Templates.{ordered, ordered-weaken, IsPlan, base_argv-IsPlan}
use zephyr_remote_openocd.Openocd.Debug.{
  Texts, DebugInputs, DebugEndpointPlan, validate_debug_inputs, plan_debug_endpoints, same_port,
  service_forward, base_listener, check_endpoints, place_rtt, add_rtt, required_port, port,
  client_port,
}
use zephyr_remote_openocd.Openocd.Debug.Plan.{
  Numerals, SupportPaths, DebugPlan, readiness_commands, thread_info_enabled, rtt_server_commands,
  server_commands, rtt_client_commands, client_argv, pre_config, build_debug_plan, debug_plan_of,
  init_evidence, startup_evidence,
}

-- The RTT parts that the command lines ask for are there.
abbrev Ready : DebugInputs → DebugEndpointPlan → Type 0
Ready i e =
    (not (i.command == "rtt" || i.rtt_server) || (is_some i.rtt_address && is_some e.rtt_forward))
    ≡ true

module _ (t : Texts) (i : DebugInputs) where
  add_rtt-Ready :
      (taken : _) (plan result : DebugEndpointPlan)
      → add_rtt t i taken plan ≡ ok result
      → Ready i result
  unfolding add_rtt place_rtt
  add_rtt-Ready taken plan result h = elim (Result-cases (required_port t i.rtt_port "rtt_port")) [
    | inr (e, bad) ↦ ground (arith, bad)
    | inl (p, found) ↦ elim (Result-cases (same_port "rtt" p)) [
      | inr (e, bad) ↦ ground (arith, found, bad)
      | inl (f, made) ↦ ground (arith, found, made)
    ]
  ]

  endpoints-Ready : (plan : DebugEndpointPlan) → plan_debug_endpoints t i ≡ ok plan → Ready i plan
  unfolding plan_debug_endpoints
  endpoints-Ready plan h =
      let (b, (_, h)) = bind-ok (required_port t i.gdb_port "gdb_port") _ plan h in
      let (g, (_, h)) = bind-ok (client_port t i b) _ plan h in
      let (tcl_port, (_, h)) = bind-ok (port t i.tcl_port "tcl_port") _ plan h in
      let (telnet_port, (_, h)) = bind-ok (port t i.telnet_port "telnet_port") _ plan h in
      let (gdb, (_, h)) = bind-ok (same_port "gdb" g) _ plan h in
      let (reserved, (_, h)) = bind-ok (base_listener b g) _ plan h in
      let (tcl, (_, h)) = bind-ok (service_forward "tcl" tcl_port) _ plan h in
      let (telnet, (_, h)) = bind-ok (service_forward "telnet" telnet_port) _ plan h in
      let (ls, (_, h)) = bind-ok (check_endpoints (gdb ∷ (tcl ++ telnet)) reserved) _ plan h in
      add_rtt-Ready _ _ plan h

module _ (numerals : Numerals) (t : Texts) (i : DebugInputs) where
  rtt_server_commands-total :
      (e : DebugEndpointPlan)
      → Ready i e
      → (commands : List String) × (rtt_server_commands numerals i e ≡ ok commands)
  unfolding rtt_server_commands
  rtt_server_commands-total e ready = elim (Result-cases (rtt_server_commands numerals i e)) [
    | inl made ↦ made
    | inr (error, bad) ↦ absurd (ground (arith, bad, ready))
  ]

  rtt_client_commands-total :
      (e : DebugEndpointPlan)
      → Ready i e
      → (i.command == "rtt") ≡ true
      → (commands : List String) × (rtt_client_commands numerals i e ≡ ok commands)
  unfolding rtt_client_commands
  rtt_client_commands-total e ready rtt = elim (Result-cases (rtt_client_commands numerals i e)) [
    | inl made ↦ made
    | inr (error, bad) ↦ absurd (ground (arith, bad, ready, rtt))
  ]

  -- The assertions behind the endpoints of a debug session hold: with planned endpoints the commands of
  -- the OpenOCD server are always made, and so are those of the RTT client where the command is `rtt`.
  pub server_commands-total :
      (e : DebugEndpointPlan) (rtos : Bool) (startup : String)
      → plan_debug_endpoints t i ≡ ok e
      → ((commands : List String) × (server_commands numerals i e rtos startup ≡ ok commands))
        × (((i.command == "rtt") ≡ true)
            → (commands : List String) × (rtt_client_commands numerals i e ≡ ok commands))
  unfolding server_commands
  server_commands-total e rtos startup h =
      let ready = endpoints-Ready t i e h in
      let (rtt, made) = rtt_server_commands-total e ready in
      (
        elim (Result-cases (server_commands numerals i e rtos startup)) [
          | inl total ↦ total
          | inr (error, bad) ↦ absurd (ground (arith, made, bad))
        ],
        rtt_client_commands-total e ready,
      )

-- Where the templates of a debug plan stand, and what the plan begins with and waits for.
abbrev Places : DebugInputs → DebugPlan → Type 0
Places i plan =
    (ordered plan.literal_prefix (length plan.argv) plan.argv_templates ≡ true)
    × (plan.literal_prefix ≡ length (texts i.executable))
    × ((rest : List (List ℕ)) × (plan.argv ≡ texts i.executable ++ rest))
    × (plan.completion_policy ≡ live_server)
    × (plan.readiness_evidence ≡ init_evidence ∷ startup_evidence ∷ [])

debug_plan_of-Places :
    (i : DebugInputs) (e : DebugEndpointPlan) (base : OpenOcdBasePlan) (rtos : Bool)
    (commands : List String) (gdb_argv : Option (List String))
    → IsPlan (texts i.executable) base
    → Places i (debug_plan_of i e base rtos commands gdb_argv)
unfolding debug_plan_of
debug_plan_of-Places i e base rtos commands gdb_argv h = (
  rw (length-append base.argv (texts commands)) (
      ordered-weaken base.literal_prefix (length base.argv)
        (length base.argv + length (texts commands)) base.argv_templates h.places (omega arith)),
  h.prefix_length,
  (
    h.rest ++ texts commands,
    ap (λ (xs : List (List ℕ)). xs ++ texts commands) h.prefix_kept
        ∙ append_assoc (texts i.executable) h.rest (texts commands),
  ),
  refl,
  refl,
)

ok_injective : {A : Type 0} (x y : A) → ok x ≡ ok y → x ≡ y
ok_injective x y h = ground (arith, h)

module _ (numerals : Numerals) (t : Texts) (plan_support_paths : SupportPaths)
    (i : DebugInputs) where
  -- Every debug plan runs the configured executable and its fixed arguments, as they are, with nothing
  -- in front, and its literal prefix is just these; every template stands for an argument behind the
  -- prefix and inside the command line, and no two for the same one, since their places rise. The plan
  -- is a live server that waits for both lines of evidence.
  pub build_debug_plan-places :
      (plan : DebugPlan)
      → build_debug_plan numerals t plan_support_paths i ≡ ok plan
      → (ordered plan.literal_prefix (length plan.argv) plan.argv_templates ≡ true)
        × (plan.literal_prefix ≡ length (texts i.executable))
        × ((rest : List (List ℕ)) × (plan.argv ≡ texts i.executable ++ rest))
        × (plan.completion_policy ≡ live_server)
        × (plan.readiness_evidence ≡ init_evidence ∷ startup_evidence ∷ [])
  unfolding build_debug_plan
  build_debug_plan-places plan h =
      let (u, (_, h)) = then-ok (validate_debug_inputs i) _ plan h in
      let (e, (planned, h)) = bind-ok (plan_debug_endpoints t i) _ plan h in
      let (support, (_, h)) = bind-ok (plan_support_paths i.search_paths i.config_files) _ plan h in
      let (rtos, (_, h)) =
        bind-ok
          (if i.thread_info_supported
            then thread_info_enabled i.thread_info_requested i.openocd_version
            else ok false)
          _ plan h in
      let (commands, (_, h)) =
        bind-ok (server_commands numerals i e rtos (readiness_commands i.readiness_suffix).startup)
          _ plan h in
      let (gdb_argv, (_, h)) = bind-ok (client_argv numerals i e) _ plan h in
      subst (Places i) (ok_injective _ plan h) (
        debug_plan_of-Places i e _ rtos commands gdb_argv (
          base_argv-IsPlan i.executable i.serial support.0 support.1
            (pre_config numerals (readiness_commands i.readiness_suffix) e) i.log_output))
