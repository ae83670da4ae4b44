-- ===== src/Openocd/Flash/Plans.antt =====
-- What holds of every flash plan.
use zephyr_remote_openocd.Shared.{
  ℕ, suc, ◌+◌, ◌≤◌, ◌≡◌, refl, ap, sym, ◌∙◌, true, List, [], ◌∷◌, ◌++◌, arith, length, string_eq,
  ok, Result-cases, inl, inr, append_assoc, length-append,
}
use zephyr_remote_openocd.Shared.Chain.{traverse, bind-ok, then-ok}
use zephyr_remote_openocd.Outcome.{process_exit}
use zephyr_remote_openocd.Arguments.{ArgumentTemplate, address, literal, session, plain}
use zephyr_remote_openocd.Openocd.{
  OpenOcdBasePlan, argument_template, command_template, base_argv, texts,
}
use zephyr_remote_openocd.Openocd.Templates.{ordered, ordered-append, IsPlan, base_argv-IsPlan}
use zephyr_remote_openocd.Openocd.Flash.{
  FlashInputs, Argument, text, path, operation_commands, common_flash_commands, as_text, flash_argv,
  shown_argument, path_templates_from,
}
use zephyr_remote_openocd.Openocd.Flash.Build.{
  FlashPlan, Planner, validate_flash_inputs, plan_image, build_flash_plan,
}

suc_right : (n m : ℕ) → n + suc m ≡ (n + 1) + m
suc_right n m = omega arith

ordered-lower :
    (low higher high : ℕ) (ts : List (ℕ × ArgumentTemplate))
    → low ≤ higher
    → ordered higher high ts ≡ true
    → ordered low high ts ≡ true
ordered-lower low higher high [] le h = ground arith
ordered-lower low higher high ((i, t) ∷ ts) le h = ground arith

path_templates_from-ordered :
    (n : ℕ) (args : List Argument) (ts : List (ℕ × ArgumentTemplate))
    → path_templates_from n args ≡ ok ts
    → ordered n (n + length args) ts ≡ true
unfolding path_templates_from
path_templates_from-ordered n [] ts h = ground arith
path_templates_from-ordered n (text s ∷ args) ts h =
    let later = path_templates_from-ordered (n + 1) args ts h in
    ordered-lower n (n + 1) (n + suc (length args)) ts (omega arith)
      (rw (suc_right n (length args)) later)
path_templates_from-ordered n (path a ∷ args) ts h = elim (Result-cases (argument_template a)) [
  | inr (e, bad) ↦ ground (arith, bad)
  | inl (t, made) ↦ elim (Result-cases (path_templates_from (n + 1) args)) [
    | inr (e, bad) ↦ ground (arith, made, bad)
    | inl (us, rest) ↦ ground (
      arith,
      made,
      rest,
      suc_right n (length args),
      path_templates_from-ordered (n + 1) args us rest,
    )
  ]
]

path_templates_from-as_text :
    (n : ℕ) (argv : List (List ℕ)) (args : List Argument)
    → path_templates_from n (as_text argv ++ args) ≡ path_templates_from (n + length argv) args
unfolding path_templates_from
path_templates_from-as_text n [] args = ap (λ (m : ℕ). path_templates_from m args) (omega arith)
path_templates_from-as_text n (a ∷ argv) args =
    path_templates_from-as_text (n + 1) argv args
    ∙ ap (λ (m : ℕ). path_templates_from m args) (omega arith)

traverse-length :
    (args : List Argument) (argv : List (List ℕ))
    → traverse args shown_argument ≡ ok argv
    → length argv ≡ length args
traverse-length [] argv h = ground arith
traverse-length (a ∷ args) argv h = elim (Result-cases (shown_argument a)) [
  | inr (e, bad) ↦ ground (arith, bad)
  | inl (x, made) ↦ elim (Result-cases (traverse args shown_argument)) [
    | inr (e, bad) ↦ ground (arith, made, bad)
    | inl (xs, rest) ↦ ground (arith, made, rest, traverse-length args xs rest)
  ]
]

traverse-as_text :
    (front : List (List ℕ)) (args : List Argument) (argv : List (List ℕ))
    → traverse (as_text front ++ args) shown_argument ≡ ok argv
    → (back : List (List ℕ)) × (traverse args shown_argument ≡ ok back) × (argv ≡ front ++ back)
unfolding shown_argument
traverse-as_text [] args argv h = (argv, h, refl)
traverse-as_text (a ∷ front) args argv h =
    elim (Result-cases (traverse (as_text front ++ args) shown_argument)) [
      | inr (e, bad) ↦ absurd (ground (arith, bad))
      | inl (tail, made) ↦
          let (back, shown, joined) = traverse-as_text front args tail made in
          (back, shown, ground (arith, made, joined))
    ]

-- The arguments `args` behind the base plan `b`, whose command line starts with `executable`.
assembled :
    (executable : List (List ℕ)) (b : OpenOcdBasePlan) (args : List Argument) (argv : List (List ℕ))
    (ts : List (ℕ × ArgumentTemplate))
    → IsPlan executable b
    → traverse (as_text b.argv ++ args) shown_argument ≡ ok argv
    → path_templates_from 0 (as_text b.argv ++ args) ≡ ok ts
    → (ordered b.literal_prefix (length argv) (b.argv_templates ++ ts) ≡ true)
      × ((rest : List (List ℕ)) × (argv ≡ executable ++ rest))
assembled executable b args argv ts plan shown made =
    let (back, shown_back, joined) = traverse-as_text b.argv args argv shown in
    let later = path_templates_from-ordered (length b.argv) args ts (
      ap (λ (n : ℕ). path_templates_from n args) (omega arith)
      ∙ sym (path_templates_from-as_text 0 b.argv args)
      ∙ made) in
    let total : length argv ≡ length b.argv + length args =
      ap length joined
      ∙ length-append b.argv back
      ∙ ap (λ (n : ℕ). length b.argv + n) (traverse-length args back shown_back) in
    (
      rw total (
          ordered-append b.literal_prefix (length b.argv) (length b.argv + length args)
            b.argv_templates ts plan.places later),
      (
        plan.rest ++ back,
        joined
            ∙ ap (λ (xs : List (List ℕ)). xs ++ back) plan.prefix_kept
            ∙ append_assoc executable plan.rest back,
      ),
    )

module _ (planner : Planner) where
  abbrev bindto : ArgumentTemplate
  bindto = record { parts = plain (literal "bindto ") ∷ plain (session address) ∷ [] }

  -- What `build_flash_plan` makes its plan of.
  record Assembled (i : FlashInputs) (plan : FlashPlan) : Type 0 where
    pub base : OpenOcdBasePlan
    pub args : List Argument
    pub is_plan : IsPlan (texts i.executable) base
    pub templates : List (ℕ × ArgumentTemplate)
    pub shown : traverse (as_text base.argv ++ args) shown_argument ≡ ok plan.argv
    pub made : path_templates_from 0 (as_text base.argv ++ args) ≡ ok templates
    pub prefix_length : plan.literal_prefix ≡ base.literal_prefix
    pub all_templates : plan.argv_templates ≡ base.argv_templates ++ templates
    pub policy : plan.completion_policy ≡ process_exit

  build_flash_plan-Assembled :
      (i : FlashInputs) (plan : FlashPlan) → build_flash_plan planner i ≡ ok plan → Assembled i plan
  unfolding build_flash_plan flash_argv
  build_flash_plan-Assembled i plan h =
      let (_, (valid, h)) = then-ok (validate_flash_inputs planner i) _ plan h in
      let (support, (planned, h)) =
        bind-ok (planner.plan_support_paths i.search_paths i.config_files) _ plan h in
      let (image, (found, h)) = bind-ok (plan_image planner i) _ plan h in
      let base =
        base_argv i.executable i.serial support.0 support.1 (command_template bindto ∷ [])
          i.log_output in
      let args = common_flash_commands i ++ operation_commands i image in
      let (argv, (shown, h)) =
        bind-ok (traverse (as_text base.argv ++ args) shown_argument) _ plan h in
      let (ts, (made, h)) = bind-ok (path_templates_from 0 (as_text base.argv ++ args)) _ plan h in
      let whole : record {
        argv = argv;
        literal_prefix = base.literal_prefix;
        argv_templates = base.argv_templates ++ ts;
        completion_policy = process_exit;
        image = image.remote;
      }
          ≡ plan =
        ground (arith, h) in
      record {
        base = base;
        args = args;
        is_plan =
            base_argv-IsPlan i.executable i.serial support.0 support.1
              (command_template bindto ∷ []) i.log_output;
        templates = ts;
        shown = shown ∙ ap (λ (p : FlashPlan). ok p.argv) whole;
        made = made;
        prefix_length = ap (λ (p : FlashPlan). p.literal_prefix) (sym whole);
        all_templates = ap (λ (p : FlashPlan). p.argv_templates) (sym whole);
        policy = ap (λ (p : FlashPlan). p.completion_policy) (sym whole);
      }

  -- Every flash plan runs the configured executable and its fixed arguments, as they are, with nothing
  -- in front, and its literal prefix is just these; every template stands for an argument behind the
  -- prefix and inside the command line, and no two for the same one, since their places rise.
  pub build_flash_plan-places :
      (i : FlashInputs) (plan : FlashPlan)
      → build_flash_plan planner i ≡ ok plan
      → (ordered plan.literal_prefix (length plan.argv) plan.argv_templates ≡ true)
        × (plan.literal_prefix ≡ length (texts i.executable))
        × ((rest : List (List ℕ)) × (plan.argv ≡ texts i.executable ++ rest))
        × (plan.completion_policy ≡ process_exit)
  build_flash_plan-places i plan h =
      let a = build_flash_plan-Assembled i plan h in
      let (places, (rest, kept)) =
        assembled (texts i.executable) a.base a.args plan.argv a.templates a.is_plan a.shown
          a.made in
      (
        rw (a.prefix_length, a.all_templates) places,
        a.prefix_length ∙ a.is_plan.prefix_length,
        (rest, kept),
        a.policy,
      )
