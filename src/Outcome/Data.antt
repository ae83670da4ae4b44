-- ===== src/Outcome/Data.antt =====
-- Diagnostics, child results and outcomes of protocol/outcome.py.
use zephyr_remote_openocd.Shared.{
  String, ◌≡◌, ◌↔◌, Bool, true, false, not, ◌&&◌, ◌||◌, Option, none, some, List, [], ◌∷◌, ◌++◌,
  arith, if◌then◌else◌, is_some, is_none, ℤ, is_zero, int_beq, int_beq_iff, Result, ok, raised,
  value_error,
}

pub data CompletionPolicy : Type 0 where
  live_server process_exit : CompletionPolicy

unfoldable pub is_live_server : CompletionPolicy → Bool
is_live_server live_server = true
is_live_server process_exit = false

pub data Trigger : Type 0 where
  controller_eof signal child_exit startup_failure protocol_failure output_failure helper_failure :
      Trigger

-- `tuple[Diagnostic, ...]` inside a diagnostic is the second type of the block.
mutual
  pub data Diagnostic : Type 0 where
    diagnostic : String → String → Details → Diagnostic

  pub data Details : Type 0 where
    nil : Details
    cons : Diagnostic → Details → Details

pub record ChildResult : Type 0 where
  pub returncode : ℤ
  pub termination_requested : Bool

unfoldable pub natural_failure : ChildResult → Bool
natural_failure r = not r.termination_requested && not (is_zero r.returncode)

bool_beq : Bool → Bool → Bool
bool_beq true b = b
bool_beq false b = not b

-- The generated `__eq__` of the dataclass.
unfoldable pub child_result_beq : ChildResult → ChildResult → Bool
unfolding bool_beq
child_result_beq a b =
    int_beq a.returncode b.returncode && bool_beq a.termination_requested b.termination_requested

pub child_result_beq_iff : (a b : ChildResult) → (child_result_beq a b ≡ true) ↔ (a ≡ b)
unfolding child_result_beq
child_result_beq_iff a b = ground (arith, int_beq_iff a.returncode b.returncode)

pub record Outcome : Type 0 where
  pub trigger : Trigger
  pub primary_failure : Option Diagnostic
  pub diagnostics : List Diagnostic
  pub child_result : Option ChildResult

-- `trigger not in (CONTROLLER_EOF, CHILD_EXIT)`
unfoldable pub needs_failure : Trigger → Bool
needs_failure controller_eof = false
needs_failure child_exit = false
needs_failure _ = true

unfoldable pub is_child_exit : Trigger → Bool
is_child_exit child_exit = true
is_child_exit _ = false

-- `Outcome.__post_init__`
unfoldable pub make_outcome :
    Trigger → Option Diagnostic → List Diagnostic → Option ChildResult → Result Outcome
unfolding needs_failure is_child_exit
make_outcome trigger failure diagnostics result =
    if needs_failure trigger && is_none failure
    then raised (value_error "failure triggers require a primary failure")
    else if is_child_exit trigger && is_none result
    then raised (value_error "child-exit termination requires an observed child result")
    else ok (record {
      trigger = trigger;
      primary_failure = failure;
      diagnostics = diagnostics;
      child_result = result;
    })

abbrev pub failed_naturally : Option ChildResult → Bool
failed_naturally none = false
failed_naturally (some r) = natural_failure r

unfoldable pub child_failure_is_primary : Outcome → Bool
child_failure_is_primary o = is_none o.primary_failure && failed_naturally o.child_result

unfoldable pub with_failure : Outcome → Diagnostic → Result Outcome
unfolding make_outcome child_failure_is_primary natural_failure
with_failure o failure =
    if is_none o.primary_failure && not (child_failure_is_primary o)
    then make_outcome o.trigger (some failure) o.diagnostics o.child_result
    else make_outcome o.trigger o.primary_failure (o.diagnostics ++ (failure ∷ [])) o.child_result

abbrev pub conflicts : Option ChildResult → ChildResult → Bool
conflicts none r = false
conflicts (some r') r = not (child_result_beq r' r)

unfoldable pub with_child_result : Outcome → ChildResult → Result Outcome
unfolding make_outcome child_result_beq
with_child_result o result =
    if conflicts o.child_result result
    then raised (value_error "an observed child result cannot be replaced")
    else make_outcome o.trigger o.primary_failure o.diagnostics (some result)

-- What a completion policy makes of the child's result.
unfoldable pub child_failed : CompletionPolicy → Option ChildResult → Bool
child_failed process_exit none = true
child_failed process_exit (some r) = r.termination_requested || not (is_zero r.returncode)
child_failed live_server none = false
child_failed live_server (some r) = not r.termination_requested && not (is_zero r.returncode)

-- `Outcome.operation_failed`
unfoldable pub outcome_failed : Outcome → CompletionPolicy → Bool
unfolding child_failed
outcome_failed o policy =
    if is_some o.primary_failure then true else child_failed policy o.child_result
