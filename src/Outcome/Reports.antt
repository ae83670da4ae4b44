-- ===== src/Outcome/Reports.antt =====
-- Cleanup reports, log reports and terminal snapshots of protocol/outcome.py.
use zephyr_remote_openocd.Shared.{
  ℕ, ◌≡◌, ◌↔◌, Bool, true, false, not, ◌&&◌, ◌||◌, Option, none, some, List, [], ◌∷◌, arith, Eq,
  nat_beq, if◌then◌else◌, is_some, is_none, any, unique, ℤ, Result, ok, raised, value_error,
}
use zephyr_remote_openocd.Outcome.Data.{CompletionPolicy, Diagnostic, Outcome, outcome_failed}

pub data ResidualResource : Type 0 where
  child_producer child_group child_relays address_lease workspace workspace_metadata :
      ResidualResource

abbrev pub residual_index : ResidualResource → ℕ
residual_index child_producer = 0
residual_index child_group = 1
residual_index child_relays = 2
residual_index address_lease = 3
residual_index workspace = 4
residual_index workspace_metadata = 5

pub residual_beq_iff :
    (a b : ResidualResource) → ((nat_beq (residual_index a) (residual_index b)) ≡ true) ↔ (a ≡ b)
residual_beq_iff a b = ground arith

instance abbrev pub residual_eq : Eq ResidualResource
residual_eq = record {
  beq = λ a b. nat_beq (residual_index a) (residual_index b);
  beq_iff = residual_beq_iff;
}

pub data ChildDisposal : Type 0 where
  not_acquired confirmed unconfirmed : ChildDisposal

pub data WorkspaceDisposal : Type 0 where
  not_created confirmed unconfirmed : WorkspaceDisposal

abbrev pub child_unconfirmed : ChildDisposal → Bool
child_unconfirmed ChildDisposal.not_acquired = false
child_unconfirmed ChildDisposal.confirmed = false
child_unconfirmed ChildDisposal.unconfirmed = true

abbrev pub never_acquired : ChildDisposal → Bool
never_acquired ChildDisposal.not_acquired = true
never_acquired ChildDisposal.confirmed = false
never_acquired ChildDisposal.unconfirmed = false

abbrev pub workspace_unconfirmed : WorkspaceDisposal → Bool
workspace_unconfirmed WorkspaceDisposal.not_created = false
workspace_unconfirmed WorkspaceDisposal.confirmed = false
workspace_unconfirmed WorkspaceDisposal.unconfirmed = true

pub record CleanupReport : Type 0 where
  pub child_disposal : ChildDisposal
  pub workspace_disposal : WorkspaceDisposal
  pub residual_resources : List ResidualResource

abbrev pub is_workspace_residual : ResidualResource → Bool
is_workspace_residual workspace = true
is_workspace_residual workspace_metadata = true
is_workspace_residual child_producer = false
is_workspace_residual child_group = false
is_workspace_residual child_relays = false
is_workspace_residual address_lease = false

abbrev differ : Bool → Bool → Bool
differ true b = not b
differ false b = b

-- `CleanupReport.__post_init__`
unfoldable pub make_cleanup :
    ChildDisposal → WorkspaceDisposal → List ResidualResource → Result CleanupReport
make_cleanup child inputs residuals =
    if not (unique residuals)
    then raised (value_error "residual obligations must be unique")
    else if differ (child_unconfirmed child) (any residuals (λ r. not (is_workspace_residual r)))
    then raised (value_error "child disposal and residual obligations disagree")
    else if differ (workspace_unconfirmed inputs) (any residuals is_workspace_residual)
    then raised (value_error "workspace disposal and residual obligations disagree")
    else if child_unconfirmed child && not (workspace_unconfirmed inputs)
    then raised (value_error "unconfirmed child disposal must retain dependent inputs")
    else ok (record {
      child_disposal = child;
      workspace_disposal = inputs;
      residual_resources = residuals;
    })

unfoldable pub cleanup_confirmed : CleanupReport → Bool
cleanup_confirmed c =
    not (child_unconfirmed c.child_disposal) && not (workspace_unconfirmed c.workspace_disposal)

-- `byte_count` is a number that `LogReport.__post_init__` has found not negative.
pub record LogReport : Type 0 where
  pub byte_count : ℕ
  pub complete : Bool
  pub diagnostic : Option Diagnostic

-- `LogReport.__post_init__`
unfoldable pub make_log_report : ℤ → Bool → Option Diagnostic → Result LogReport
make_log_report (ℤ.negsuc n) complete detail =
    raised (value_error "log byte count must not be negative")
make_log_report (ℤ.pos n) complete detail =
    if differ (is_none detail) complete
    then raised (value_error "an incomplete log, and only an incomplete log, has a diagnostic")
    else ok (record { byte_count = n; complete = complete; diagnostic = detail })

pub record TerminalSnapshot : Type 0 where
  pub outcome : Outcome
  pub cleanup : CleanupReport
  pub log : Option LogReport

abbrev pub log_complete : Option LogReport → Bool
log_complete none = false
log_complete (some r) = r.complete

abbrev is_empty {ℓ} : {A : Type ℓ} → List A → Bool
is_empty [] = true
is_empty (x ∷ xs) = false

-- `TerminalSnapshot.__post_init__`
unfoldable pub make_snapshot : Outcome → CleanupReport → Option LogReport → Result TerminalSnapshot
unfolding cleanup_confirmed
make_snapshot outcome cleanup log =
    if never_acquired cleanup.child_disposal && is_some outcome.child_result
    then raised (value_error "child observation is incompatible with no child acquisition")
    else if log_complete log && child_unconfirmed cleanup.child_disposal
    then raised (value_error "a complete log requires confirmed or no child acquisition")
    else if not (cleanup_confirmed cleanup)
        && (is_none outcome.primary_failure && is_empty outcome.diagnostics)
    then raised (value_error "unconfirmed disposal requires a failure diagnostic")
    else ok (record { outcome = outcome; cleanup = cleanup; log = log })

-- `TerminalSnapshot.operation_failed`
unfoldable pub snapshot_failed : TerminalSnapshot → CompletionPolicy → Bool
unfolding cleanup_confirmed outcome_failed
snapshot_failed s policy = not (cleanup_confirmed s.cleanup) || outcome_failed s.outcome policy
