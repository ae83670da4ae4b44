-- ===== src/Helper/Reports.antt =====
-- The residual resources of a session and the cleanup report that they make.
use zephyr_remote_openocd.Shared.{
  ◌≡◌, Bool, true, false, not, ◌&&◌, Option, none, some, List, [], ◌∷◌, ◌++◌, arith, if◌then◌else◌,
  ok,
}
use zephyr_remote_openocd.Outcome.{
  ResidualResource, workspace, workspace_metadata, ChildDisposal, WorkspaceDisposal, CleanupReport,
  make_cleanup,
}
use zephyr_remote_openocd.Helper.{ChildAcquisition, ChildSettlement, settlement_confirmed}
use zephyr_remote_openocd.Helper.Release.{
  child_disposed, child_residuals, child_status, workspace_status,
}

-- The settlement was made when no producer was left.
abbrev pub Quiescent : Option ChildSettlement → Type 0
Quiescent none = Unit
Quiescent (some c) = c.producer_quiescent ≡ true

-- The resources of the child are gone.
abbrev pub gone : Option ChildAcquisition → Option ChildSettlement → Bool → Bool
gone owner settlement leased = child_disposed owner settlement && not leased

-- The residuals of the child and then those of the workspace.
abbrev pub all_residuals : List ResidualResource → Bool → Bool → List ResidualResource
all_residuals residuals absent left =
    residuals
    ++ ((if absent then [] else workspace ∷ []) ++ (if left then workspace_metadata ∷ [] else []))

abbrev pub expected :
    Option ChildAcquisition → Option ChildSettlement → Bool → Bool → Bool → Bool → CleanupReport
expected owner settlement leased acquired absent left = record {
  child_disposal =
      if gone owner settlement leased
      then (if acquired then ChildDisposal.confirmed else ChildDisposal.not_acquired)
      else ChildDisposal.unconfirmed;
  workspace_disposal =
      if absent && not left then WorkspaceDisposal.confirmed else WorkspaceDisposal.unconfirmed;
  residual_resources = all_residuals (child_residuals owner settlement leased) absent left;
}

pub make_cleanup-expected :
    (owner : Option ChildAcquisition) (settlement : Option ChildSettlement)
    (leased acquired absent left : Bool)
    → Quiescent settlement
    → (gone owner settlement leased ≡ false → absent ≡ false)
    → make_cleanup
        (child_status (child_residuals owner settlement leased) acquired)
        (workspace_status (all_residuals (child_residuals owner settlement leased) absent left))
        (all_residuals (child_residuals owner settlement leased) absent left)
      ≡ ok (expected owner settlement leased acquired absent left)
unfolding make_cleanup child_residuals child_disposed settlement_confirmed
make_cleanup-expected none settlement leased acquired absent left q h = ground arith
make_cleanup-expected (some o) none leased acquired absent left q h = ground arith
make_cleanup-expected (some o) (some c) leased acquired absent left q h = ground arith
