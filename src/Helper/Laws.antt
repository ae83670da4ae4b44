-- ===== src/Helper/Laws.antt =====
-- What the end of a session relies on in its calls of the system: `there` says which of the
-- workspace's paths exist.
use zephyr_remote_openocd.Shared.{◌≡◌, Bool, true, false, not, ok}
use zephyr_remote_openocd.Helper.{Place, work, System}

-- Only `remove_workspace` removes the workspace; where it returns, it has removed the three paths.
-- The lock file is open until a call that closes it returns, and a look at a path says what is there
-- and changes nothing of it.
pub record Laws {S : Type 0} (sys : System S) : Type 0 where
  pub there : Place → S → Bool
  pub close_lease-keeps : (s : S) → there work (sys.close_lease s).1 ≡ there work s
  pub close_readiness-keeps : (s : S) → there work (sys.close_readiness s).1 ≡ there work s
  pub close_log-keeps : (s : S) → there work (sys.close_log s).1 ≡ there work s
  pub close_admission-keeps : (s : S) → there work (sys.close_admission s).1 ≡ there work s
  pub remove_workspace-ok :
      (place : Place) (s : S)
      → (sys.remove_workspace s).0 ≡ ok tt
      → there place (sys.remove_workspace s).1 ≡ false
  pub close_lock-keeps : (place : Place) (s : S) → there place (sys.close_lock s).1 ≡ there place s
  pub close_lock-ok :
      (s : S) → (sys.close_lock s).0 ≡ ok tt → sys.lock_closed (sys.close_lock s).1 ≡ true
  pub is_absent-ok :
      (place : Place) (absent : Bool) (s : S)
      → (sys.is_absent place s).0 ≡ ok absent
      → there place s ≡ not absent
  pub is_absent-keeps :
      (place looked : Place) (s : S) → there place (sys.is_absent looked s).1 ≡ there place s
  pub is_absent-lock :
      (looked : Place) (s : S) → sys.lock_closed (sys.is_absent looked s).1 ≡ sys.lock_closed s
