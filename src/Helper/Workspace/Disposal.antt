-- ===== src/Helper/Workspace/Disposal.antt =====
-- What `remove_workspace` and `path_absent` of helper/_workspace.py leave, from what is documented of
-- the file system.
use zephyr_remote_openocd.Shared.{
  ℕ, zero, suc, ◌+◌, ◌*◌, ◌≤◌, ◌≡◌, Bool, true, false, not, Result, ok, raised, leb, arith,
  continue,
}
use zephyr_remote_openocd.Helper.{Place, work, lease, closure, System}
use zephyr_remote_openocd.Helper.Laws.{Laws}
use zephyr_remote_openocd.Helper.Workspace.{
  Files, found, missing, path_absent, close_staging_admission, acquire_lease, remove_tree,
  remove_metadata, remove_paths, lease_round, after_round, remove_locked, closing_lease,
  remove_workspace, on_files, after_close, workspace_lease_timeout, workspace_lease_poll_interval,
}

-- The file system: `rmtree` and `unlink(missing_ok=True)` that return have removed their path, `unlink`
-- and the close of a file create none, `lstat` finds what is there, and the other calls leave the
-- workspace where it is.
pub record Documented {S : Type 0} (files : Files S) (base : System S) : Type 0 where
  pub there : Place → S → Bool
  pub rmtree-found : (s : S) → (files.rmtree s).0 ≡ found → there work (files.rmtree s).1 ≡ false
  pub unlink-ok :
      (p : Place) (s : S) → (files.unlink p s).0 ≡ ok tt → there p (files.unlink p s).1 ≡ false
  pub unlink-creates :
      (p q : Place) (s : S) → there q s ≡ false → there q (files.unlink p s).1 ≡ false
  pub close-keeps : (p : Place) (s : S) → there p (files.close_lease s).1 ≡ there p s
  pub open_closure-keeps : (s : S) → there work (files.open_closure s).1 ≡ there work s
  pub lstat-found : (p : Place) (s : S) → (files.lstat p s).0 ≡ found → there p s ≡ true
  pub lstat-missing : (p : Place) (s : S) → (files.lstat p s).0 ≡ missing → there p s ≡ false
  pub lstat-keeps : (p q : Place) (s : S) → there p (files.lstat q s).1 ≡ there p s
  pub lstat-lock : (q : Place) (s : S) → base.lock_closed (files.lstat q s).1 ≡ base.lock_closed s
  pub address-keeps : (s : S) → there work (base.close_lease s).1 ≡ there work s
  pub readiness-keeps : (s : S) → there work (base.close_readiness s).1 ≡ there work s
  pub log-keeps : (s : S) → there work (base.close_log s).1 ≡ there work s
  pub lock-keeps : (p : Place) (s : S) → there p (base.close_lock s).1 ≡ there p s
  pub lock-ok :
      (s : S) → (base.close_lock s).0 ≡ ok tt → base.lock_closed (base.close_lock s).1 ≡ true

module _ {S : Type 0} (files : Files S) (base : System S) (d : Documented files base) where
  pub path_absent-ok :
      (p : Place) (absent : Bool) (s : S)
      → (path_absent files p s).0 ≡ ok absent
      → d.there p s ≡ not absent
  unfolding path_absent
  path_absent-ok p absent s h = ground (arith, d.lstat-found p s, d.lstat-missing p s)

  pub path_absent-keeps : (p q : Place) (s : S) → d.there p (path_absent files q s).1 ≡ d.there p s
  unfolding path_absent
  path_absent-keeps p q s = ground (arith, d.lstat-keeps p q s)

  pub path_absent-lock :
      (q : Place) (s : S) → base.lock_closed (path_absent files q s).1 ≡ base.lock_closed s
  unfolding path_absent
  path_absent-lock q s = ground (arith, d.lstat-lock q s)

  remove_tree-ok :
      (s : S) → (remove_tree files s).0 ≡ ok tt → d.there work (remove_tree files s).1 ≡ false
  unfolding remove_tree
  remove_tree-ok s h =
      let t = (files.rmtree s).1 in
      ground (arith, d.rmtree-found s, path_absent-ok work true t, path_absent-keeps work work t)

  remove_metadata-ok :
      (p : Place) (s : S)
      → d.there work s ≡ false
      → (remove_metadata files s).0 ≡ ok tt
      → d.there p (remove_metadata files s).1 ≡ false
  unfolding remove_metadata
  remove_metadata-ok work s gone h =
      let t = (files.unlink closure s).1 in
      d.unlink-creates lease work t (d.unlink-creates closure work s gone)
  remove_metadata-ok closure s gone h =
      let t = (files.unlink closure s).1 in
      d.unlink-creates lease closure t (d.unlink-ok closure s (ground arith))
  remove_metadata-ok lease s gone h =
      let t = (files.unlink closure s).1 in d.unlink-ok lease t (ground arith)

  remove_paths-ok :
      (p : Place) (s : S)
      → (remove_paths files s).0 ≡ ok tt
      → d.there p (remove_paths files s).1 ≡ false
  unfolding remove_paths
  remove_paths-ok p s h =
      ground (arith, remove_tree-ok s, remove_metadata-ok p (remove_tree files s).1)

  continue-ok :
      (p : Place) (r : Result (Unit {0})) (t : S)
      → (continue r t (λ _. remove_paths files)).0 ≡ ok tt
      → d.there p (continue r t (λ _. remove_paths files)).1 ≡ false
  continue-ok p (ok u) t h = remove_paths-ok p t h
  continue-ok p (raised e) t h = absurd (ground arith)

  remove_locked-ok :
      (p : Place) (s : S)
      → (remove_locked files s).0 ≡ ok tt
      → d.there p (remove_locked files s).1 ≡ false
  unfolding remove_locked
  remove_locked-ok p s h =
      let given = acquire_lease files 101 (files.monotonic s + workspace_lease_timeout) s in
      continue-ok p given.0 given.1 h

  closing_lease-ok :
      (p : Place) (s : S)
      → (closing_lease files s).0 ≡ ok tt
      → d.there p (closing_lease files s).1 ≡ false
  unfolding closing_lease after_close
  closing_lease-ok p s h =
      let t = (remove_locked files s).1 in ground (arith, remove_locked-ok p s, d.close-keeps p t)

  pub remove_workspace-ok :
      (p : Place) (s : S)
      → (remove_workspace files s).0 ≡ ok tt
      → d.there p (remove_workspace files s).1 ≡ false
  unfolding remove_workspace
  remove_workspace-ok p s h =
      let t = (close_staging_admission files s).1 in
      ground (arith, closing_lease-ok p (files.open_lease t).1)

  pub admission-keeps : (s : S) → d.there work (close_staging_admission files s).1 ≡ d.there work s
  unfolding close_staging_admission
  admission-keeps s = d.open_closure-keeps s

  -- The functions of helper/_workspace.py do what the end of a session relies on.
  abbrev pub workspace_laws : Laws (on_files files base)
  workspace_laws = record {
    there = d.there;
    close_lease-keeps = d.address-keeps;
    close_readiness-keeps = d.readiness-keeps;
    close_log-keeps = d.log-keeps;
    close_admission-keeps = admission-keeps;
    remove_workspace-ok = remove_workspace-ok;
    close_lock-keeps = d.lock-keeps;
    close_lock-ok = d.lock-ok;
    is_absent-ok = path_absent-ok;
    is_absent-keeps = path_absent-keeps;
    is_absent-lock = path_absent-lock;
  }

-- The wait for the lease, on a clock that never goes back and a `sleep` that lasts as long as asked.
module _ {S : Type 0} (files : Files S)
    (flock-clock : (s : S) → files.monotonic s ≤ files.monotonic (files.flock s).1)
    (sleep-clock : (n : ℕ) (s : S)
      → (files.sleep n s).0 ≡ ok tt
      → files.monotonic s + n ≤ files.monotonic (files.sleep n s).1) where
  lease_round-same :
      (deadline : ℕ) (s : S) (first second : Result (Unit {0}) × S)
      → (files.monotonic s + workspace_lease_poll_interval ≤ files.monotonic (after_round files s)
          → leb deadline (files.monotonic (files.flock s).1) ≡ false
          → first ≡ second)
      → lease_round files deadline s first ≡ lease_round files deadline s second
  unfolding lease_round
  lease_round-same deadline s first second h =
      ground (arith, h, flock-clock s, sleep-clock workspace_lease_poll_interval (files.flock s).1)

  acquire_lease-enough :
      (fuel long deadline : ℕ) (s : S)
      → fuel ≤ long
      → deadline ≤ files.monotonic s + fuel * workspace_lease_poll_interval
      → acquire_lease files (suc long) deadline s ≡ acquire_lease files (suc fuel) deadline s
  unfolding acquire_lease
  acquire_lease-enough zero long deadline s l h =
      lease_round-same deadline s _ _ (λ x y. absurd (ground (arith, flock-clock s)))
  acquire_lease-enough (suc fuel) zero deadline s l h = absurd (omega arith)
  acquire_lease-enough (suc fuel) (suc long) deadline s l h =
      lease_round-same deadline s _ _ (λ x y.
        acquire_lease-enough fuel long deadline (after_round files s) (omega arith) (omega arith))

  -- Where the clock never goes back and a `sleep` that returns has lasted as long as it was asked to,
  -- the wait of `remove_workspace` for the lease ends within the 101 rounds of the model, as it is held,
  -- a call raises or the deadline is met: a wait with more rounds to go is the same.
  pub acquire_lease-ends :
      (long : ℕ) (s : S)
      → 100 ≤ long
      → acquire_lease files (suc long) (files.monotonic s + workspace_lease_timeout) s
        ≡ acquire_lease files 101 (files.monotonic s + workspace_lease_timeout) s
  acquire_lease-ends long s l =
      acquire_lease-enough 100 long (files.monotonic s + workspace_lease_timeout) s l (omega arith)
