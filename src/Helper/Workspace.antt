-- ===== src/Helper/Workspace.antt =====
-- `remove_workspace`, `close_staging_admission` and `path_absent` of helper/_workspace.py over the file
-- system, which is a parameter. The clock counts nanoseconds.
pub mod Disposal
use zephyr_remote_openocd.Shared.{
  ℕ, zero, suc, ◌+◌, ◌≤◌, ◌≡◌, refl, Bool, true, false, Option, none, some, Error, Result, ok,
  raised, os_error, Exec, pure, raise, ◌>>=◌, ◌>>◌, leb, arith, if◌then◌else◌,
}
use zephyr_remote_openocd.Helper.{Place, work, lease, closure, System}

-- `fcntl.flock(lease, LOCK_EX | LOCK_NB)`: a BlockingIOError is `busy`.
pub data Flock : Type 0 where
  held busy : Flock
  failed : Error → Flock

-- `lstat` and `shutil.rmtree`: a FileNotFoundError is `missing`, and `failed` any other exception.
pub data Lookup : Type 0 where
  found missing : Lookup
  failed : Error → Lookup

-- The calls of the system in helper/_workspace.py: the opening of the closure file for appending with
-- its close, that of the lease file, `flock` of it, the clock, `sleep`, `rmtree` of the workspace, and
-- `unlink` and `lstat` of a path.
pub record Files (S : Type 0) : Type 0 where
  pub open_closure : S → Result (Unit {0}) × S
  pub open_lease : S → Result (Unit {0}) × S
  pub close_lease : S → Result (Unit {0}) × S
  pub flock : S → Flock × S
  pub monotonic : S → ℕ
  pub sleep : ℕ → S → Result (Unit {0}) × S
  pub rmtree : S → Lookup × S
  pub unlink : Place → S → Result (Unit {0}) × S
  pub lstat : Place → S → Lookup × S

abbrev pub workspace_lease_timeout : ℕ
workspace_lease_timeout = 5000000000

abbrev pub workspace_lease_poll_interval : ℕ
workspace_lease_poll_interval = 50000000

-- `raise_cleanup_errors` of two calls, which adds the second error to the first as a note
abbrev pub raise_cleanup_errors : Result (Unit {0}) → Result (Unit {0}) → Result (Unit {0})
raise_cleanup_errors (ok u) second = second
raise_cleanup_errors (raised e) second = raised e

-- The end of a `with` block that closes a file: an error of the close takes the place of the result.
after_close : {S : Type 0} → Result (Unit {0}) → Result (Unit {0}) × S → Result (Unit {0}) × S
after_close body (ok u, s) = (body, s)
after_close body (raised e, s) = (raised e, s)

module _ {S : Type 0} (files : Files S) where
  -- `path_absent`
  unfoldable pub path_absent : Place → Exec S Bool
  path_absent place s = elim (files.lstat place s).0 [
    | found ↦ (ok false, (files.lstat place s).1)
    | missing ↦ (ok true, (files.lstat place s).1)
    | failed e ↦ (raised e, (files.lstat place s).1)
  ]

  -- `close_staging_admission`
  unfoldable pub close_staging_admission : Exec S (Unit {0})
  close_staging_admission = files.open_closure

  -- A round of the loop of `remove_workspace` on the lease; `rest` is the rounds after it.
  unfoldable pub lease_round : ℕ → S → Result (Unit {0}) × S → Result (Unit {0}) × S
  lease_round deadline s rest =
      let (r, t) = files.flock s in
      let (slept, u) = files.sleep workspace_lease_poll_interval t in
      elim r [
        | held ↦ (ok tt, t)
        | failed e ↦ (raised e, t)
        | busy ↦
            if leb deadline (files.monotonic t)
            then (raised (os_error "staging did not release its workspace lease"), t)
            else elim slept [ ok v ↦ rest | raised e ↦ (raised e, u) ]
      ]

  abbrev pub after_round : S → S
  after_round s = (files.sleep workspace_lease_poll_interval (files.flock s).1).1

  -- The loop, with `fuel` rounds
  unfoldable pub acquire_lease : ℕ → ℕ → Exec S (Unit {0})
  acquire_lease zero deadline s =
      (raised (os_error "staging did not release its workspace lease"), s)
  acquire_lease (suc fuel) deadline s =
      lease_round deadline s (acquire_lease fuel deadline (after_round s))

  -- `shutil.rmtree` of the workspace, which may be gone already
  unfoldable pub remove_tree : Exec S (Unit {0})
  unfolding path_absent
  remove_tree s =
      let (r, t) = files.rmtree s in
      elim r [
        | found ↦ (ok tt, t)
        | failed e ↦ (raised e, t)
        | missing ↦
            (do
              gone ← path_absent work
              if gone then pure tt else raise (os_error "No such file or directory"))
              t
      ]

  -- The loop that removes the closure and the lease
  unfoldable pub remove_metadata : Exec S (Unit {0})
  remove_metadata s =
      let (first, t) = files.unlink closure s in
      let (second, u) = files.unlink lease t in (raise_cleanup_errors first second, u)

  unfoldable pub remove_paths : Exec S (Unit {0})
  unfolding remove_tree remove_metadata
  remove_paths = do remove_tree; remove_metadata

  -- What is done with the lease file open; 101 rounds reach the deadline.
  unfoldable pub remove_locked : Exec S (Unit {0})
  unfolding acquire_lease remove_paths
  remove_locked s =
      (do acquire_lease 101 (files.monotonic s + workspace_lease_timeout); remove_paths) s

  unfoldable pub closing_lease : Exec S (Unit {0})
  unfolding remove_locked after_close
  closing_lease s = let (r, t) = remove_locked s in after_close r (files.close_lease t)

  -- `remove_workspace`
  unfoldable pub remove_workspace : Exec S (Unit {0})
  unfolding close_staging_admission closing_lease
  remove_workspace = do close_staging_admission; files.open_lease; closing_lease

  -- A system whose calls of helper/_workspace.py are these functions.
  abbrev pub on_files : System S → System S
  on_files base = record base {
    close_admission = close_staging_admission;
    remove_workspace = remove_workspace;
    is_absent = path_absent;
  }
