-- ===== src/Helper/Snapshot.antt =====
-- The end of a session: what `release_workspace` leaves, and that there is a terminal snapshot.
use zephyr_remote_openocd.Shared.{
  ◌≡◌, ◌⊎◌, refl, Bool, ◌&&◌, Bool-cases, value_error, ◌>>=◌, ◌>>◌, sym, ◌∙◌, true, false, not,
  Option, [], arith, inl, inr, is_some,
}
use zephyr_remote_openocd.Outcome.{
  Outcome, CleanupReport, child_unconfirmed, log_complete, cleanup_confirmed,
}
use zephyr_remote_openocd.Lifecycle.{Attempt, terminating, closed, attempt_result}
use zephyr_remote_openocd.Lifecycle.Invariant.{Agrees}
use zephyr_remote_openocd.Lifecycle.Authority.{is_unsettled}
use zephyr_remote_openocd.Lifecycle.Authority
use zephyr_remote_openocd.Helper.{Place, work, System, HelperSession}
use zephyr_remote_openocd.Helper.Laws.{Laws}
use zephyr_remote_openocd.Helper.Workspace.{Files, on_files}
use zephyr_remote_openocd.Helper.Workspace.Disposal.{Documented, workspace_laws}
use zephyr_remote_openocd.Helper.Reports.{gone, Quiescent}
use zephyr_remote_openocd.Helper.Release.{
  log_requested, dependents_gone, release_workspace, log_report, end_session,
}
use zephyr_remote_openocd.Helper.Accounting.{account-Kept}
use zephyr_remote_openocd.Helper.Terminating.{is_noted, Facts, facts, Ending}
use zephyr_remote_openocd.Helper.Recording.{authority, account_recorded_failures}
use zephyr_remote_openocd.Helper.Released.{Released, release-Released}
use zephyr_remote_openocd.Helper.Cleanup.{Reported, cleanup_report-Reported}
use zephyr_remote_openocd.Helper.Logic.{Returns, Raises, weaker, then-Ends}
use zephyr_remote_openocd.Helper.Freeze.{
  dependents_of, Reporting, reporting, log_report-Returns, freeze-Returns, freeze-Raises,
  log_report-missing, unreportable,
}

-- A session whose coordination is over: it is terminating, its resources are not released, and its
-- records are consistent.
pub record Over {S : Type 0} (sys : System S) (laws : Laws sys) (s : HelperSession S) : Type 0 where
  pub attempt : Option Attempt
  pub outcome : Outcome
  pub phase : s.lifecycle ≡ terminating attempt outcome
  pub agrees : Agrees attempt outcome
  pub unreleased : s.resources_released ≡ false
  pub there : laws.there work s.system ≡ true
  pub quiescent : Quiescent s.settlement
  pub acquired : is_some (attempt_result attempt) ≡ true → s.child_acquired ≡ true
  pub owned : is_unsettled attempt ≡ true → is_some s.acquisition ≡ true

module _ {S : Type 0} (sys : System S) where
  begins :
      (laws : Laws sys) (s : HelperSession S)
      → (o : Over sys laws s) → Ending (facts s) o.attempt s.address_lease false s
  begins laws s o = record {
    outcome = o.outcome;
    phase = o.phase;
    agrees = o.agrees;
    on_record = λ x. absurd (ground arith);
    facts = refl;
    lease = refl;
  }

  release_workspace_lem :
      (laws : Laws sys) (s : HelperSession S)
      → Over sys laws s
      → Returns (release_workspace sys s) (λ _ t.
        (o : Outcome) × (b : Option Attempt) × ((t.lifecycle ≡ terminating b o)
          × ((dependents_gone t ≡ false → laws.there work t.system ≡ true)
              × (is_noted o ≡ false
                  → (dependents_gone t ≡ true)
                    × (((p : Place) → laws.there p t.system ≡ false)
                        × (sys.lock_closed t.system ≡ true))))))
  release_workspace_lem laws s o =
      weaker
        (release-Released sys laws (facts s) o.attempt s.address_lease s o.unreleased
          (begins laws s o, (o.there, λ x. x)))
        (λ _ t r.
          let e = r.0.ending in
          let same = dependents_of sys (facts s) o.attempt t.address_lease false t e in
          (
            e.outcome,
            o.attempt,
            (
              e.phase,
              (
                λ x. r.0.kept (sym same ∙ x),
                λ quiet. elim r.0.clean [
                  | inl h ↦ absurd (ground (arith, quiet, h.phase, e.phase, h.on_record refl))
                  | inr (c, locked) ↦ (same ∙ c.disposed, (c.absent, locked))
                ],
              ),
            ),
          ))

  freeze-Ends :
      (f : Facts) (a b : Option Attempt) (leased noted : Bool) (c : CleanupReport)
      (s : HelperSession S)
      → Reporting sys c f a b leased noted
      → Ending f b leased noted s
      → (let given =
            (do
              account_recorded_failures sys
              log ← log_report sys c
              authority (Authority.freeze c log))
              s in
          Returns given (λ snapshot t.
            ((b : Option Attempt) × (t.lifecycle ≡ closed b snapshot []))
            × ((child_unconfirmed snapshot.cleanup.child_disposal ≡ not (dependents_gone t))
                × ((cleanup_confirmed snapshot.cleanup ≡ false → is_noted snapshot.outcome ≡ true)
                    × (unreportable t ≡ false))))
          ⊎ Raises given
              (value_error "a complete log requires confirmed or no child acquisition")
              (λ t.
                (unreportable t ≡ true)
                × ((b : Option Attempt) × (o : Outcome) × (t.lifecycle ≡ terminating b o))))
  freeze-Ends f a b leased noted c s right h =
      let missing : Bool =
        log_requested f.request && (not f.logged && not (gone f.acquisition f.settlement leased)) in
      then-Ends (λ _ v. Ending f b leased noted v) (account-Kept sys f b leased noted s h)
        (λ _ v m. elim (Bool-cases missing) [
          | inl e ↦
              then-Ends (λ log w. Ending f b leased noted w × (log_complete log ≡ true))
                (log_report-missing sys f b leased noted c v (ground arith) (ground arith) m)
                (λ log w n.
                  let r =
                    freeze-Raises sys f b leased noted c log w n.1 (ground (arith, right.disposed))
                      e n.0 in
                  inr (record { done = r.done; post = (r.post.0, (b, r.post.1.0, r.post.1.1)) }))
          | inr e ↦
              then-Ends
                (λ log w.
                  Ending f b leased noted w
                  × (log_complete log ≡ true → child_unconfirmed c.child_disposal ≡ false))
                (log_report-Returns sys f b leased noted c v (λ x y. ground (arith, right.disposed))
                  m)
                (λ log w n. inl (
                  weaker (freeze-Returns sys f a b leased noted c log w right n.1 n.0)
                    (λ snapshot x z. ((b, z.0), (z.1.0, (z.1.1.0, z.1.1.1 ∙ e))))))
        ])

  end_session_lem :
      (laws : Laws sys) (s : HelperSession S)
      → Over sys laws s
      → Returns (end_session sys s) (λ snapshot t.
        ((b : Option Attempt) × (t.lifecycle ≡ closed b snapshot []))
        × ((child_unconfirmed snapshot.cleanup.child_disposal ≡ not (dependents_gone t))
            × ((cleanup_confirmed snapshot.cleanup ≡ false → is_noted snapshot.outcome ≡ true)
                × (unreportable t ≡ false))))
        ⊎ Raises
            (end_session sys s)
            (value_error "a complete log requires confirmed or no child acquisition")
            (λ t.
              (unreportable t ≡ true)
              × ((b : Option Attempt) × (o : Outcome) × (t.lifecycle ≡ terminating b o)))
  unfolding end_session
  end_session_lem laws s o =
      let f = facts s in
      let a = o.attempt in
      then-Ends (λ _ t. Released sys laws f a false t.address_lease t)
        (weaker
          (release-Released sys laws f a s.address_lease s o.unreleased
            (begins laws s o, (o.there, λ x. x)))
          (λ _ t r. r.0))
        (λ _ t r.
          then-Ends (Reported sys laws f a t.address_lease)
            (cleanup_report-Reported sys laws f a t.address_lease t o.quiescent r)
            (λ c u q.
              let b = q.session.attempt in
              let p =
                reporting sys f a b t.address_lease q.absent q.left q.noted o.acquired o.owned
                  q.session.over q.session.unsettled q.session.result q.clean in
              freeze-Ends f a b t.address_lease q.noted c u (rw q.reported p) q.session.ending))

module _ {S : Type 0} (files : Files S) (base : System S) (d : Documented files base) where
  abbrev system : System S
  system = on_files files base

  -- Where the file system does what is documented of it (`Documented`), and when the coordination of a
  -- session is over (`Over`), `release_workspace` returns. While the child is not
  -- disposed of or the address lease is held, the directory of the workspace is still there; and
  -- unless a failure is on record in the outcome, the child is disposed of, the lease is closed, the
  -- workspace, its lease and its closure are gone and the lock file is closed.
  pub release_workspace-keeps :
      (s : HelperSession S)
      → Over system (workspace_laws files base d) s
      → Returns (release_workspace system s) (λ _ t.
        (o : Outcome) × (b : Option Attempt) × ((t.lifecycle ≡ terminating b o)
          × ((dependents_gone t ≡ false → d.there work t.system ≡ true)
              × (is_noted o ≡ false
                  → (dependents_gone t ≡ true)
                    × (((p : Place) → d.there p t.system ≡ false)
                        × (base.lock_closed t.system ≡ true))))))
  release_workspace-keeps s o = release_workspace_lem system (workspace_laws files base d) s o

  -- Where the file system does what is documented of it, and when the coordination of a session is over
  -- (`Over`), its end yields a terminal snapshot and closes the
  -- lifecycle with it, whichever of the calls to the system raise, with one exception. The snapshot
  -- reports the disposal of the child as unconfirmed exactly where the child is not disposed of or the
  -- address lease is still held, and an unconfirmed cleanup comes with a recorded failure. The
  -- exception is a session whose START requested the log channel, that has no relay, and whose child
  -- or address lease is left at the end: then the snapshot's constructor refuses the complete log, and
  -- the session stays terminating without a snapshot.
  pub end_session-snapshot :
      (s : HelperSession S)
      → Over system (workspace_laws files base d) s
      → Returns (end_session system s) (λ snapshot t.
        ((b : Option Attempt) × (t.lifecycle ≡ closed b snapshot []))
        × ((child_unconfirmed snapshot.cleanup.child_disposal ≡ not (dependents_gone t))
            × ((cleanup_confirmed snapshot.cleanup ≡ false → is_noted snapshot.outcome ≡ true)
                × (unreportable t ≡ false))))
        ⊎ Raises
            (end_session system s)
            (value_error "a complete log requires confirmed or no child acquisition")
            (λ t.
              (unreportable t ≡ true)
              × ((b : Option Attempt) × (o : Outcome) × (t.lifecycle ≡ terminating b o)))
  end_session-snapshot s o = end_session_lem system (workspace_laws files base d) s o
