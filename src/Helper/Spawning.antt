-- ===== src/Helper/Spawning.antt =====
-- `_start_attempt` keeps the session consistent, also where the spawn of the child fails midway.
use zephyr_remote_openocd.Shared.{
  ◌≡◌, refl, arith, sym, Bool, true, false, ◌&&◌, Option, none, some, ℤ, Result, ok, raised,
  is_some, continue,
}
use zephyr_remote_openocd.Outcome.{make_outcome, is_live_server, output_failure}
use zephyr_remote_openocd.Lifecycle.{
  LifecyclePhase, starting, authorized, current_attempt, attempt_result,
}
use zephyr_remote_openocd.Lifecycle.Authority.{is_unsettled}
use zephyr_remote_openocd.Lifecycle.Authority
use zephyr_remote_openocd.Helper.{
  ChildAcquisition, Request, System, HelperSession, attempt as attempt_event,
}
use zephyr_remote_openocd.Helper.Recording.{when, option_map, is_starting}
use zephyr_remote_openocd.Helper.Logic.{
  Holds, holds, then-Holds, into-Holds, attempt-Holds, when-Holds,
}
use zephyr_remote_openocd.Helper.Calm.{
  adopt_attempt-Calm, record_child_termination-Calm, enter_attempt-result,
}
use zephyr_remote_openocd.Helper.Consistent.{
  Consistent, unsure, sure, carry-Consistent, calm-Holds, call-Holds, still_some,
  lifecycle_failure-Holds, account-Holds, observe_child_exit-Holds,
}
use zephyr_remote_openocd.Helper.Attempt.{
  is_authorized, fresh_owner, request_termination, childless, observe_result, adopt_child, spawned,
  acquire_child, admit_attempt, prepare_attempt, start_attempt,
}
use zephyr_remote_openocd.Helper.Starting.{
  log_disposal-Holds, create_workspace_entries-Holds, start_output_observers-Holds,
  ready-Consistent,
}
use zephyr_remote_openocd.Helper.Owning.{
  Spawns, Acquiring, Adopted, adopt_owner-Adopted, try_spawn-Acquiring,
}

-- Only an attempt that has entered is new.
enter_attempt-unsettled :
    (s : LifecyclePhase)
    → ¬ ((Authority.enter_attempt true s).0 ≡ ok true)
    → is_unsettled (current_attempt (Authority.enter_attempt true s).1) ≡ true
    → is_unsettled (current_attempt s) ≡ true
unfolding Authority.enter_attempt make_outcome current_attempt is_unsettled
enter_attempt-unsettled (starting r authorized e) n h = absurd (n refl)
enter_attempt-unsettled _ n h = h

module _ {S : Type 0} (sys : System S) where
  observe_result-Holds :
      (owner : ChildAcquisition) (process : Option (Option ℤ)) (s : HelperSession S)
      → (is_some process ≡ true → s.child_acquired ≡ true)
      → Consistent false s
      → Holds (Consistent false) (observe_result sys owner process s)
  unfolding observe_result
  observe_result-Holds owner none s e h = holds h
  observe_result-Holds owner (some none) s e h = holds h
  observe_result-Holds owner (some (some n)) s e h = unsure (
      then-Holds
        (when-Holds owner.termination_requested _ s (sure s (e refl) h) (λ _.
          then-Holds
            (calm-Holds Authority.record_child_termination s
              (record_child_termination-Calm s.lifecycle) (sure s (e refl) h))
            (λ _ t k. holds k)))
        (λ _ t k.
          then-Holds (observe_child_exit-Holds sys n t (k.known refl) k) (λ _ u m. holds m)))

  childless-Holds :
      (owner : ChildAcquisition) (s : HelperSession S)
      → (is_some owner.process ≡ true → s.child_acquired ≡ true)
      → Consistent false s
      → Holds (Consistent false) (childless sys owner s)
  unfolding childless
  childless-Holds owner s e h =
      then-Holds (observe_result-Holds owner owner.process s e h)
        (λ _ t k. log_disposal-Holds sys _ t k)

  adopt_child-Holds :
      (request : Request) (owner : ChildAcquisition) (s : HelperSession S)
      → Consistent false s
      → Holds (Consistent false) (adopt_child sys request owner s)
  unfolding adopt_child
  adopt_child-Holds request owner s h =
      let t : HelperSession S = record s {
        child = option_map (request_termination owner) s.child;
      } in
      then-Holds
        (calm-Holds Authority.adopt_attempt t (adopt_attempt-Calm t.lifecycle)
          (carry-Consistent s t refl refl refl (still_some _ s.child) h))
        (λ _ u k. then-Holds (start_output_observers-Holds sys u k) (λ _ v m.
          then-Holds (call-Holds (sys.create_task "child exit") v m) (λ _ w n.
            when-Holds (is_live_server request.startup.completion_policy && is_starting w.lifecycle)
              _ w n
              (λ _.
                then-Holds (call-Holds (sys.create_task "readiness deadline") w n)
                  (λ _ x o. ready-Consistent sys x o)))))

  spawned-Holds :
      (request : Request) (owner : Option ChildAcquisition) (has_child : Bool) (s : HelperSession S)
      → owner ≡ s.acquisition
      → Adopted s
      → Holds (Consistent false) (spawned sys request owner has_child s)
  unfolding spawned
  spawned-Holds request none b s e h = holds h.consistent
  spawned-Holds request (some o) true s e h = adopt_child-Holds request o s h.consistent
  spawned-Holds request (some o) false s e h =
      childless-Holds o s (h.process o (sym e)) h.consistent

  -- An attempt has entered, and its owner does not exist yet.
  record Entered (s : HelperSession S) : Type 0 where
    acquired :
        is_some (attempt_result (current_attempt s.lifecycle)) ≡ true → s.child_acquired ≡ true
    known : is_some s.child ≡ true → s.child_acquired ≡ true

  acquire_child-Holds :
      (request : Request)
      → Spawns sys
      → (s : HelperSession S) → Entered s
      → Holds (Consistent false) (acquire_child sys request s)
  unfolding acquire_child
  acquire_child-Holds request law s h =
      let t : HelperSession S = record s { acquisition = some fresh_owner } in
      let begun : Acquiring t = record {
        acquired = h.acquired;
        owner = fresh_owner;
        own = refl;
        child = λ x. ground (arith, h.known x);
        published = λ x. absurd (ground arith);
      } in
      into-Holds Adopted
        (holds (adopt_owner-Adopted _ (try_spawn-Acquiring sys law t (begun, h.known)).held))
        (λ _ k. k.consistent)
        (λ _ u k. spawned-Holds request u.acquisition (is_some u.child) u refl k)

  -- What `enter_attempt` gave decides whether the owner is created.
  entered_or_not :
      (request : Request)
      → Spawns sys
      → (r : Result Bool) (s : HelperSession S) → (r ≡ ok true → Entered s)
      → (¬ (r ≡ ok true) → Consistent false s)
      → Holds
          (Consistent false)
          (continue r s (λ entered. when entered (acquire_child sys request)))
  entered_or_not request law (ok true) s p q = acquire_child-Holds request law s (p refl)
  entered_or_not request law (ok false) s p q = holds (q (λ e. ground arith))
  entered_or_not request law (raised x) s p q = holds (q (λ e. ground arith))

  enter-Holds :
      (request : Request)
      → Spawns sys
      → (s : HelperSession S) → Consistent false s
      → Holds (Consistent false) (
          continue
            (Authority.enter_attempt true s.lifecycle).0
            (record s { lifecycle = (Authority.enter_attempt true s.lifecycle).1 })
            (λ entered. when entered (acquire_child sys request)))
  enter-Holds request law s h =
      entered_or_not request law (Authority.enter_attempt true s.lifecycle).0 _
        (λ _. record {
          acquired = λ x. h.acquired (enter_attempt-result true s.lifecycle x);
          known = h.child;
        })
        (λ n. record {
          acquired = λ x. h.acquired (enter_attempt-result true s.lifecycle x);
          owned = λ x. h.owned (enter_attempt-unsettled s.lifecycle n x);
          child = h.child;
          known = h.known;
        })

  admit_attempt-Holds :
      (request : Request)
      → Spawns sys
      → (s : HelperSession S) → Consistent false s
      → Holds (Consistent false) (admit_attempt sys request s)
  unfolding admit_attempt
  admit_attempt-Holds request law s h =
      then-Holds
        (attempt-Holds (then-Holds (call-Holds (sys.emit attempt_event) s h) (λ _ t k. holds k))
          (λ e t k.
            then-Holds (lifecycle_failure-Holds sys output_failure "ATTEMPT_ADMISSION" e t k)
              (λ _ u m. holds m)))
        (λ admitted t k. when-Holds admitted _ t k (λ _. enter-Holds request law t k))

  prepare_attempt-Holds :
      (request : Request)
      → Spawns sys
      → (s : HelperSession S) → Consistent false s
      → Holds (Consistent false) (prepare_attempt sys request s)
  unfolding prepare_attempt
  prepare_attempt-Holds request law s h =
      then-Holds (call-Holds (sys.allocate request) s h) (λ _ t k.
        then-Holds (call-Holds sys.materialize _ (carry-Consistent t _ refl refl refl refl k))
          (λ _ u m. then-Holds (call-Holds sys.check_paths u m) (λ _ v n.
            then-Holds (create_workspace_entries-Holds sys request v n) (λ _ w o.
              then-Holds (account-Holds sys w o) (λ _ x p.
                when-Holds (is_starting x.lifecycle) _ x p
                  (λ _. admit_attempt-Holds request law x p))))))

  -- `_start_attempt` keeps the session consistent, whichever of its calls raise: a child result is on
  -- record, and a child is held, only where a child was acquired, and an attempt that is not settled
  -- has an owner of its child. The calls of the system may raise at any point; the spawn publishes a
  -- child only in an owner that has its process.
  pub start_attempt-Consistent :
      (request : Request)
      → Spawns sys
      → (s : HelperSession S) → Consistent false s
      → Holds (Consistent false) (start_attempt sys request s)
  unfolding start_attempt
  start_attempt-Consistent request law s h = then-Holds (account-Holds sys s h) (λ _ t k.
      when-Holds (is_authorized t.lifecycle) _ t k (λ _. prepare_attempt-Holds request law t k))
