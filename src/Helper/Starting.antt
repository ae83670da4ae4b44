-- ===== src/Helper/Starting.antt =====
-- The methods of the attempt keep the session consistent.
use zephyr_remote_openocd.Shared.{
  ◌≡◌, refl, Bool, true, false, not, ◌&&◌, Option, none, some, List, [], ◌∷◌, String, ℤ, Error,
  is_some,
}
use zephyr_remote_openocd.Outcome.{is_live_server, output_failure, helper_failure}
use zephyr_remote_openocd.Lifecycle.Authority.{is_unsettled}
use zephyr_remote_openocd.Lifecycle.Authority
use zephyr_remote_openocd.Relay.{LogRelay}
use zephyr_remote_openocd.Helper.{Child, Request, System, HelperSession, ready as ready_event}
use zephyr_remote_openocd.Helper.Recording.{is_starting, is_starting_server, record_exit}
use zephyr_remote_openocd.Helper.Logic.{
  Holds, holds, then-Holds, attempt-Holds, when-Holds, if-Holds,
}
use zephyr_remote_openocd.Helper.Calm.{
  ready-Calm, observe_evidence-Calm, record_child_termination-Calm,
}
use zephyr_remote_openocd.Helper.Consistent.{
  Consistent, unsure, sure, carry-Consistent, calm-Holds, call-Holds, still_some, terminate-Holds,
  lifecycle_failure-Holds, cleanup_failure-Holds, log_progress-Holds, account-Holds,
  observe_child_exit-Holds,
}
use zephyr_remote_openocd.Helper.Attempt.{
  may_be_ready, requested_evidence, has_any, dispose_log, undecided, dispose_undecided,
  log_disposal, create_workspace_entries, start_output_observers, start_output_observer,
  raise_first, observe_all, read_evidence, commit_ready, decide_ready, ready_child, ready, go_on,
  exit_or_ready,
}

module _ {S : Type 0} (sys : System S) {sure : Bool} where
  dispose_log-Holds :
      (confirmed : Bool) (relay : LogRelay) (s : HelperSession S)
      → Consistent sure s
      → Holds (Consistent sure) (dispose_log sys confirmed relay s)
  unfolding dispose_log
  dispose_log-Holds confirmed relay s h =
      then-Holds
        (if-Holds (not confirmed) _ _ s (λ _. holds (carry-Consistent s _ refl refl refl refl h))
          (λ _. when-Holds (not relay.disposal_confirmed) _ s h (λ _.
            attempt-Holds
              (call-Holds sys.confirm_log _ (carry-Consistent s _ refl refl refl refl h))
              (λ e t k. cleanup_failure-Holds sys e t k))))
        (λ _ t k. log_progress-Holds sys t k)

  dispose_undecided-Holds :
      (confirmed : Bool) (log : Option LogRelay) (s : HelperSession S)
      → Consistent sure s
      → Holds (Consistent sure) (dispose_undecided sys confirmed log s)
  unfolding dispose_undecided
  dispose_undecided-Holds confirmed none s h = holds h
  dispose_undecided-Holds confirmed (some r) s h = dispose_log-Holds confirmed r s h

  pub log_disposal-Holds :
      (confirmed : Bool) (s : HelperSession S)
      → Consistent sure s
      → Holds (Consistent sure) (log_disposal sys confirmed s)
  unfolding log_disposal
  log_disposal-Holds confirmed s h = dispose_undecided-Holds confirmed (undecided sys s.log) s h

  pub create_workspace_entries-Holds :
      (request : Request) (s : HelperSession S)
      → Consistent sure s
      → Holds (Consistent sure) (create_workspace_entries sys request s)
  unfolding create_workspace_entries
  create_workspace_entries-Holds request s h =
      then-Holds
        (when-Holds (is_live_server request.startup.completion_policy) _ s h (λ _.
          then-Holds (call-Holds sys.create_readiness s h)
            (λ _ t k. holds (carry-Consistent t _ refl refl refl refl k))))
        (λ _ t k. when-Holds request.uses_log_spool _ t k (λ _.
          then-Holds (call-Holds sys.create_log t k) (λ relay u m.
            then-Holds
              (call-Holds (sys.create_task "log") _ (carry-Consistent u _ refl refl refl refl m))
              (λ _ v n.
                when-Holds (is_some (sys.writer.log_pending v.system)) _ v n
                  (λ _. call-Holds (sys.create_task "log credit") v n)))))

  start_output_observer-Holds :
      (name : String) (s : HelperSession S)
      → Consistent sure s
      → Holds (Consistent sure) (start_output_observer sys name s)
  unfolding start_output_observer
  start_output_observer-Holds name s h =
      attempt-Holds
        (then-Holds (call-Holds (sys.start_output_observer name) s h) (λ closed t k.
          then-Holds
            (when-Holds closed _ t k
              (λ _. holds (carry-Consistent t _ refl refl refl (still_some _ t.child) k)))
            (λ _ u m. holds m)))
        (λ e t k. holds (carry-Consistent t _ refl refl refl (still_some _ t.child) k))

  raise_first-Holds :
      (first second : Option Error) (s : HelperSession S)
      → Consistent sure s
      → Holds (Consistent sure) (raise_first sys first second s)
  raise_first-Holds none none s h = holds h
  raise_first-Holds none (some e) s h = holds h
  raise_first-Holds (some e) second s h = holds h

  pub start_output_observers-Holds :
      (s : HelperSession S)
      → Consistent sure s
      → Holds (Consistent sure) (start_output_observers sys s)
  unfolding start_output_observers
  start_output_observers-Holds s h =
      then-Holds (start_output_observer-Holds "stdout" s h) (λ first t k.
        then-Holds (start_output_observer-Holds "stderr" t k)
          (λ second u m. raise_first-Holds first second u m))

  observe_all-Holds :
      (names : List String) (s : HelperSession S)
      → Consistent sure s
      → Holds (Consistent sure) (observe_all sys names s)
  unfolding observe_all
  observe_all-Holds [] s h = holds h
  observe_all-Holds (n ∷ ns) s h =
      then-Holds
        (calm-Holds (Authority.observe_evidence n) s (observe_evidence-Calm n s.lifecycle) h)
        (λ _ t k. observe_all-Holds ns t k)

  go_on-Holds :
      (observed : Option (List String)) (s : HelperSession S)
      → Consistent sure s
      → Holds (Consistent sure) (go_on sys observed s)
  unfolding go_on
  go_on-Holds none s h = holds h
  go_on-Holds (some ns) s h = then-Holds (observe_all-Holds ns s h) (λ _ t k. holds k)

  read_evidence-Holds :
      (names : List String) (s : HelperSession S)
      → Consistent sure s
      → Holds (Consistent sure) (read_evidence sys names s)
  unfolding read_evidence
  read_evidence-Holds names s h =
      if-Holds (not s.readiness) _ _ s (λ _. holds h)
        (λ _.
          then-Holds
            (attempt-Holds
              (then-Holds (call-Holds (sys.read_evidence names) s h) (λ found t k. holds k))
              (λ e t k.
                then-Holds
                  (lifecycle_failure-Holds sys helper_failure "READINESS_ARTIFACT_FAILURE" e t k)
                  (λ _ u m. holds m)))
            (λ observed t k. go_on-Holds observed t k))

  commit_ready-Holds :
      (s : HelperSession S) → Consistent sure s → Holds (Consistent sure) (commit_ready sys s)
  unfolding commit_ready
  commit_ready-Holds s h = then-Holds (account-Holds sys s h) (λ _ t k.
      when-Holds (is_starting t.lifecycle) _ t k (λ _.
        then-Holds
          (attempt-Holds (then-Holds (call-Holds (sys.emit ready_event) t k) (λ _ u m. holds m))
            (λ e u m.
              then-Holds (lifecycle_failure-Holds sys output_failure "READY_ADMISSION" e u m)
                (λ _ v n. holds n)))
          (λ admitted u m. when-Holds admitted _ u m (λ _.
            then-Holds
              (calm-Holds (Authority.ready true true) u (ready-Calm true true u.lifecycle) m)
              (λ _ v n. holds (carry-Consistent v _ refl refl refl refl n))))))

module _ {S : Type 0} (sys : System S) where
  pub record_exit-Holds :
      (child : Child) (n : ℤ) (s : HelperSession S)
      → Consistent true s
      → Holds (Consistent true) (record_exit sys child n s)
  unfolding record_exit
  record_exit-Holds child n s h =
      then-Holds
        (when-Holds child.termination_requested _ s h (λ _.
          then-Holds
            (calm-Holds Authority.record_child_termination s
              (record_child_termination-Calm s.lifecycle) h)
            (λ _ t k. holds k)))
        (λ _ t k. then-Holds (observe_child_exit-Holds sys n t (k.known refl) k) (λ observed u m.
          when-Holds (observed && is_starting_server u.lifecycle) _ u m
            (λ _. terminate-Holds sys _ _ u m)))

  exit_or_ready-Holds :
      (child : Child) (returncode : Option ℤ) (s : HelperSession S)
      → Consistent true s
      → Holds (Consistent true) (exit_or_ready sys child returncode s)
  unfolding exit_or_ready
  exit_or_ready-Holds child none s h = commit_ready-Holds sys s h
  exit_or_ready-Holds child (some n) s h = record_exit-Holds child n s h

  decide_ready-Holds :
      (child : Child) (s : HelperSession S)
      → Consistent true s
      → Holds (Consistent true) (decide_ready sys child s)
  unfolding decide_ready
  decide_ready-Holds child s h =
      when-Holds (may_be_ready s.lifecycle) _ s h
        (λ _. then-Holds (call-Holds sys.poll s h) (λ n t k. exit_or_ready-Holds child n t k))

  ready_child-Holds :
      (child : Option Child) (s : HelperSession S)
      → (is_some child ≡ true → Consistent true s)
      → Consistent false s
      → Holds (Consistent false) (ready_child sys child s)
  unfolding ready_child
  ready_child-Holds none s h k = holds k
  ready_child-Holds (some child) s h k = unsure (
      when-Holds (is_starting_server s.lifecycle) _ s (h refl) (λ _.
        then-Holds
          (if-Holds (has_any (requested_evidence s.lifecycle)) _ _ s
            (λ _. read_evidence-Holds sys _ s (h refl)) (λ _. holds (h refl)))
          (λ proceed t m. when-Holds proceed _ t m (λ _. decide_ready-Holds child t m))))

  -- `_ready` keeps the session consistent.
  pub ready-Consistent :
      (s : HelperSession S) → Consistent false s → Holds (Consistent false) (ready sys s)
  unfolding ready
  ready-Consistent s h =
      then-Holds (account-Holds sys s h)
        (λ _ t k. ready_child-Holds t.child t (λ e. sure t (k.child e) k) k)
