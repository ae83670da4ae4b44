-- ===== src/Helper/Accounting.antt =====
-- `account_recorded_failures` and `_log_progress` while the lifecycle is terminating.
use zephyr_remote_openocd.Shared.{
  ◌≡◌, refl, Bool, false, not, ◌&&◌, ◌||◌, Option, none, some, List, [], ◌∷◌, arith, ℕ, String,
  is_some, any, string_eq, nat_beq, ◌==◌,
}
use zephyr_remote_openocd.Outcome.{signal, controller_eof, is_child_exit}
use zephyr_remote_openocd.Lifecycle.{Attempt}
use zephyr_remote_openocd.Relay.{LogRelay, read_failed}
use zephyr_remote_openocd.Helper.{ObservationFailed, System, HelperSession}
use zephyr_remote_openocd.Helper.Recording.{
  log_progress, log_progress_of, option_map, failure_trigger, observation_failed_here, without,
  each_failed, account_signal, account_lease_loss, observation_failed, account_recorded_failures,
}
use zephyr_remote_openocd.Helper.Logic.{Returns, returned, weaker, then-Returns, when-Returns}
use zephyr_remote_openocd.Helper.Terminating.{
  Facts, Ending, Kept, forget, carry, terminate-Kept, lifecycle_failure-Still,
}

module _ {S : Type 0} (sys : System S) (f : Facts) (a : Option Attempt) (leased : Bool) where
  progress_of-Kept :
      (log : Option LogRelay) (noted : Bool) (s : HelperSession S)
      → is_some s.log ≡ is_some log
      → Ending f a leased noted s
      → Returns (log_progress_of sys log s) (Kept sys f a leased noted)
  progress_of-Kept none noted s e h = returned tt refl h
  progress_of-Kept (some r) noted s e h =
      returned tt refl (carry sys f a leased noted s _ refl (ground arith) refl h)

  log_progress-Kept :
      (noted : Bool) (s : HelperSession S)
      → Ending f a leased noted s
      → Returns (log_progress sys s) (Kept sys f a leased noted)
  unfolding log_progress
  log_progress-Kept noted s h = progress_of-Kept s.log noted s refl h

  logged_still :
      (g : LogRelay → LogRelay) (log : Option LogRelay) → is_some (option_map g log) ≡ is_some log
  logged_still g none = refl
  logged_still g (some r) = refl

  failure_trigger-failure : (source : String) → is_child_exit (failure_trigger source) ≡ false
  unfolding is_child_exit
  failure_trigger-failure source = ground arith

  observation_failed_here-Kept :
      (failure : ObservationFailed) (noted : Bool) (s : HelperSession S)
      → Ending f a leased noted s
      → Returns (observation_failed_here sys failure s) (Kept sys f a leased noted)
  unfolding observation_failed_here
  observation_failed_here-Kept failure noted s h =
      then-Returns (Kept sys f a leased noted)
        (when-Returns failure.of_child _ s
          (λ _. returned tt refl (carry sys f a leased noted s _ refl refl refl h)) (λ _. h))
        (λ _ t k.
          then-Returns (Kept sys f a leased noted)
            (when-Returns (failure.source == "log") _ t
              (λ _. log_progress-Kept noted _ (
                carry sys f a leased noted t _ refl
                  (ground (arith, logged_still (read_failed failure.exception) t.log)) refl k))
              (λ _. k))
            (λ _ r m.
              weaker
                (lifecycle_failure-Still sys f a leased (failure_trigger failure.source)
                  "OBSERVER_FAILURE" failure.exception noted r
                  (failure_trigger-failure failure.source) m)
                (λ _ q p. forget sys f a leased noted q p.0)))

  observation_failed-Kept :
      (failure : ObservationFailed) (noted : Bool) (s : HelperSession S)
      → Ending f a leased noted s
      → Returns (observation_failed sys failure s) (Kept sys f a leased noted)
  unfolding observation_failed
  observation_failed-Kept failure noted s h =
      when-Returns (any s.observation_failures (λ g. nat_beq g.task failure.task)) _ s
        (λ _.
          let t : HelperSession S = record s {
            observation_failures = without failure.task s.observation_failures;
          } in
          let k = carry sys f a leased noted s t refl refl refl h in
          when-Returns (not failure.of_child || is_some s.child)
            (observation_failed_here sys failure) t
            (λ _. observation_failed_here-Kept failure noted t k) (λ _. k))
        (λ _. h)

  each_failed-Kept :
      (failures : List ObservationFailed) (noted : Bool) (s : HelperSession S)
      → Ending f a leased noted s
      → Returns (each_failed sys failures s) (Kept sys f a leased noted)
  unfolding each_failed
  each_failed-Kept [] noted s h = returned tt refl h
  each_failed-Kept (failure ∷ rest) noted s h =
      then-Returns (Kept sys f a leased noted) (observation_failed-Kept failure noted s h)
        (λ _ t k. each_failed-Kept rest noted t k)

  account_signal-Kept :
      (signum : Option ℕ) (noted : Bool) (s : HelperSession S)
      → Ending f a leased noted s
      → Returns (account_signal sys signum s) (Kept sys f a leased noted)
  unfolding account_signal is_child_exit
  account_signal-Kept none noted s h = returned tt refl h
  account_signal-Kept (some n) noted s h =
      when-Returns (not s.signal_accounted) _ s
        (λ _.
          terminate-Kept sys f a leased signal _ noted _ refl
            (carry sys f a leased noted s _ refl refl refl h))
        (λ _. h)

  account_lease_loss-Kept :
      (noted : Bool) (s : HelperSession S)
      → Ending f a leased noted s
      → Returns (account_lease_loss sys s) (Kept sys f a leased noted)
  unfolding account_lease_loss is_child_exit
  account_lease_loss-Kept noted s h =
      when-Returns (s.lease_lost && not s.lease_loss_accounted) _ s
        (λ _.
          terminate-Kept sys f a leased controller_eof _ noted _ refl
            (carry sys f a leased noted s _ refl refl refl h))
        (λ _. h)

  pub account-Kept :
      (noted : Bool) (s : HelperSession S)
      → Ending f a leased noted s
      → Returns (account_recorded_failures sys s) (Kept sys f a leased noted)
  unfolding account_recorded_failures
  account-Kept noted s h =
      then-Returns (Kept sys f a leased noted) (account_signal-Kept s.pending_signum noted s h)
        (λ _ t k.
          then-Returns (Kept sys f a leased noted) (account_lease_loss-Kept noted t k)
            (λ _ r m. each_failed-Kept r.observation_failures noted r m))
