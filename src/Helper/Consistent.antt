-- ===== src/Helper/Consistent.antt =====
-- What holds of a session between two steps of the coordination, and that the methods that record
-- failures keep it.
use zephyr_remote_openocd.Shared.{
  ◌≡◌, refl, arith, Bool, true, false, not, ◌||◌, ◌&&◌, Option, none, some, List, [], ◌∷◌, String,
  ℕ, ℤ, Error, Result, Exec, is_some, any, nat_beq, ◌==◌, string_eq,
}
use zephyr_remote_openocd.Outcome.{Trigger, Diagnostic}
use zephyr_remote_openocd.Lifecycle.{LifecyclePhase, attempt_result, current_attempt}
use zephyr_remote_openocd.Lifecycle.Authority.{is_unsettled}
use zephyr_remote_openocd.Lifecycle.Authority
use zephyr_remote_openocd.Relay.{LogRelay}
use zephyr_remote_openocd.Helper.{ObservationFailed, System, HelperSession}
use zephyr_remote_openocd.Helper.Recording.{
  authority, call, option_map, lifecycle_failure, cleanup_failure, log_progress, log_progress_of,
  observation_failed_here, without, observation_failed, each_failed, account_signal,
  account_lease_loss, account_recorded_failures,
}
use zephyr_remote_openocd.Helper.Logic.{Holds, holds, then-Holds, when-Holds}
use zephyr_remote_openocd.Helper.Calm.{Calm, terminate-Calm, observe_child_exit-unsettled}

-- Where `sure` holds, a child was acquired. A child result is on record only where a child was acquired, and an attempt that is not settled has
-- an owner of its child.
pub record Consistent {S : Type 0} (sure : Bool) (s : HelperSession S) : Type 0 where
  pub acquired :
      is_some (attempt_result (current_attempt s.lifecycle)) ≡ true → s.child_acquired ≡ true
  pub owned : is_unsettled (current_attempt s.lifecycle) ≡ true → is_some s.acquisition ≡ true
  pub child : is_some s.child ≡ true → s.child_acquired ≡ true
  pub known : sure ≡ true → s.child_acquired ≡ true

pub still_some : {A : Type 0} (g : A → A) (x : Option A) → is_some (option_map g x) ≡ is_some x
still_some g none = refl
still_some g (some x) = refl

module _ {S : Type 0} {sure : Bool} where
  -- The fields that `Consistent` reads are the same.
  pub carry-Consistent :
      (s t : HelperSession S)
      → t.lifecycle ≡ s.lifecycle
      → t.child_acquired ≡ s.child_acquired
      → t.acquisition ≡ s.acquisition
      → is_some t.child ≡ is_some s.child
      → Consistent sure s
      → Consistent sure t
  carry-Consistent s t p q r c h = ground arith

  pub calm-Holds :
      {A : Type 0} (m : Exec LifecyclePhase A) (s : HelperSession S)
      → Calm s.lifecycle (m s.lifecycle).1
      → Consistent sure s
      → Holds (Consistent sure) (authority m s)
  calm-Holds m s c h = holds (record {
    acquired = λ x. h.acquired (c.result x);
    owned = λ x. h.owned (c.unsettled x);
    child = h.child;
    known = h.known;
  })

  pub call-Holds :
      {A : Type 0} (m : S → Result A × S) (s : HelperSession S)
      → Consistent sure s
      → Holds (Consistent sure) (call m s)
  call-Holds m s h = holds (carry-Consistent s _ refl refl refl refl h)

module _ {S : Type 0} (sys : System S) {sure : Bool} where
  pub terminate-Holds :
      (t : Trigger) (f : Option Diagnostic) (s : HelperSession S)
      → Consistent sure s
      → Holds (Consistent sure) (authority (Authority.terminate t f) s)
  terminate-Holds t f s h =
      calm-Holds (Authority.terminate t f) s (terminate-Calm t f s.lifecycle) h

  pub lifecycle_failure-Holds :
      (t : Trigger) (code : String) (e : Error) (s : HelperSession S)
      → Consistent sure s
      → Holds (Consistent sure) (lifecycle_failure sys t code e s)
  unfolding lifecycle_failure
  lifecycle_failure-Holds t code e s h = terminate-Holds t _ s h

  pub cleanup_failure-Holds :
      (e : Error) (s : HelperSession S)
      → Consistent sure s
      → Holds (Consistent sure) (cleanup_failure sys e s)
  unfolding cleanup_failure
  cleanup_failure-Holds e s h =
      lifecycle_failure-Holds _ _ e _ (carry-Consistent s _ refl refl refl refl h)

  progress_of-Holds :
      (log : Option LogRelay) (s : HelperSession S)
      → Consistent sure s
      → Holds (Consistent sure) (log_progress_of sys log s)
  progress_of-Holds none s h = holds h
  progress_of-Holds (some r) s h = holds (carry-Consistent s _ refl refl refl refl h)

  pub log_progress-Holds :
      (s : HelperSession S) → Consistent sure s → Holds (Consistent sure) (log_progress sys s)
  unfolding log_progress
  log_progress-Holds s h = progress_of-Holds s.log s h

  observation_failed_here-Holds :
      (failure : ObservationFailed) (s : HelperSession S)
      → Consistent sure s
      → Holds (Consistent sure) (observation_failed_here sys failure s)
  unfolding observation_failed_here
  observation_failed_here-Holds failure s h =
      then-Holds
        (when-Holds failure.of_child _ s h
          (λ _. holds (carry-Consistent s _ refl refl refl (still_some _ s.child) h)))
        (λ _ t k.
          then-Holds
            (when-Holds (failure.source == "log") _ t k
              (λ _. log_progress-Holds _ (carry-Consistent t _ refl refl refl refl k)))
            (λ _ u m. lifecycle_failure-Holds _ _ _ u m))

  observation_failed-Holds :
      (failure : ObservationFailed) (s : HelperSession S)
      → Consistent sure s
      → Holds (Consistent sure) (observation_failed sys failure s)
  unfolding observation_failed
  observation_failed-Holds failure s h =
      when-Holds (any s.observation_failures (λ g. nat_beq g.task failure.task)) _ s h (λ _.
        let t : HelperSession S = record s {
          observation_failures = without failure.task s.observation_failures;
        } in
        let k = carry-Consistent s t refl refl refl refl h in
        when-Holds (not failure.of_child || is_some s.child) _ t k
          (λ _. observation_failed_here-Holds failure t k))

  each_failed-Holds :
      (failures : List ObservationFailed) (s : HelperSession S)
      → Consistent sure s
      → Holds (Consistent sure) (each_failed sys failures s)
  unfolding each_failed
  each_failed-Holds [] s h = holds h
  each_failed-Holds (f ∷ fs) s h =
      then-Holds (observation_failed-Holds f s h) (λ _ t k. each_failed-Holds fs t k)

  account_signal-Holds :
      (signum : Option ℕ) (s : HelperSession S)
      → Consistent sure s
      → Holds (Consistent sure) (account_signal sys signum s)
  unfolding account_signal
  account_signal-Holds none s h = holds h
  account_signal-Holds (some n) s h =
      when-Holds (not s.signal_accounted) _ s h
        (λ _. terminate-Holds _ _ _ (carry-Consistent s _ refl refl refl refl h))

  account_lease_loss-Holds :
      (s : HelperSession S) → Consistent sure s → Holds (Consistent sure) (account_lease_loss sys s)
  unfolding account_lease_loss
  account_lease_loss-Holds s h =
      when-Holds (s.lease_lost && not s.lease_loss_accounted) _ s h
        (λ _. terminate-Holds _ _ _ (carry-Consistent s _ refl refl refl refl h))

  pub account-Holds :
      (s : HelperSession S)
      → Consistent sure s
      → Holds (Consistent sure) (account_recorded_failures sys s)
  unfolding account_recorded_failures
  account-Holds s h = then-Holds (account_signal-Holds s.pending_signum s h) (λ _ t k.
      then-Holds (account_lease_loss-Holds t k)
        (λ _ u m. each_failed-Holds u.observation_failures u m))

  pub observe_child_exit-Holds :
      (n : ℤ) (s : HelperSession S)
      → s.child_acquired ≡ true
      → Consistent sure s
      → Holds (Consistent sure) (authority (Authority.observe_child_exit n) s)
  observe_child_exit-Holds n s e h = holds (record {
    acquired = λ _. e;
    owned = λ x. h.owned (observe_child_exit-unsettled n s.lifecycle x);
    child = h.child;
    known = h.known;
  })

module _ {S : Type 0} where
  pub unsure :
      {A : Type 0} {given : Result A × HelperSession S}
      → Holds (Consistent true) given
      → Holds (Consistent false) given
  unsure h = holds (record {
    acquired = h.held.acquired;
    owned = h.held.owned;
    child = h.held.child;
    known = λ e. absurd (ground arith);
  })

  pub sure :
      (s : HelperSession S) → s.child_acquired ≡ true → Consistent false s → Consistent true s
  sure s e h = record { acquired = h.acquired; owned = h.owned; child = h.child; known = λ _. e }
