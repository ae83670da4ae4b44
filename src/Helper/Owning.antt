-- ===== src/Helper/Owning.antt =====
-- `spawn_child` and the owner of the child that it acquires, until the `finally` of `_start_attempt`.
use zephyr_remote_openocd.Shared.{
  ◌≡◌, refl, arith, ◌∙◌, sym, subst, true, false, ◌||◌, some, Error, Result, ok, raised, is_some,
  ◌>>◌,
}
use zephyr_remote_openocd.Outcome.{startup_failure}
use zephyr_remote_openocd.Lifecycle.{current_attempt, attempt_result}
use zephyr_remote_openocd.Helper.{Child, ChildAcquisition, System, HelperSession}
use zephyr_remote_openocd.Helper.Recording.{attempt, call, lifecycle_failure}
use zephyr_remote_openocd.Helper.Logic.{Holds, holds, into-Holds, attempt-Holds}
use zephyr_remote_openocd.Helper.Calm.{terminate-Calm}
use zephyr_remote_openocd.Helper.Consistent.{Consistent}
use zephyr_remote_openocd.Helper.Attempt.{adopt_from, adopt_owner, spawn_result, spawn_child}

-- `spawn_child` publishes a child only in an owner that has its process.
pub record Spawns {S : Type 0} (sys : System S) : Type 0 where
  pub returned :
      (child : Child) (s : S)
      → (sys.spawn s).0.0 ≡ ok child
      → is_some (sys.spawn s).0.1.process ≡ true
  pub published :
      (s : S) → is_some (sys.spawn s).0.1.child ≡ true → is_some (sys.spawn s).0.1.process ≡ true

-- While the owner acquires its child, the session does not know of it yet.
pub record Acquiring {S : Type 0} (s : HelperSession S) : Type 0 where
  pub acquired :
      is_some (attempt_result (current_attempt s.lifecycle)) ≡ true → s.child_acquired ≡ true
  pub owner : ChildAcquisition
  pub own : s.acquisition ≡ some owner
  pub child : is_some s.child ≡ true → (s.child_acquired || is_some owner.process) ≡ true
  pub published : is_some owner.child ≡ true → is_some owner.process ≡ true

-- After the `finally` it does.
pub record Adopted {S : Type 0} (s : HelperSession S) : Type 0 where
  pub consistent : Consistent false s
  pub process :
      (owner : ChildAcquisition)
      → s.acquisition ≡ some owner
      → is_some owner.process ≡ true
      → s.child_acquired ≡ true

adopt_from-Adopted :
    {S : Type 0} (owner : ChildAcquisition) (s : HelperSession S)
    → (is_some (attempt_result (current_attempt s.lifecycle)) ≡ true → s.child_acquired ≡ true)
    → (is_some s.child ≡ true → (s.child_acquired || is_some owner.process) ≡ true)
    → (is_some owner.child ≡ true → is_some owner.process ≡ true)
    → Adopted (adopt_from (some owner) s)
unfolding adopt_from
adopt_from-Adopted owner s p q r = record {
  consistent = record {
    acquired = ground arith;
    owned = λ _. refl;
    child = ground arith;
    known = λ e. absurd (ground arith);
  };
  process = λ o e x. ground arith;
}

pub adopt_owner-Adopted : {S : Type 0} (s : HelperSession S) → Acquiring s → Adopted (adopt_owner s)
adopt_owner-Adopted s h =
    subst (λ owner. Adopted (adopt_from owner s)) (sym h.own)
      (adopt_from-Adopted h.owner s h.acquired h.child h.published)

module _ {S : Type 0} (sys : System S) where
  spawn_result-Acquiring :
      (r : Result Child) (s : HelperSession S)
      → ((child : Child)
          → r ≡ ok child
          → (o : ChildAcquisition) → s.acquisition ≡ some o
          → is_some o.process ≡ true)
      → Acquiring s
      → Holds Acquiring (spawn_result sys r s)
  spawn_result-Acquiring (ok child) s e h = holds (record {
    acquired = h.acquired;
    owner = h.owner;
    own = h.own;
    child = λ _. ground (arith, e child refl h.owner h.own);
    published = h.published;
  })
  spawn_result-Acquiring (raised x) s e h = holds h

  -- `mark_child`, `spawn_child` and the handler
  keep-Acquiring :
      (s t : HelperSession S)
      → is_some (attempt_result (current_attempt t.lifecycle))
        ≡ is_some (attempt_result (current_attempt s.lifecycle))
      → t.child_acquired ≡ s.child_acquired
      → t.acquisition ≡ s.acquisition
      → is_some t.child ≡ is_some s.child
      → Acquiring s
      → Acquiring t
  keep-Acquiring s t p q r c h = record {
    acquired = ground (arith, h.acquired);
    owner = h.owner;
    own = r ∙ h.own;
    child = ground (arith, h.child);
    published = h.published;
  }

  spawn_child-Acquiring :
      Spawns sys
      → (s : HelperSession S) → (is_some s.child ≡ true → s.child_acquired ≡ true)
      → Acquiring s
      → Holds Acquiring (spawn_child sys s)
  unfolding spawn_child
  spawn_child-Acquiring law s e h =
      let t : HelperSession S = record s {
        system = (sys.spawn s.system).1;
        acquisition = some (sys.spawn s.system).0.1;
      } in
      spawn_result-Acquiring (sys.spawn s.system).0.0 t
        (λ child x o y. ground (arith, law.returned child s.system x))
        (record {
          acquired = h.acquired;
          owner = (sys.spawn s.system).0.1;
          own = refl;
          child = λ x. ground (arith, e x);
          published = law.published s.system;
        })

  abbrev pub Begun : HelperSession S → Type 0
  Begun s = Acquiring s × (is_some s.child ≡ true → s.child_acquired ≡ true)

  spawn_failure-Acquiring :
      (e : Error) (s : HelperSession S)
      → Acquiring s
      → Holds Acquiring (lifecycle_failure sys startup_failure "SPAWN_FAILURE" e s)
  unfolding lifecycle_failure
  spawn_failure-Acquiring e s k =
      let failure = some (sys.from_exception "SPAWN_FAILURE" e) in
      holds (record {
        acquired = λ y. k.acquired ((terminate-Calm startup_failure failure s.lifecycle).result y);
        owner = k.owner;
        own = k.own;
        child = k.child;
        published = k.published;
      })

  mark_and_spawn-Acquiring :
      Spawns sys
      → (s : HelperSession S) → Begun s
      → Holds Acquiring ((call sys.mark_child >> spawn_child sys) s)
  mark_and_spawn-Acquiring law s (h, e) =
      let t : HelperSession S = record s { system = (sys.mark_child s.system).1 } in
      let marked : Holds Begun ((sys.mark_child s.system).0, t) =
        holds (keep-Acquiring s t refl refl refl refl h, e) in
      into-Holds Begun marked (λ _ k. k.0) (λ _ u k. spawn_child-Acquiring law u k.1 k.0)

  pub try_spawn-Acquiring :
      Spawns sys
      → (s : HelperSession S) → Begun s
      → Holds Acquiring (
          attempt
            (do call sys.mark_child; spawn_child sys)
            (lifecycle_failure sys startup_failure "SPAWN_FAILURE")
            s)
  try_spawn-Acquiring law s h =
      attempt-Holds (mark_and_spawn-Acquiring law s h) (λ x u k. spawn_failure-Acquiring x u k)
