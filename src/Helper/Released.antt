-- ===== src/Helper/Released.antt =====
-- `release_workspace` and `_cleanup_report` of a terminating session: what is left and what is on
-- record when they return.
use zephyr_remote_openocd.Shared.{
  ◌≡◌, refl, sym, subst, ◌∙◌, Bool, true, false, not, Option, arith, inl, inr, ◌⊎◌,
}
use zephyr_remote_openocd.Lifecycle.{Attempt}
use zephyr_remote_openocd.Helper.{work, System, HelperSession}
use zephyr_remote_openocd.Helper.Recording.{attempt, call, cleanup_failure}
use zephyr_remote_openocd.Helper.Logic.{Returns, weaker, then-Returns, when-Returns}
use zephyr_remote_openocd.Helper.Laws.{Laws}
use zephyr_remote_openocd.Helper.Reports.{gone}
use zephyr_remote_openocd.Helper.Release.{release_once, release_workspace}
use zephyr_remote_openocd.Helper.Terminating.{Facts, Ending, forget, carry, try-Tried}
use zephyr_remote_openocd.Helper.Ending.{
  Clean, DisposedOf, Opened, StillHere, close_address_lease-Still, close_readiness-Opened,
  close_log_channel-Opened, dispose-returns,
}

module _ {S : Type 0} (sys : System S) (laws : Laws sys) (f : Facts) (a : Option Attempt) where
  -- Either a failure is on record, or the child is gone and nothing of the workspace is left.
  pub record Released (noted leased : Bool) (s : HelperSession S) : Type 0 where
    pub ending : Ending f a leased noted s
    pub kept : gone f.acquisition f.settlement leased ≡ false → laws.there work s.system ≡ true
    pub clean :
        Ending f a leased true s
        ⊎ (Clean sys laws f a leased s.system × (sys.lock_closed s.system ≡ true))

  close_lock-Released :
      (leased : Bool) (s : HelperSession S)
      → DisposedOf sys laws f a leased s
      → Returns (attempt (call sys.close_lock) (cleanup_failure sys) s) (λ _. Released false leased)
  close_lock-Released leased s d = elim (d.clean refl) [
    | inl noted ↦ weaker (try-Tried sys f a leased sys.close_lock true s noted) (λ _ t k. record {
      ending = forget sys f a leased false t k.0.0;
      kept = λ x. rw k.0.1 (laws.close_lock-keeps work s.system ∙ d.kept x);
      clean = inl k.0.0;
    })
    | inr clean ↦ weaker (try-Tried sys f a leased sys.close_lock false s d.ending) (λ _ t k.
        record {
          ending = k.0.0;
          kept = λ x. rw k.0.1 (laws.close_lock-keeps work s.system ∙ d.kept x);
          clean = elim k.1 [
            | inl e ↦ inr (
              record {
                absent = λ p. rw k.0.1 (laws.close_lock-keeps p s.system ∙ clean.absent p);
                disposed = clean.disposed;
              },
              rw k.0.1 (laws.close_lock-ok s.system e),
            )
            | inr noted ↦ inl noted
          ];
        })
  ]

  leased_now :
      (leased : Bool) (s : HelperSession S)
      → Released false leased s
      → Released false s.address_lease s
  leased_now leased s r = subst (λ l. Released false l s) (sym r.ending.lease) r

  pub release-Released :
      (first : Bool) (s : HelperSession S)
      → s.resources_released ≡ false
      → StillHere sys laws f a first s
      → Returns
          (release_workspace sys s)
          (λ _ t. Released false t.address_lease t × (first ≡ false → t.address_lease ≡ false))
  unfolding release_workspace release_once
  release-Released first s e h =
      when-Returns (not s.resources_released) _ s
        (λ _.
          let r : HelperSession S = record s { resources_released = true } in
          then-Returns (λ _. StillHere sys laws f a first)
            (close_address_lease-Still sys laws f a first r
              (carry sys f a s.address_lease false s r refl refl refl h.0, h.1))
            (λ _ t k.
              then-Returns (λ _. Opened sys laws f a t.address_lease)
                (close_readiness-Opened sys laws f a t.address_lease t (k.0, k.1.0))
                (λ _ u m.
                  then-Returns (λ _. Opened sys laws f a t.address_lease)
                    (close_log_channel-Opened sys laws f a t.address_lease u m)
                    (λ closed v n.
                      then-Returns (λ _. DisposedOf sys laws f a t.address_lease)
                        (dispose-returns sys laws f a closed t.address_lease v n)
                        (λ _ w d. weaker (close_lock-Released t.address_lease w d) (λ _ x q.
                          (leased_now t.address_lease x q, λ z. q.ending.lease ∙ k.1.1 z)))))))
        (λ x. absurd (ground arith))
