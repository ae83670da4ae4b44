-- ===== src/Helper/Cleanup.antt =====
-- `_cleanup_report` of a terminating session: what it reports and what it settles.
use zephyr_remote_openocd.Shared.{
  ◌≡◌, refl, sym, ap, Bool, true, false, not, ◌&&◌, Option, none, some, arith, ok, inl, inr, ◌⊎◌,
  is_some,
}
use zephyr_remote_openocd.Outcome.{Outcome, CleanupReport}
use zephyr_remote_openocd.Lifecycle.{Attempt, settled, terminating, attempt_result}
use zephyr_remote_openocd.Lifecycle.Invariant.{Agrees}
use zephyr_remote_openocd.Lifecycle.Authority.{is_unsettled}
use zephyr_remote_openocd.Lifecycle.Authority
use zephyr_remote_openocd.Helper.{ChildAcquisition, ChildSettlement, work, System, HelperSession}
use zephyr_remote_openocd.Helper.Logic.{Returns, returned, then-Returns, when-Returns}
use zephyr_remote_openocd.Helper.Laws.{Laws}
use zephyr_remote_openocd.Helper.Reports.{gone, Quiescent, expected, make_cleanup-expected}
use zephyr_remote_openocd.Helper.Release.{
  child_disposed, dependents_gone, settle_owner, cleanup_report,
}
use zephyr_remote_openocd.Helper.Terminating.{Facts, Ending}
use zephyr_remote_openocd.Helper.Released.{Released}
use zephyr_remote_openocd.Helper.Looking.{
  Looked, Since, look_again, disposed_path-Looked, metadata_left-Since,
}

-- `settle_attempt` of a terminating session, where the producer is quiescent.
record Settles (a : Option Attempt) (o : Outcome) : Type 0 where
  attempt : Option Attempt
  given : Bool
  step : Authority.settle_attempt true true (terminating a o) ≡ (ok given, terminating attempt o)
  agrees : Agrees attempt o
  over : is_unsettled attempt ≡ false
  result : attempt_result attempt ≡ attempt_result a

settle_attempt-Settles : (a : Option Attempt) (o : Outcome) → Agrees a o → Settles a o
unfolding Authority.settle_attempt is_unsettled attempt_result
settle_attempt-Settles none o h = record {
  attempt = none;
  given = false;
  step = refl;
  agrees = h;
  over = refl;
  result = refl;
}
settle_attempt-Settles (some x) o h = record {
  attempt = some (settled (attempt_result (some x)));
  given = true;
  step = refl;
  agrees = ground arith;
  over = refl;
  result = refl;
}

gone-quiescent :
    (o : ChildAcquisition) (c : Option ChildSettlement) (leased : Bool)
    → gone (some o) c leased ≡ true
    → o.producer_quiescent ≡ true
unfolding child_disposed
gone-quiescent o c leased h = ground arith

module _ {S : Type 0} (sys : System S) (laws : Laws sys) (f : Facts) (a : Option Attempt) where
  -- The attempt after `_cleanup_report`: where the child is gone, it is settled.
  pub record Settling (leased noted : Bool) (s : HelperSession S) : Type 0 where
    pub attempt : Option Attempt
    pub ending : Ending f attempt leased noted s
    pub over :
        is_some f.acquisition ≡ true
        → gone f.acquisition f.settlement leased ≡ true
        → is_unsettled attempt ≡ false
    pub unsettled : is_unsettled attempt ≡ true → is_unsettled a ≡ true
    pub result : attempt_result attempt ≡ attempt_result a

  unsettled_now :
      (noted leased : Bool) (s : HelperSession S)
      → (is_some f.acquisition ≡ true → ¬ (gone f.acquisition f.settlement leased ≡ true))
      → Ending f a leased noted s
      → Settling leased noted s
  unsettled_now noted leased s x h = record {
    attempt = a;
    ending = h;
    over = λ p q. absurd (x p q);
    unsettled = λ e. e;
    result = refl;
  }

  settle_of :
      (owner : Option ChildAcquisition)
      → owner ≡ f.acquisition
      → (noted leased : Bool) (s : HelperSession S) → Ending f a leased noted s
      → Returns (settle_owner sys owner s) (λ _. Settling leased noted)
  unfolding settle_owner
  settle_of none e noted leased s h =
      returned tt refl (unsettled_now noted leased s (λ p d. ground arith) h)
  settle_of (some o) e noted leased s h =
      when-Returns (dependents_gone s) _ s
        (λ d.
          let quiescent = gone-quiescent o f.settlement leased (ground (arith, sym e)) in
          let r = settle_attempt-Settles a h.outcome h.agrees in
          returned tt (rw (quiescent, h.phase, r.step) refl) (record {
            attempt = r.attempt;
            ending = record {
              outcome = h.outcome;
              phase = rw (quiescent, h.phase, r.step) refl;
              agrees = r.agrees;
              on_record = h.on_record;
              facts = rw (quiescent, h.phase, r.step) h.facts;
              lease = rw (quiescent, h.phase, r.step) h.lease;
            };
            over = λ _ _. r.over;
            unsettled = λ x. absurd (ground (arith, r.over));
            result = r.result;
          }))
        (λ d. unsettled_now noted leased s (λ p x. ground arith) h)

  settle_owner-Settling :
      (noted leased : Bool) (s : HelperSession S)
      → Ending f a leased noted s
      → Returns (settle_owner sys s.acquisition s) (λ _. Settling leased noted)
  unfolding settle_owner
  settle_owner-Settling noted leased s h =
      settle_of s.acquisition (ap (λ (g : Facts). g.acquisition) h.facts) noted leased s h

  -- What `_cleanup_report` gives, and what it leaves.
  pub record Reported (leased : Bool) (cleanup : CleanupReport) (s : HelperSession S) : Type 0 where
    pub noted : Bool
    pub absent : Bool
    pub left : Bool
    pub reported : cleanup ≡ expected f.acquisition f.settlement leased f.acquired absent left
    pub session : Settling leased noted s
    pub clean :
        noted ≡ true
        ⊎ (((absent && not left) ≡ true) × (gone f.acquisition f.settlement leased ≡ true))

  is_clean :
      (noted leased absent left : Bool) (s : HelperSession S)
      → Released sys laws f a noted leased s
      → noted ≡ true ⊎ absent ≡ true
      → noted ≡ true ⊎ not left ≡ true
      → (now : Bool) × (Ending f a leased now s
          × (now ≡ true
              ⊎ (((absent && not left) ≡ true) × (gone f.acquisition f.settlement leased ≡ true))))
  is_clean noted leased absent left s r h k = elim r.clean [
    | inl e ↦ (true, (e, inl refl))
    | inr (c, locked) ↦ (
      noted,
      (
        r.ending,
        elim h [
          | inl n ↦ inl n
          | inr e ↦ elim k [ inl n ↦ inl n | inr x ↦ inr (ground arith, c.disposed) ]
        ],
      ),
    )
  ]

  now_or :
      {m now absent : Bool}
      → m ≡ true ⊎ absent ≡ true
      → (m ≡ true → now ≡ true)
      → now ≡ true ⊎ absent ≡ true
  now_or h mono = elim h [ inl e ↦ inl (mono e) | inr e ↦ inr e ]

  same_report :
      (leased absent left : Bool) (s : HelperSession S)
      → Ending f a leased false s
      → expected s.acquisition s.settlement s.address_lease s.child_acquired absent left
        ≡ expected f.acquisition f.settlement leased f.acquired absent left
  same_report leased absent left s h = rw h.lease (
      ap (λ (g : Facts). expected g.acquisition g.settlement leased g.acquired absent left) h.facts)

  pub cleanup_report-Reported :
      (leased : Bool) (s : HelperSession S)
      → Quiescent f.settlement
      → Released sys laws f a false leased s
      → Returns (cleanup_report sys s) (Reported leased)
  unfolding cleanup_report
  cleanup_report-Reported leased s q r =
      then-Returns (Looked sys laws f a false leased (laws.there work s.system))
        (disposed_path-Looked sys laws f a work false leased s r)
        (λ absent t k.
          let (m, (released, (mono, e))) = look_again sys laws f a false leased _ absent t k in
          then-Returns (λ left. Since sys laws f a m leased (not left))
            (metadata_left-Since sys laws f a m leased t released)
            (λ left u (m', (again, (mono', e'))).
              let (now, (ending, clean)) =
                is_clean m' leased absent left u again (now_or e mono') e' in
              then-Returns (λ _. Settling leased now) (settle_owner-Settling now leased u ending)
                (λ _ v n.
                  returned
                    (expected s.acquisition s.settlement s.address_lease s.child_acquired absent
                      left)
                    (make_cleanup-expected s.acquisition s.settlement s.address_lease
                      s.child_acquired absent left (ground (arith, r.ending.facts))
                      (λ x. k.1.0 (r.kept (ground (arith, r.ending.facts, r.ending.lease)))))
                    (record {
                      noted = now;
                      absent = absent;
                      left = left;
                      reported = same_report leased absent left s r.ending;
                      session = n;
                      clean = clean;
                    }))))
