-- ===== src/Helper/Freeze.antt =====
-- The log report and the last step of the lifecycle, `freeze`, for a cleanup report at hand.
use zephyr_remote_openocd.Shared.{
  ◌≡◌, refl, sym, ap, ◌∙◌, Bool, true, false, not, ◌&&◌, Option, none, some, [], arith, Result, ok,
  raised, Result-cases, ◌||◌, inl, inr, ◌⊎◌, is_some, value_error,
}
use zephyr_remote_openocd.Outcome.{
  Outcome, CleanupReport, ChildResult, LogReport, make_log_report, make_snapshot, child_unconfirmed,
  never_acquired, log_complete, cleanup_confirmed,
}
use zephyr_remote_openocd.Lifecycle.{Attempt, terminating, closed, attempt_result}
use zephyr_remote_openocd.Lifecycle.Authority.{is_unsettled}
use zephyr_remote_openocd.Lifecycle.Authority
use zephyr_remote_openocd.Relay.{LogRelay, decide}
use zephyr_remote_openocd.Relay
use zephyr_remote_openocd.Helper.{System, HelperSession}
use zephyr_remote_openocd.Helper.Recording.{authority}
use zephyr_remote_openocd.Helper.Reports.{gone, expected}
use zephyr_remote_openocd.Helper.Release.{log_requested, dependents_gone, log_report, relay_report}
use zephyr_remote_openocd.Helper.Terminating.{is_noted, Facts, Ending, carry}
use zephyr_remote_openocd.Helper.Logic.{Raises, Returns, returned, weaker, then-Returns, if-Returns}

freeze-lem :
    (a : Option Attempt) (o : Outcome) (c : CleanupReport) (log : Option LogReport)
    → (is_unsettled a ≡ true → child_unconfirmed c.child_disposal ≡ true)
    → (never_acquired c.child_disposal ≡ true → is_some o.child_result ≡ false)
    → (log_complete log ≡ true → child_unconfirmed c.child_disposal ≡ false)
    → (cleanup_confirmed c ≡ false → is_noted o ≡ true)
    → Authority.freeze c log (terminating a o) ≡ (
      ok (record { outcome = o; cleanup = c; log = log }),
      closed a (record { outcome = o; cleanup = c; log = log }) [],
    )
unfolding Authority.freeze make_snapshot
freeze-lem a o c log p q r t = ground arith

-- A complete log report with an unconfirmed disposal of the child is refused.
freeze-refused :
    (a : Option Attempt) (o : Outcome) (c : CleanupReport) (log : Option LogReport)
    → log_complete log ≡ true
    → child_unconfirmed c.child_disposal ≡ true
    → Authority.freeze c log (terminating a o) ≡ (
      raised (value_error "a complete log requires confirmed or no child acquisition"),
      terminating a o,
    )
unfolding Authority.freeze make_snapshot
freeze-refused a o c log p q = ground arith

-- START requested the log channel, there is no relay, and the child or its address lease is left.
abbrev pub unreportable : {S : Type 0} → HelperSession S → Bool
unreportable s = log_requested s.request && (not (is_some s.log) && not (dependents_gone s))

abbrev fine : Bool → Result LogReport → Bool
fine confirmed (ok r) = not r.complete || confirmed
fine confirmed (raised e) = false

report-fine :
    (confirmed : Bool) (relay : LogRelay) → fine confirmed (Relay.report confirmed relay).0 ≡ true
unfolding Relay.report decide make_log_report
report-fine confirmed relay = ground arith

-- The log report of a relay is there, and claims completeness for a confirmed disposal only.
report-Returns :
    (confirmed : Bool) (relay : LogRelay)
    → Returns (Relay.report confirmed relay) (λ r _. r.complete ≡ true → confirmed ≡ true)
report-Returns confirmed relay = elim (Result-cases (Relay.report confirmed relay).0) [
  | inl (r, e) ↦ returned r e (λ c. ground (arith, report-fine confirmed relay))
  | inr (x, e) ↦ absurd (ground (arith, report-fine confirmed relay))
]

module _ {S : Type 0} (sys : System S) where
  relay_report-Returns :
      (f : Facts) (a : Option Attempt) (leased noted confirmed : Bool) (log : Option LogRelay)
      (s : HelperSession S)
      → is_some s.log ≡ is_some log
      → (is_some log ≡ false → confirmed ≡ true)
      → Ending f a leased noted s
      → Returns
          (relay_report sys log confirmed s)
          (λ log t. Ending f a leased noted t × (log_complete log ≡ true → confirmed ≡ true))
  unfolding relay_report make_log_report
  relay_report-Returns f a leased noted confirmed none s e h k = returned _ refl (k, λ _. h refl)
  relay_report-Returns f a leased noted confirmed (some relay) s e h k =
      then-Returns (λ r t. Ending f a leased noted t × (r.complete ≡ true → confirmed ≡ true))
        (returned (report-Returns confirmed relay).value (report-Returns confirmed relay).done (
          carry sys f a leased noted s _ refl (ground arith) refl k,
          (report-Returns confirmed relay).post,
        ))
        (λ r t x. returned (some r) refl x)

  pub log_report-Returns :
      (f : Facts) (a : Option Attempt) (leased noted : Bool) (c : CleanupReport)
      (s : HelperSession S)
      → (log_requested f.request ≡ true
          → f.logged ≡ false
          → child_unconfirmed c.child_disposal ≡ false)
      → Ending f a leased noted s
      → Returns (log_report sys c s) (λ log t.
        Ending f a leased noted t
        × (log_complete log ≡ true → child_unconfirmed c.child_disposal ≡ false))
  unfolding log_report
  log_report-Returns f a leased noted c s h k =
      if-Returns (log_requested s.request) _ _ s
        (λ e.
          weaker
            (relay_report-Returns f a leased noted (not (child_unconfirmed c.child_disposal)) s.log
              s refl (λ x. ground (arith, h, k.facts)) k)
            (λ log t x. (x.0, λ done. ground (arith, x.1 done))))
        (λ _. returned none refl (k, λ x. absurd (ground arith)))

  -- The cleanup report that was made is right about the child, and an unconfirmed one is on record.
  pub record Reporting (c : CleanupReport) (f : Facts) (a b : Option Attempt) (leased noted : Bool)
      : Type 0 where
    pub settled : is_unsettled b ≡ true → child_unconfirmed c.child_disposal ≡ true
    pub acquired : never_acquired c.child_disposal ≡ true → is_some (attempt_result b) ≡ false
    pub disposed : child_unconfirmed c.child_disposal ≡ not (gone f.acquisition f.settlement leased)
    pub on_record : cleanup_confirmed c ≡ false → noted ≡ true

  pub reporting :
      (f : Facts) (a b : Option Attempt) (leased absent left noted : Bool)
      → (is_some (attempt_result a) ≡ true → f.acquired ≡ true)
      → (is_unsettled a ≡ true → is_some f.acquisition ≡ true)
      → (is_some f.acquisition ≡ true
          → gone f.acquisition f.settlement leased ≡ true
          → is_unsettled b ≡ false)
      → (is_unsettled b ≡ true → is_unsettled a ≡ true)
      → attempt_result b ≡ attempt_result a
      → noted ≡ true
        ⊎ (((absent && not left) ≡ true) × (gone f.acquisition f.settlement leased ≡ true))
      → Reporting
          (expected f.acquisition f.settlement leased f.acquired absent left)
          f
          a
          b
          leased
          noted
  unfolding cleanup_confirmed
  reporting f a b leased absent left noted p q r t e h = record {
    settled = ground arith;
    acquired = ground arith;
    disposed = ground arith;
    on_record = elim h [ inl n ↦ λ _. n | inr x ↦ λ y. absurd (ground arith) ];
  }

  pub dependents_of :
      (f : Facts) (b : Option Attempt) (leased noted : Bool) (s : HelperSession S)
      → Ending f b leased noted s
      → dependents_gone s ≡ gone f.acquisition f.settlement leased
  dependents_of f b leased noted s h = ground arith

  relay_missing :
      (f : Facts) (a : Option Attempt) (leased noted confirmed : Bool) (log : Option LogRelay)
      (s : HelperSession S)
      → is_some log ≡ false
      → Ending f a leased noted s
      → Returns
          (relay_report sys log confirmed s)
          (λ log t. Ending f a leased noted t × (log_complete log ≡ true))
  unfolding relay_report make_log_report
  relay_missing f a leased noted confirmed none s e h = returned _ refl (h, refl)
  relay_missing f a leased noted confirmed (some r) s e h = absurd (ground arith)

  pub log_report-missing :
      (f : Facts) (a : Option Attempt) (leased noted : Bool) (c : CleanupReport)
      (s : HelperSession S)
      → log_requested f.request ≡ true
      → f.logged ≡ false
      → Ending f a leased noted s
      → Returns
          (log_report sys c s)
          (λ log t. Ending f a leased noted t × (log_complete log ≡ true))
  unfolding log_report
  log_report-missing f a leased noted c s p q h =
      if-Returns (log_requested s.request) _ _ s
        (λ _.
          relay_missing f a leased noted (not (child_unconfirmed c.child_disposal)) s.log s
            (ground (arith, h.facts)) h)
        (λ e. absurd (ground (arith, h.facts)))

  unreportable_of :
      (f : Facts) (b : Option Attempt) (leased noted : Bool) (s : HelperSession S)
      → Ending f b leased noted s
      → unreportable s ≡ (
          log_requested f.request && (not f.logged && not (gone f.acquisition f.settlement leased)))
  unreportable_of f b leased noted s h = ground arith

  pub freeze-Raises :
      (f : Facts) (b : Option Attempt) (leased noted : Bool) (c : CleanupReport)
      (log : Option LogReport) (s : HelperSession S)
      → log_complete log ≡ true
      → child_unconfirmed c.child_disposal ≡ true
      → (log_requested f.request && (not f.logged && not (gone f.acquisition f.settlement leased)))
        ≡ true
      → Ending f b leased noted s
      → Raises
          (authority (Authority.freeze c log) s)
          (value_error "a complete log requires confirmed or no child acquisition")
          (λ t. (unreportable t ≡ true) × ((o : Outcome) × (t.lifecycle ≡ terminating b o)))
  freeze-Raises f b leased noted c log s p q r k =
      let e = freeze-refused b k.outcome c log p q in
      record {
        done = rw (k.phase, e) refl;
        post = (unreportable_of f b leased noted s k ∙ r, (k.outcome, rw (k.phase, e) refl));
      }

  pub freeze-Returns :
      (f : Facts) (a b : Option Attempt) (leased noted : Bool) (c : CleanupReport)
      (log : Option LogReport) (s : HelperSession S)
      → Reporting c f a b leased noted
      → (log_complete log ≡ true → child_unconfirmed c.child_disposal ≡ false)
      → Ending f b leased noted s
      → Returns (authority (Authority.freeze c log) s) (λ snapshot t.
        (t.lifecycle ≡ closed b snapshot [])
        × ((child_unconfirmed snapshot.cleanup.child_disposal ≡ not (dependents_gone t))
            × ((cleanup_confirmed snapshot.cleanup ≡ false → is_noted snapshot.outcome ≡ true)
                × (unreportable t ≡ (
                    log_requested f.request
                    && (not f.logged && not (gone f.acquisition f.settlement leased)))))))
  freeze-Returns f a b leased noted c log s r h k =
      let e =
        freeze-lem b k.outcome c log r.settled
          (λ x. ap (λ (o : Option ChildResult). is_some o) k.agrees.result ∙ r.acquired x) h
          (λ x. k.on_record (r.on_record x)) in
      returned (record { outcome = k.outcome; cleanup = c; log = log }) (rw (k.phase, e) refl)
        (
          rw (k.phase, e) refl,
          (
            r.disposed ∙ ap not (sym (dependents_of f b leased noted s k)),
            (λ x. k.on_record (r.on_record x), unreportable_of f b leased noted s k),
          ),
        )
