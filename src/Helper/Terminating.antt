-- ===== src/Helper/Terminating.antt =====
-- The methods of the session while its lifecycle is terminating: they return, the phase stays, and a
-- failure that is on record stays on record.
use zephyr_remote_openocd.Shared.{
  ◌≡◌, refl, Bool, true, false, ◌||◌, Option, some, List, [], ◌∷◌, ◌++◌, arith, String, Error,
  Result, ok, is_some, string_eq, Bool-cases, inl, inr, ◌⊎◌,
}
use zephyr_remote_openocd.Outcome.{
  Trigger, helper_failure, Diagnostic, Outcome, make_outcome, with_failure, is_child_exit,
}
use zephyr_remote_openocd.Outcome.Failures.{is_established, with_failure-first, with_failure-later}
use zephyr_remote_openocd.Lifecycle.{Attempt, terminating, current_attempt}
use zephyr_remote_openocd.Lifecycle.Invariant.{Agrees}
use zephyr_remote_openocd.Lifecycle.Authority
use zephyr_remote_openocd.Helper.{ChildAcquisition, ChildSettlement, Request, System, HelperSession}
use zephyr_remote_openocd.Helper.Recording.{
  attempt, authority, call, lifecycle_failure, cleanup_failure,
}
use zephyr_remote_openocd.Helper.Logic.{Returns, returned, weaker, attempt-Returns}

abbrev nonempty : List Diagnostic → Bool
nonempty [] = false
nonempty (d ∷ ds) = true

nonempty-append : (ds : List Diagnostic) (d : Diagnostic) → nonempty (ds ++ (d ∷ [])) ≡ true
nonempty-append [] d = refl
nonempty-append (e ∷ ds) d = refl

-- `outcome.primary_failure is not None or outcome.diagnostics`
abbrev pub is_noted : Outcome → Bool
is_noted o = is_some o.primary_failure || nonempty o.diagnostics

-- The fields that no method writes after the attempt is over; `logged` says that there is a relay.
pub record Facts : Type 0 where
  pub request : Option Request
  pub acquisition : Option ChildAcquisition
  pub settlement : Option ChildSettlement
  pub acquired : Bool
  pub logged : Bool

abbrev pub facts : {S : Type 0} → HelperSession S → Facts
facts s = record {
  request = s.request;
  acquisition = s.acquisition;
  settlement = s.settlement;
  acquired = s.child_acquired;
  logged = is_some s.log;
}

-- The session is terminating with this attempt, and where `noted` holds it has a failure on record.
pub record Ending {S : Type 0} (f : Facts) (attempt : Option Attempt) (leased noted : Bool)
    (s : HelperSession S) : Type 0 where
  pub outcome : Outcome
  pub phase : s.lifecycle ≡ terminating attempt outcome
  pub agrees : Agrees attempt outcome
  pub on_record : noted ≡ true → is_noted outcome ≡ true
  pub facts : facts s ≡ f
  pub lease : s.address_lease ≡ leased

with_failure-noted :
    (o : Outcome) (d : Diagnostic) (a : Option Attempt)
    → Agrees a o
    → (o' : Outcome) × ((with_failure o d ≡ ok o') × ((is_noted o' ≡ true) × Agrees a o'))
with_failure-noted o d a h = elim (Bool-cases (is_established o)) [
  | inl e ↦ (
    record o { diagnostics = o.diagnostics ++ (d ∷ []) },
    (with_failure-later o d h.valid e, ground (arith, nonempty-append o.diagnostics d)),
  )
  | inr e ↦
      (record o { primary_failure = some d }, (with_failure-first o d h.valid e, ground arith))
]

terminate-noted :
    (t : Trigger) (d : Diagnostic) (a : Option Attempt) (o : Outcome)
    → Agrees a o
    → is_child_exit t ≡ false
    → (o' : Outcome) × ((Authority.terminate t (some d) (terminating a o)
          ≡ (ok tt, terminating a o'))
        × ((is_noted o' ≡ true) × Agrees a o'))
unfolding Authority.terminate make_outcome current_attempt
terminate-noted t d a o h e =
    let (o', (made, rest)) = with_failure-noted o d a h in (o', (ground (arith, made), rest))

module _ {S : Type 0} (sys : System S) (f : Facts) (a : Option Attempt) (leased : Bool) where
  abbrev pub Kept : Bool → Unit {0} → HelperSession S → Type 0
  Kept noted u s = Ending f a leased noted s

  abbrev pub Still : Bool → S → Unit {0} → HelperSession S → Type 0
  Still noted system u s = Ending f a leased noted s × (s.system ≡ system)

  pub forget :
      (noted : Bool) (s : HelperSession S) → Ending f a leased true s → Ending f a leased noted s
  forget noted s h = ground arith

  -- What `Ending` reads is the same in both states.
  pub carry :
      (noted : Bool) (s t : HelperSession S)
      → t.lifecycle ≡ s.lifecycle
      → facts t ≡ facts s
      → t.address_lease ≡ s.address_lease
      → Ending f a leased noted s
      → Ending f a leased noted t
  carry noted s t p q r h = ground arith

  pub terminate-Still :
      (t : Trigger) (d : Diagnostic) (noted : Bool) (s : HelperSession S)
      → is_child_exit t ≡ false
      → Ending f a leased noted s
      → Returns (authority (Authority.terminate t (some d)) s) (Still true s.system)
  terminate-Still t d noted s e h =
      let (o', (made, (found, agrees))) = terminate-noted t d a h.outcome h.agrees e in
      returned tt (rw (h.phase, made) refl) (
        record {
          outcome = o';
          phase = rw (h.phase, made) refl;
          agrees = agrees;
          on_record = λ _. found;
          facts = h.facts;
          lease = h.lease;
        },
        refl,
      )

  pub terminate-Kept :
      (t : Trigger) (d : Diagnostic) (noted : Bool) (s : HelperSession S)
      → is_child_exit t ≡ false
      → Ending f a leased noted s
      → Returns (authority (Authority.terminate t (some d)) s) (Kept noted)
  terminate-Kept t d noted s e h =
      weaker (terminate-Still t d noted s e h) (λ _ r k. forget noted r k.0)

  pub lifecycle_failure-Still :
      (t : Trigger) (code : String) (error : Error) (noted : Bool) (s : HelperSession S)
      → is_child_exit t ≡ false
      → Ending f a leased noted s
      → Returns (lifecycle_failure sys t code error s) (Still true s.system)
  unfolding lifecycle_failure
  lifecycle_failure-Still t code error noted s e h =
      terminate-Still t (sys.from_exception code error) noted s e h

  pub cleanup_failure-Still :
      (error : Error) (noted : Bool) (s : HelperSession S)
      → Ending f a leased noted s
      → Returns (cleanup_failure sys error s) (Still true s.system)
  unfolding cleanup_failure is_child_exit
  cleanup_failure-Still error noted s h =
      lifecycle_failure-Still helper_failure "CLEANUP_FAILURE" error noted _ refl
        (carry noted s _ refl refl refl h)

  -- A call of the system that is tried leaves its own state, and its failure is recorded.
  abbrev pub Tried : (S → Result (Unit {0}) × S) → Bool → S → Unit {0} → HelperSession S → Type 0
  Tried m noted system u t =
      Still noted (m system).1 u t × ((m system).0 ≡ ok tt ⊎ Ending f a leased true t)

  pub try-Tried :
      (m : S → Result (Unit {0}) × S) (noted : Bool) (s : HelperSession S)
      → Ending f a leased noted s
      → Returns (attempt (call m) (cleanup_failure sys) s) (Tried m noted s.system)
  try-Tried m noted s h =
      let t : HelperSession S = record s { system = (m s.system).1 } in
      let kept = carry noted s t refl refl refl h in
      attempt-Returns (call m s) (cleanup_failure sys) (λ _ e. ((kept, refl), inl e))
        (λ e _.
          weaker (cleanup_failure-Still e noted t kept)
            (λ _ r k. ((forget noted r k.0, k.1), inr k.0)))
