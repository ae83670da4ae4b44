-- ===== src/Gate/History.antt =====
-- What was called before a ticket is let in.
use zephyr_remote_openocd.Shared.{
  ℕ, ◌≡◌, refl, ap, ◌∙◌, Bool, true, false, ◌||◌, List, [], ◌∷◌, arith, subset, Bool-cases, inl,
  inr, any,
}
use zephyr_remote_openocd.Gate.{
  ForwardSpec, forward_eq, AdmissionGate, new, is_over, prepare, observe_remote_ready,
  observe_forwarded, enter, cancel, fail, end,
}
use zephyr_remote_openocd.Gate.Entry.{
  Call, prepares, observes_ready, observes_forwarded, step, run, run-over,
}

note_required : Call → List ForwardSpec → List ForwardSpec
note_required (prepares forwards) old = forwards
note_required _ old = old

note_forwarded : Call → List ForwardSpec → List ForwardSpec
note_forwarded (observes_forwarded forwards) old = forwards
note_forwarded _ old = old

-- The forwards that the calls last required, and those that they last observed.
pub last_required : List ForwardSpec → List Call → List ForwardSpec
last_required old [] = old
last_required old (c ∷ cs) = last_required (note_required c old) cs

pub last_forwarded : List ForwardSpec → List Call → List ForwardSpec
last_forwarded old [] = old
last_forwarded old (c ∷ cs) = last_forwarded (note_forwarded c old) cs

abbrev pub reports_ready : Call → Bool
reports_ready observes_ready = true
reports_ready _ = false

module _ (c : Call) (g : AdmissionGate) where
  step-forwarded : (step c g).forwarded ≡ note_forwarded c g.forwarded
  unfolding step note_forwarded prepare observe_remote_ready observe_forwarded enter cancel fail end
  step-forwarded = ground arith

  step-ready : (step c g).remote_ready ≡ (reports_ready c || g.remote_ready)
  unfolding step prepare observe_remote_ready observe_forwarded enter cancel fail end
  step-ready = ground arith

  step-required :
      is_over (step c g).phase ≡ false → (step c g).required ≡ note_required c g.required
  unfolding step note_required prepare observe_remote_ready observe_forwarded enter cancel fail end
      is_over
  step-required h = ground arith

run-forwarded :
    (g : AdmissionGate) (cs : List Call) → (run g cs).forwarded ≡ last_forwarded g.forwarded cs
unfolding run last_forwarded
run-forwarded g [] = refl
run-forwarded g (c ∷ cs) =
    run-forwarded (step c g) cs
    ∙ ap (λ (fs : List ForwardSpec). last_forwarded fs cs) (step-forwarded c g)

run-ready :
    (g : AdmissionGate) (cs : List Call)
    → (run g cs).remote_ready ≡ (any cs reports_ready || g.remote_ready)
unfolding run
run-ready g [] = refl
run-ready g (c ∷ cs) = ground (arith, run-ready (step c g) cs, step-ready c g)

run-required :
    (g : AdmissionGate) (cs : List Call)
    → is_over (run g cs).phase ≡ false
    → (run g cs).required ≡ last_required g.required cs
unfolding run last_required
run-required g [] h = refl
run-required g (c ∷ cs) h = elim (Bool-cases (is_over (step c g).phase)) [
  | inl over ↦ absurd (ground (arith, run-over (step c g) cs over))
  | inr going ↦
      run-required (step c g) cs h
      ∙ ap (λ (fs : List ForwardSpec). last_required fs cs) (step-required c g going)
]

entered :
    (t : ℕ) (g : AdmissionGate)
    → (enter t g).0 ≡ true
    → (is_over g.phase ≡ false) × (g.remote_ready ≡ true) × (subset g.required g.forwarded ≡ true)
unfolding enter is_over
entered t g h = ground arith

-- A ticket is let in only after READY was observed, and only while the forwards of the last prepared
-- launch are all among those that were observed last.
pub enter_needs :
    (t : ℕ) (cs : List Call)
    → (enter t (run new cs)).0 ≡ true
    → (any cs reports_ready ≡ true) × (subset (last_required [] cs) (last_forwarded [] cs) ≡ true)
unfolding new
enter_needs t cs h =
    let (going, ready, covered) = entered t (run new cs) h in
    (
      ground (arith, run-ready new cs, ready),
      rw (← run-required new cs going, ← run-forwarded new cs) covered,
    )
