-- ===== src/Gate/Entry.antt =====
-- Which launches the gate lets in, over any calls.
use zephyr_remote_openocd.Shared.{
  ℕ, ◌+◌, ◌≤◌, ◌≡◌, Bool, true, false, ◌&&◌, some, List, [], ◌∷◌, arith, nat_beq, raised,
  launch_denied, Bool-cases, inl, inr,
}
use zephyr_remote_openocd.Outcome.{Diagnostic}
use zephyr_remote_openocd.Gate.{
  ForwardSpec, forward_eq, AdmissionGate, is_over, is_opening, prepare, observe_remote_ready,
  observe_forwarded, enter, cancel, fail, end,
}

pub data Call : Type 0 where
  prepares : List ForwardSpec → Call
  observes_ready : Call
  observes_forwarded : List ForwardSpec → Call
  enters : ℕ → Call
  cancels : Call
  fails : Diagnostic → Call
  ends : Call

unfoldable pub step : Call → AdmissionGate → AdmissionGate
step (prepares required) g = (prepare required g).1
step observes_ready g = observe_remote_ready g
step (observes_forwarded forwards) g = observe_forwarded forwards g
step (enters t) g = (enter t g).1
step cancels g = cancel g
step (fails f) g = fail f g
step ends g = end g

unfoldable pub run : AdmissionGate → List Call → AdmissionGate
run g [] = g
run g (c ∷ cs) = run (step c g) cs

-- The calls after which the operation is over.
abbrev pub closes : Call → Bool
closes cancels = true
closes (fails f) = true
closes ends = true
closes _ = false

closes-over : (c : Call) (g : AdmissionGate) → closes c ≡ true → is_over (step c g).phase ≡ true
unfolding step cancel fail end is_over
closes-over c g h = ground arith

step-over :
    (c : Call) (g : AdmissionGate) → is_over g.phase ≡ true → is_over (step c g).phase ≡ true
unfolding step prepare observe_remote_ready observe_forwarded enter cancel fail end
step-over c g h = ground arith

pub run-over :
    (g : AdmissionGate) (cs : List Call) → is_over g.phase ≡ true → is_over (run g cs).phase ≡ true
unfolding run
run-over g [] h = h
run-over g (c ∷ cs) h = run-over (step c g) cs (step-over c g h)

over_refuses :
    (g : AdmissionGate) (t : ℕ) (required : List ForwardSpec)
    → is_over g.phase ≡ true
    → ((enter t g).0 ≡ false)
      × ((prepare required g).0
          ≡ raised (launch_denied "operation no longer permits dependent launch"))
unfolding enter prepare
over_refuses g t required h = ground arith

-- After a cancellation, a failure or the end, whatever is called later, no ticket is let in and no
-- launch can be prepared.
pub closed_refuses :
    (g : AdmissionGate) (c : Call) (cs : List Call) (t : ℕ) (required : List ForwardSpec)
    → closes c ≡ true
    → ((enter t (run g (c ∷ cs))).0 ≡ false)
      × ((prepare required (run g (c ∷ cs))).0
          ≡ raised (launch_denied "operation no longer permits dependent launch"))
unfolding run
closed_refuses g c cs t required h =
    over_refuses (run (step c g) cs) t required (run-over (step c g) cs (closes-over c g h))

-- The ticket `t` is used up: a later one was given out, or the phase is no longer opening.
Spent : ℕ → AdmissionGate → Type 0
Spent t g = (n : ℕ) × (g.ticket ≡ some n) × (t ≤ n) × ((nat_beq n t && is_opening g.phase) ≡ false)

step-Spent : (t : ℕ) (c : Call) (g : AdmissionGate) → Spent t g → Spent t (step c g)
unfolding Spent step prepare observe_remote_ready observe_forwarded enter cancel fail end
step-Spent t (prepares required) g (n, e, le, h) = elim (Bool-cases (is_over g.phase)) [
  | inl o ↦ (n, ground arith, le, ground arith)
  | inr o ↦ (n + 1, ground arith, omega arith, ground arith)
]
step-Spent t c g (n, e, le, h) = (n, ground arith, le, ground arith)

run-Spent : (t : ℕ) (g : AdmissionGate) (cs : List Call) → Spent t g → Spent t (run g cs)
unfolding run
run-Spent t g [] h = h
run-Spent t g (c ∷ cs) h = run-Spent t (step c g) cs (step-Spent t c g h)

Spent-enter : (t : ℕ) (g : AdmissionGate) → Spent t g → (enter t g).0 ≡ false
unfolding Spent enter
Spent-enter t g (n, e, le, h) = ground arith

enter-Spent : (t : ℕ) (g : AdmissionGate) → (enter t g).0 ≡ true → Spent t (enter t g).1
unfolding Spent enter
enter-Spent t g h = (t, ground arith, omega arith, ground arith)

-- A ticket that was let in is never let in again, whatever is called in between.
pub enters_once :
    (t : ℕ) (g : AdmissionGate) (cs : List Call)
    → (enter t g).0 ≡ true
    → (enter t (run (enter t g).1 cs)).0 ≡ false
enters_once t g cs h =
    Spent-enter t (run (enter t g).1 cs) (run-Spent t (enter t g).1 cs (enter-Spent t g h))
