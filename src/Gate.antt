-- ===== src/Gate.antt =====
-- `AdmissionGate` of controller/admission.py, and the forwards of controller/forwarding_spec.py that
-- it compares.
mod Tests
pub mod Entry
pub mod History
use zephyr_remote_openocd.Shared.{
  ℕ, ◌+◌, String, ◌≡◌, ◌↔◌, Bool, true, false, not, ◌&&◌, ◌||◌, Option, none, some, List, [], arith,
  Eq, string_eq, nat_beq, if◌then◌else◌, ◌==◌, subset, is_none, Result, ok, raised, launch_denied,
  Exec,
}
use zephyr_remote_openocd.Outcome.{Diagnostic}

-- `ForwardSpec`, whose ports `__post_init__` has found to be in 1..65535.
pub record ForwardSpec : Type 0 where
  pub name : String
  pub local_port : ℕ
  pub remote_port : ℕ

abbrev pub forward_beq : ForwardSpec → ForwardSpec → Bool
forward_beq a b =
    (a.name == b.name) && (nat_beq a.local_port b.local_port && nat_beq a.remote_port b.remote_port)

pub forward_beq_iff : (a b : ForwardSpec) → (forward_beq a b ≡ true) ↔ (a ≡ b)
forward_beq_iff a b = ground (arith, string_eq.beq_iff a.name b.name)

instance abbrev pub forward_eq : Eq ForwardSpec
forward_eq = record { beq = forward_beq; beq_iff = forward_beq_iff }

pub data AdmissionPhase : Type 0 where
  opening active cancelling ended : AdmissionPhase

pub record AdmissionGate : Type 0 where
  pub phase : AdmissionPhase
  pub ticket : Option ℕ
  pub required : List ForwardSpec
  pub forwarded : List ForwardSpec
  pub remote_ready : Bool
  pub failure : Option Diagnostic

-- `AdmissionGate.__init__`
unfoldable pub new : AdmissionGate
new = record {
  phase = opening;
  ticket = none;
  required = [];
  forwarded = [];
  remote_ready = false;
  failure = none;
}

unfoldable pub is_over : AdmissionPhase → Bool
is_over opening = false
is_over active = false
is_over cancelling = true
is_over ended = true

unfoldable pub is_opening : AdmissionPhase → Bool
is_opening opening = true
is_opening _ = false

-- `(self._ticket or 0) + 1`
unfoldable pub next_ticket : Option ℕ → ℕ
next_ticket none = 1
next_ticket (some n) = n + 1

unfoldable pub prepare : List ForwardSpec → Exec AdmissionGate ℕ
unfolding is_over next_ticket
prepare required g =
    if is_over g.phase
    then (raised (launch_denied "operation no longer permits dependent launch"), g)
    else (
      ok (next_ticket g.ticket),
      record g { ticket = some (next_ticket g.ticket); required = required; phase = opening },
    )

unfoldable pub observe_remote_ready : AdmissionGate → AdmissionGate
observe_remote_ready g = record g { remote_ready = true }

unfoldable pub observe_forwarded : List ForwardSpec → AdmissionGate → AdmissionGate
observe_forwarded forwards g = record g { forwarded = forwards }

abbrev pub holds : Option ℕ → ℕ → Bool
holds none t = false
holds (some n) t = nat_beq n t

unfoldable pub enter : ℕ → AdmissionGate → Bool × AdmissionGate
unfolding is_opening
enter ticket g =
    if not (is_opening g.phase)
      || (not (holds g.ticket ticket)
          || (not g.remote_ready || not (subset g.required g.forwarded)))
    then (false, g)
    else (true, record g { phase = active })

unfoldable pub cancel : AdmissionGate → AdmissionGate
cancel g = elim g.phase [ ended ↦ g | _ ↦ record g { phase = cancelling } ]

unfoldable pub fail : Diagnostic → AdmissionGate → AdmissionGate
unfolding cancel
fail f g = if is_none g.failure then cancel (record g { failure = some f }) else cancel g

unfoldable pub end : AdmissionGate → AdmissionGate
end g = record g { phase = ended }
