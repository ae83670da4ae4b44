-- ===== src/Outcome/Failures.antt =====
-- How an outcome takes up failures in the order of their arrival.
use zephyr_remote_openocd.Shared.{
  ◌≡◌, refl, Bool, true, false, none, some, List, [], ◌∷◌, ◌++◌, arith, is_some, Result, ok, raised,
  append_assoc, append-nil,
}
use zephyr_remote_openocd.Outcome.{
  Diagnostic, Outcome, needs_failure, is_child_exit, child_failure_is_primary, with_failure,
}

-- What `Outcome.__post_init__` asks of an outcome.
pub record IsValid (o : Outcome) : Type 0 where
  pub failure_given : needs_failure o.trigger ≡ true → is_some o.primary_failure ≡ true
  pub result_given : is_child_exit o.trigger ≡ true → is_some o.child_result ≡ true

-- `outcome` after `with_failure` for each failure of a list.
pub with_failures : Outcome → List Diagnostic → Result Outcome
with_failures o [] = ok o
with_failures o (f ∷ fs) = elim (with_failure o f) [
  | ok o' ↦ with_failures o' fs
  | raised e ↦ raised e
]

-- The failure is established: by a recorded failure, or by a child that failed by itself.
abbrev pub is_established : Outcome → Bool
is_established o = elim o.primary_failure [ none ↦ child_failure_is_primary o | some f ↦ true ]

module _ (o : Outcome) (f : Diagnostic) (v : IsValid o) where
  -- A first failure becomes the primary one.
  pub with_failure-first :
      is_established o ≡ false → with_failure o f ≡ ok (record o { primary_failure = some f })
  unfolding with_failure
  with_failure-first h = ground (arith, v.result_given)

  -- A later one is appended to the diagnostics.
  pub with_failure-later :
      is_established o ≡ true
      → with_failure o f ≡ ok (record o { diagnostics = o.diagnostics ++ (f ∷ []) })
  unfolding with_failure
  with_failure-later h = ground (arith, v.result_given, v.failure_given)

-- Once a failure is established, every later one is appended, in the order of arrival.
with_failures-established :
    (o : Outcome) (fs : List Diagnostic)
    → IsValid o
    → is_established o ≡ true
    → with_failures o fs ≡ ok (record o { diagnostics = o.diagnostics ++ fs })
unfolding with_failures child_failure_is_primary
with_failures-established o [] v h = rw append-nil
with_failures-established o (f ∷ fs) v h =
    rw (with_failure-later o f v h, with_failures)
      (rw
        (with_failures-established (record o { diagnostics = o.diagnostics ++ (f ∷ []) }) fs
          (record { failure_given = v.failure_given; result_given = v.result_given }) h)
        (rw append_assoc))

-- From an outcome with no established failure, the first failure of a sequence is the primary one
-- and all others are its diagnostics in the order of arrival.
pub with_failures-fresh :
    (o : Outcome) (f : Diagnostic) (fs : List Diagnostic)
    → IsValid o
    → is_established o ≡ false
    → with_failures o (f ∷ fs)
      ≡ ok (record o { primary_failure = some f; diagnostics = o.diagnostics ++ fs })
unfolding with_failures
with_failures-fresh o f fs v h =
    rw (with_failure-first o f v h, with_failures)
      (with_failures-established (record o { primary_failure = some f }) fs
        (record { failure_given = λ e. refl; result_given = v.result_given }) refl)
