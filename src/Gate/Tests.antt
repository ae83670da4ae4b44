-- ===== src/Gate/Tests.antt =====
-- A concrete launch, and a cancelled one.
use zephyr_remote_openocd.Shared.{
  ◌≡◌, refl, true, false, List, [], ◌∷◌, raised, launch_denied, any, subset,
}
use zephyr_remote_openocd.Gate.{
  ForwardSpec, forward_eq, new, prepare, observe_remote_ready, observe_forwarded, enter,
}
use zephyr_remote_openocd.Gate.Entry.{
  Call, prepares, observes_ready, observes_forwarded, cancels, run, step, closed_refuses,
  enters_once,
}
use zephyr_remote_openocd.Gate.History.{enter_needs, reports_ready, last_required, last_forwarded}

abbrev gdb : ForwardSpec
gdb = record { name = "gdb"; local_port = 3333; remote_port = 40001 }

abbrev calls : List Call
calls = prepares (gdb ∷ []) ∷ observes_ready ∷ observes_forwarded (gdb ∷ []) ∷ []

entered : (enter 1 (run new calls)).0 ≡ true
unfolding enter run step new prepare observe_remote_ready observe_forwarded
entered = refl

enter_needs_example :
    (any calls reports_ready ≡ true)
    × (subset (last_required [] calls) (last_forwarded [] calls) ≡ true)
enter_needs_example = enter_needs 1 calls entered

enters_once_example : (enter 1 (run (enter 1 (run new calls)).1 calls)).0 ≡ false
enters_once_example = enters_once 1 (run new calls) calls entered

closed_refuses_example :
    ((enter 1 (run (run new calls) (cancels ∷ calls))).0 ≡ false)
    × ((prepare [] (run (run new calls) (cancels ∷ calls))).0
        ≡ raised (launch_denied "operation no longer permits dependent launch"))
closed_refuses_example = closed_refuses (run new calls) cancels calls 1 [] refl
