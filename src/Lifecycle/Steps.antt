-- ===== src/Lifecycle/Steps.antt =====
-- The calls of the coordinator on one `LifecycleAuthority`, in any order.
use zephyr_remote_openocd.Shared.{String, Bool, Option, List, [], ◌∷◌, ℤ}
use zephyr_remote_openocd.Outcome.{Trigger, Diagnostic, CleanupReport, LogReport}
use zephyr_remote_openocd.Lifecycle.{StartupRequest, LifecyclePhase}
use zephyr_remote_openocd.Lifecycle.Authority

pub data Operation : Type 0 where
  start : StartupRequest → Operation
  enter_attempt : Bool → Operation
  adopt_attempt : Operation
  observe_evidence : String → Operation
  ready : Bool → Bool → Operation
  observe_child_exit : ℤ → Operation
  record_child_termination : Operation
  settle_attempt : Bool → Bool → Operation
  terminate : Trigger → Option Diagnostic → Operation
  freeze : CleanupReport → Option LogReport → Operation

-- The phase after a call, also where the call raised.
unfoldable pub step : Operation → LifecyclePhase → LifecyclePhase
step (start request) s = (Authority.start request s).1
step (enter_attempt admitted) s = (Authority.enter_attempt admitted s).1
step adopt_attempt s = (Authority.adopt_attempt s).1
step (observe_evidence name) s = (Authority.observe_evidence name s).1
step (ready live admitted) s = (Authority.ready live admitted s).1
step (observe_child_exit returncode) s = (Authority.observe_child_exit returncode s).1
step record_child_termination s = (Authority.record_child_termination s).1
step (settle_attempt quiescent disposed) s = (Authority.settle_attempt quiescent disposed s).1
step (terminate trigger failure) s = (Authority.terminate trigger failure s).1
step (freeze cleanup log) s = (Authority.freeze cleanup log s).1

unfoldable pub run : LifecyclePhase → List Operation → LifecyclePhase
run s [] = s
run s (op ∷ ops) = run (step op s) ops
