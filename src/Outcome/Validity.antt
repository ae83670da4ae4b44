-- ===== src/Outcome/Validity.antt =====
-- Which outcomes can exist: what `Outcome.__post_init__` of protocol/outcome.py admits.
use zephyr_remote_openocd.Shared.{◌≡◌, Option, List, arith, ok}
use zephyr_remote_openocd.Outcome.{Trigger, Diagnostic, ChildResult, Outcome, make_outcome}
use zephyr_remote_openocd.Outcome.Failures.{IsValid}

-- An outcome that the constructor returns is valid.
pub make_outcome-IsValid :
    (t : Trigger) (f : Option Diagnostic) (d : List Diagnostic) (r : Option ChildResult)
    (o : Outcome)
    → make_outcome t f d r ≡ ok o
    → IsValid o
unfolding make_outcome
make_outcome-IsValid t f d r o h = ground arith
