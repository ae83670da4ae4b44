-- ===== src/Endpoints/Sets.antt =====
-- The listeners of forwards.
use zephyr_remote_openocd.Shared.{List, [], ◌∷◌, nat_eq, string_eq, Result, ok, raised}
use zephyr_remote_openocd.Gate.{ForwardSpec}
use zephyr_remote_openocd.Endpoints.{ListenerSpec, listener}

-- `[f.listener for f in forwards]`
unfoldable pub listeners : List ForwardSpec → Result (List ListenerSpec)
listeners [] = ok []
listeners (f ∷ fs) = elim (listener f) [
  | raised e ↦ raised e
  | ok l ↦ elim (listeners fs) [ raised e ↦ raised e | ok ls ↦ ok (l ∷ ls) ]
]
