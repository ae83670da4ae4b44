-- ===== src/Endpoints/Plan.antt =====
-- `SessionPlan` of controller/plan.py, with the fields that its checks read; `uses_log_spool` is that of
-- the process.
use Prim.Native.String.{String}
use zephyr_remote_openocd.Shared.{
  Bool, true, false, not, Option, List, ◌++◌, is_some, subset, Result, ok,
}
use zephyr_remote_openocd.Shared.Chain.{◌>>=◌, ◌>>◌, require}
use zephyr_remote_openocd.Gate.{ForwardSpec, forward_eq}
use zephyr_remote_openocd.Endpoints.{
  is_blank, ListenerSpec, validated_forwards, validated_listeners,
}
use zephyr_remote_openocd.Endpoints.Sets.{listeners}

pub record SessionPlan : Type 0 where
  pub host : String
  pub forwards : List ForwardSpec
  pub auxiliary_forwards : List ForwardSpec
  pub reserved_listeners : List ListenerSpec
  pub log_file : Option String

-- `(self.log_file is not None) == self.process.uses_log_spool`
abbrev pub agree : Bool → Bool → Bool
agree true b = b
agree false b = not b

-- `SessionPlan.__post_init__`
unfoldable pub make_session_plan : Bool → SessionPlan → Result SessionPlan
make_session_plan uses_log_spool p = do
  require (not (is_blank p.host)) "remote host must not be empty"
  require (agree (is_some p.log_file) uses_log_spool)
      "a local log file requires exactly the remote log channel"
  forwards ← validated_forwards p.forwards
  reserved ← validated_listeners p.reserved_listeners
  listening ← listeners forwards
  validated_listeners (listening ++ reserved)
  auxiliary ← validated_forwards p.auxiliary_forwards
  require (subset auxiliary forwards)
      "best-effort forwards must belong to the initial forwarding set"
  ok (record p {
    forwards = forwards;
    auxiliary_forwards = auxiliary;
    reserved_listeners = reserved;
  })

-- `SessionPlan.listeners`
unfoldable pub plan_listeners : SessionPlan → Result (List ListenerSpec)
plan_listeners p = listeners p.forwards >>= λ listening. ok (listening ++ p.reserved_listeners)
