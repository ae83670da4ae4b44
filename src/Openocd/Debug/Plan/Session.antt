-- ===== src/Openocd/Debug/Plan/Session.antt =====
-- A debug plan and the session that is planned with it.
use Prim.Native.String.{String}
use zephyr_remote_openocd.Shared.{
  ℕ, ◌≡◌, refl, Bool, true, false, Option, List, [], ◌∷◌, ◌++◌, arith, if◌then◌else◌, is_some,
  subset, subset_weaken, member, unique, all, string_eq, nat_eq, ok, Eq,
}
use zephyr_remote_openocd.Shared.Chain.{bind-ok, then-ok}
use zephyr_remote_openocd.Gate.{ForwardSpec, forward_eq}
use zephyr_remote_openocd.Endpoints.{
  is_blank, ListenerSpec, validated_forwards, validated_listeners, names, listener_names,
  remote_ports, local_ports, listener_ports, listener, make_listener,
}
use zephyr_remote_openocd.Endpoints.Sets.{listeners}
use zephyr_remote_openocd.Endpoints.Plan.{SessionPlan, agree, make_session_plan}
use zephyr_remote_openocd.Openocd.Debug.{
  Texts, DebugInputs, DebugEndpointPlan, validate_debug_inputs, plan_debug_endpoints,
}
use zephyr_remote_openocd.Openocd.Debug.Endpoints.{
  can_listen, Distinct, plan_debug_endpoints-Distinct,
}
use zephyr_remote_openocd.Openocd.Debug.Plan.{
  Numerals, SupportPaths, DebugPlan, auxiliary, readiness_commands, thread_info_enabled,
  server_commands, client_argv, debug_plan_of, build_debug_plan,
}

module _ {ℓ} {A : Type ℓ} ⦃e : Eq A⦄ where
  member-front : (a : A) (xs ys : List A) → member a (xs ++ ys) ≡ false → member a xs ≡ false
  member-front a [] ys h = refl
  member-front a (x ∷ xs) ys h = ground (arith, member-front a xs ys)

  unique-front : (xs ys : List A) → unique (xs ++ ys) ≡ true → unique xs ≡ true
  unique-front [] ys h = refl
  unique-front (x ∷ xs) ys h = ground (arith, unique-front xs ys, member-front x xs ys)

  unique-back : (xs ys : List A) → unique (xs ++ ys) ≡ true → unique ys ≡ true
  unique-back [] ys h = h
  unique-back (x ∷ xs) ys h = ground (arith, unique-back xs ys)

-- The listeners of forwards that can listen.
shown_listeners : List ForwardSpec → List ListenerSpec
shown_listeners [] = []
shown_listeners (f ∷ fs) =
    record { name = f.name; remote_port = f.remote_port } ∷ shown_listeners fs

listeners-can_listen :
    (fs : List ForwardSpec) → all fs can_listen ≡ true → listeners fs ≡ ok (shown_listeners fs)
unfolding listeners listener make_listener shown_listeners
listeners-can_listen [] h = refl
listeners-can_listen (f ∷ fs) h = ground (arith, listeners-can_listen fs)

names-shown_listeners :
    (fs : List ForwardSpec) (ls : List ListenerSpec)
    → (listener_names (shown_listeners fs ++ ls) ≡ names fs ++ listener_names ls)
      × (listener_ports (shown_listeners fs ++ ls) ≡ remote_ports fs ++ listener_ports ls)
unfolding shown_listeners
names-shown_listeners [] ls = (refl, refl)
names-shown_listeners (f ∷ fs) ls = ground (arith, names-shown_listeners fs ls)

auxiliary-subset : (fs : List ForwardSpec) → subset (auxiliary fs) fs ≡ true
unfolding auxiliary
auxiliary-subset [] = refl
auxiliary-subset (f ∷ fs) =
    ground (arith, auxiliary-subset fs, subset_weaken f (auxiliary fs) fs, forward_eq.beq_iff f f)

auxiliary-members :
    (fs : List ForwardSpec) (name : String) (p q : ℕ)
    → ((member name (names fs) ≡ false) → (member name (names (auxiliary fs)) ≡ false))
      × ((member p (local_ports fs) ≡ false) → (member p (local_ports (auxiliary fs)) ≡ false))
      × ((member q (remote_ports fs) ≡ false) → (member q (remote_ports (auxiliary fs)) ≡ false))
unfolding auxiliary
auxiliary-members [] name p q = ground arith
auxiliary-members (f ∷ fs) name p q = ground (arith, auxiliary-members fs name p q)

auxiliary-unique :
    (fs : List ForwardSpec)
    → unique (names fs) ≡ true
    → unique (local_ports fs) ≡ true
    → unique (remote_ports fs) ≡ true
    → (unique (names (auxiliary fs)) ≡ true)
      × (unique (local_ports (auxiliary fs)) ≡ true)
      × (unique (remote_ports (auxiliary fs)) ≡ true)
unfolding auxiliary
auxiliary-unique [] h k l = ground arith
auxiliary-unique (f ∷ fs) h k l =
    ground (arith, auxiliary-unique fs, auxiliary-members fs f.name f.local_port f.remote_port)

module _ (host : String) (log_file : Option String) (uses_log_spool : Bool) where
  -- What the session takes from a debug plan, on a host.
  abbrev pub session_of : List ForwardSpec → List ListenerSpec → SessionPlan
  session_of fs rs = record {
    host = host;
    forwards = fs;
    auxiliary_forwards = auxiliary fs;
    reserved_listeners = rs;
    log_file = log_file;
  }

  make_session_plan-Distinct :
      (p : DebugEndpointPlan)
      → is_blank host ≡ false
      → agree (is_some log_file) uses_log_spool ≡ true
      → Distinct p
      → make_session_plan uses_log_spool (session_of p.forwards p.reserved_listeners)
        ≡ ok (session_of p.forwards p.reserved_listeners)
  unfolding make_session_plan validated_forwards validated_listeners
  make_session_plan-Distinct p named agreed (by_name, by_port, local, listening) =
      let fs = p.forwards in
      let rs = p.reserved_listeners in
      let (shown_names, shown_ports) = names-shown_listeners fs rs in
      let unique_names = unique-front (names fs) (listener_names rs) by_name in
      let unique_ports = unique-front (remote_ports fs) (listener_ports rs) by_port in
      ground (
        arith,
        named,
        agreed,
        local,
        unique_names,
        unique_ports,
        unique-back (names fs) (listener_names rs) by_name,
        unique-back (remote_ports fs) (listener_ports rs) by_port,
        listeners-can_listen fs listening,
        shown_names,
        shown_ports,
        by_name,
        by_port,
        auxiliary-unique fs unique_names (rw local unique_ports) unique_ports,
        auxiliary-subset fs,
      )

module _ (numerals : Numerals) (t : Texts) (plan_support_paths : SupportPaths)
    (i : DebugInputs) where
  endpoints_of :
      (plan : DebugPlan)
      → build_debug_plan numerals t plan_support_paths i ≡ ok plan
      → (e : DebugEndpointPlan) × ((plan_debug_endpoints t i ≡ ok e)
          × ((plan.forwards ≡ e.forwards)
              × (plan.auxiliary_forwards ≡ auxiliary e.forwards)
              × (plan.reserved_listeners ≡ e.reserved_listeners)))
  unfolding build_debug_plan debug_plan_of
  endpoints_of plan h =
      let (_, (_, h)) = then-ok (validate_debug_inputs i) _ plan h in
      let (e, (planned, h)) = bind-ok (plan_debug_endpoints t i) _ plan h in
      let (_, (_, h)) = bind-ok (plan_support_paths i.search_paths i.config_files) _ plan h in
      let (rtos, (_, h)) =
        bind-ok
          (if i.thread_info_supported
            then thread_info_enabled i.thread_info_requested i.openocd_version
            else ok false)
          _ plan h in
      let (_, (_, h)) =
        bind-ok (server_commands numerals i e rtos (readiness_commands i.readiness_suffix).startup)
          _ plan h in
      let (_, (_, h)) = bind-ok (client_argv numerals i e) _ plan h in
      (e, (planned, ground (arith, h)))

  -- The endpoints of every debug plan make a session plan that its constructor accepts as it is: on a
  -- host that has a name, and with a local log file just where the process uses the log channel.
  pub make_session_plan-debug_plan :
      (host : String) (log_file : Option String) (uses_log_spool : Bool) (plan : DebugPlan)
      → is_blank host ≡ false
      → agree (is_some log_file) uses_log_spool ≡ true
      → build_debug_plan numerals t plan_support_paths i ≡ ok plan
      → make_session_plan uses_log_spool (record {
        host = host;
        forwards = plan.forwards;
        auxiliary_forwards = plan.auxiliary_forwards;
        reserved_listeners = plan.reserved_listeners;
        log_file = log_file;
      })
        ≡ ok (record {
          host = host;
          forwards = plan.forwards;
          auxiliary_forwards = plan.auxiliary_forwards;
          reserved_listeners = plan.reserved_listeners;
          log_file = log_file;
        })
  make_session_plan-debug_plan host log_file uses_log_spool plan named agreed h =
      let (e, (planned, (forwards, aux, reserved))) = endpoints_of plan h in
      rw (forwards, aux, reserved)
        (make_session_plan-Distinct host log_file uses_log_spool e named agreed
          (plan_debug_endpoints-Distinct t i e planned))
