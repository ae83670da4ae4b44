-- ===== src/Openocd/Debug/Endpoints.antt =====
-- The listeners of a debug session.
use Prim.Native.String.{String}
use zephyr_remote_openocd.Shared.{
  all, leb, Bool, not, ◌&&◌, ℕ, ◌≡◌, true, Option, none, some, List, [], ◌∷◌, ◌++◌, arith,
  if◌then◌else◌, string_eq, nat_eq, ◌==◌, ok, unique, Result-cases, inl, inr,
}
use zephyr_remote_openocd.Shared.Chain.{bind-ok}
use zephyr_remote_openocd.Gate.{ForwardSpec}
use zephyr_remote_openocd.Endpoints.{
  is_blank, ListenerSpec, make_forward, make_listener, listener, listener_ports, listener_names,
  names, local_ports, remote_ports, validated_forwards, validated_listeners,
}
use zephyr_remote_openocd.Endpoints.Sets.{listeners}
use zephyr_remote_openocd.Openocd.Debug.{
  Texts, DebugInputs, DebugEndpointPlan, same_port, service_forward, base_listener, check_endpoints,
  place_rtt, add_rtt, plan_debug_endpoints, required_port, port, client_port,
}

-- A forward of a port to itself
abbrev self : String → ℕ → ForwardSpec
self name p = record { name = name; local_port = p; remote_port = p }

abbrev at : String → ℕ → ListenerSpec
at name p = record { name = name; remote_port = p }

same_port-self :
    (name : String) (p : ℕ) (f : ForwardSpec) → same_port name p ≡ ok f → f ≡ self name p
unfolding same_port make_forward
same_port-self name p f h = ground arith

same_port-listener :
    (name : String) (p : ℕ) (f : ForwardSpec)
    → same_port name p ≡ ok f
    → listener f ≡ ok (at name p)
unfolding same_port make_forward listener make_listener
same_port-listener name p f h = ground arith

abbrev service : String → Option ℕ → List ForwardSpec
service name none = []
service name (some p) = self name p ∷ []

service_forward_self :
    (name : String) (p : Option ℕ) (fs : List ForwardSpec)
    → service_forward name p ≡ ok fs
    → fs ≡ service name p
unfolding service_forward
service_forward_self name none fs h = ground arith
service_forward_self name (some p) fs h = elim (Result-cases (same_port name p)) [
  | inr (e, bad) ↦ ground (arith, bad)
  | inl (f, made) ↦ ground (arith, made, same_port-self name p f made)
]

abbrev base : ℕ → ℕ → List ListenerSpec
base b g = if g == b then [] else at "gdb_base" b ∷ []

base_listener-at : (b g : ℕ) (ls : List ListenerSpec) → base_listener b g ≡ ok ls → ls ≡ base b g
unfolding base_listener make_listener
base_listener-at b g ls h = ground arith

-- A listener can be made for the remote side of the forward.
abbrev pub can_listen : ForwardSpec → Bool
can_listen f = not (is_blank f.name) && (leb 1 f.remote_port && leb f.remote_port 65535)

-- The names of all listeners differ, and their ports.
abbrev pub Distinct : DebugEndpointPlan → Type 0
Distinct p =
    (unique (names p.forwards ++ listener_names p.reserved_listeners) ≡ true)
    × (unique (remote_ports p.forwards ++ listener_ports p.reserved_listeners) ≡ true)
    × (local_ports p.forwards ≡ remote_ports p.forwards)
    × (all p.forwards can_listen ≡ true)

check_endpoints-valid :
    (fs : List ForwardSpec) (rs ls : List ListenerSpec)
    → check_endpoints fs rs ≡ ok ls
    → (listeners fs ≡ ok ls)
      × (validated_forwards fs ≡ ok fs)
      × (validated_listeners (ls ++ rs) ≡ ok (ls ++ rs))
unfolding check_endpoints validated_forwards validated_listeners
check_endpoints-valid fs rs ls h = elim (Result-cases (listeners fs)) [
  | inr (e, bad) ↦ absurd (ground (arith, bad))
  | inl (found, listen) ↦ ground (arith, listen)
]

abbrev forwards_of : ℕ → Option ℕ → Option ℕ → List ForwardSpec
forwards_of g t u = self "gdb" g ∷ (service "tcl" t ++ service "telnet" u)

place_rtt-Distinct :
    (i : DebugInputs) (b g p : ℕ) (t u : Option ℕ) (ls : List ListenerSpec)
    (plan result : DebugEndpointPlan)
    → plan.forwards ≡ forwards_of g t u
    → plan.reserved_listeners ≡ base b g
    → listeners plan.forwards ≡ ok ls
    → validated_listeners (ls ++ plan.reserved_listeners) ≡ ok (ls ++ plan.reserved_listeners)
    → place_rtt i (ls ++ plan.reserved_listeners) plan p ≡ ok result
    → Distinct result
unfolding place_rtt listeners listener make_listener validated_listeners same_port make_forward
place_rtt-Distinct i b g p none none ls plan result fs rs listen valid placed = ground arith
place_rtt-Distinct i b g p none (some u) ls plan result fs rs listen valid placed = ground arith
place_rtt-Distinct i b g p (some t) none ls plan result fs rs listen valid placed = ground arith
place_rtt-Distinct i b g p (some t) (some u) ls plan result fs rs listen valid placed = ground arith

plain-Distinct :
    (b g : ℕ) (t u : Option ℕ) (ls : List ListenerSpec) (plan : DebugEndpointPlan)
    → plan.forwards ≡ forwards_of g t u
    → plan.reserved_listeners ≡ base b g
    → listeners plan.forwards ≡ ok ls
    → validated_listeners (ls ++ plan.reserved_listeners) ≡ ok (ls ++ plan.reserved_listeners)
    → Distinct plan
unfolding listeners listener make_listener validated_listeners
plain-Distinct b g none none ls plan fs rs listen valid = ground arith
plain-Distinct b g none (some u) ls plan fs rs listen valid = ground arith
plain-Distinct b g (some t) none ls plan fs rs listen valid = ground arith
plain-Distinct b g (some t) (some u) ls plan fs rs listen valid = ground arith

module _ (texts : Texts) (i : DebugInputs) where
  add_rtt-Distinct :
      (b g : ℕ) (t u : Option ℕ) (ls : List ListenerSpec) (plan result : DebugEndpointPlan)
      → plan.forwards ≡ forwards_of g t u
      → plan.reserved_listeners ≡ base b g
      → listeners plan.forwards ≡ ok ls
      → validated_listeners (ls ++ plan.reserved_listeners) ≡ ok (ls ++ plan.reserved_listeners)
      → add_rtt texts i (ls ++ plan.reserved_listeners) plan ≡ ok result
      → Distinct result
  unfolding add_rtt
  add_rtt-Distinct b g t u ls plan result fs rs listen valid added =
      elim (Result-cases (required_port texts i.rtt_port "rtt_port")) [
        | inr (e, bad) ↦ ground (arith, bad, plain-Distinct b g t u ls plan fs rs listen valid)
        | inl (p, found) ↦ ground (
          arith,
          found,
          plain-Distinct b g t u ls plan fs rs listen valid,
          place_rtt-Distinct i b g p t u ls plan result fs rs listen valid,
        )
      ]

  -- The endpoints of every debug plan are distinct, the RTT server's included, which is added after the
  -- checks: the names of the forwards and of the reserved listeners differ, and so do their remote
  -- ports; each forward has the same port on both sides, so the local ports differ too; and each forward
  -- has a name and a remote port in 1..65535.
  pub plan_debug_endpoints-Distinct :
      (plan : DebugEndpointPlan) → plan_debug_endpoints texts i ≡ ok plan → Distinct plan
  unfolding plan_debug_endpoints
  plan_debug_endpoints-Distinct plan h =
      let (b, (base_found, h)) = bind-ok (required_port texts i.gdb_port "gdb_port") _ plan h in
      let (g, (client_found, h)) = bind-ok (client_port texts i b) _ plan h in
      let (t, (tcl_found, h)) = bind-ok (port texts i.tcl_port "tcl_port") _ plan h in
      let (u, (telnet_found, h)) = bind-ok (port texts i.telnet_port "telnet_port") _ plan h in
      let (gdb, (gdb_made, h)) = bind-ok (same_port "gdb" g) _ plan h in
      let (reserved, (reserved_made, h)) = bind-ok (base_listener b g) _ plan h in
      let (tcl, (tcl_made, h)) = bind-ok (service_forward "tcl" t) _ plan h in
      let (telnet, (telnet_made, h)) = bind-ok (service_forward "telnet" u) _ plan h in
      let (ls, (checked, h)) =
        bind-ok (check_endpoints (gdb ∷ (tcl ++ telnet)) reserved) _ plan h in
      let (listen, valid, all_valid) =
        check_endpoints-valid (gdb ∷ (tcl ++ telnet)) reserved ls checked in
      let made : gdb ∷ (tcl ++ telnet) ≡ forwards_of g t u = ground (
        arith,
        same_port-self "gdb" g gdb gdb_made,
        service_forward_self "tcl" t tcl tcl_made,
        service_forward_self "telnet" u telnet telnet_made,
      ) in
      add_rtt-Distinct b g t u ls _ plan made (base_listener-at b g reserved reserved_made) listen
        all_valid h
