-- ===== src/Helper/Ending.antt =====
-- The parts of `release_workspace`, called while the session is terminating.
use zephyr_remote_openocd.Shared.{
  ◌≡◌, refl, ◌∙◌, Bool, true, false, not, Option, arith, Result, ok, raised, String, Exec,
  Bool-cases, inl, inr, ◌⊎◌, continue, is_none, runtime_error,
}
use zephyr_remote_openocd.Lifecycle.{Attempt}
use zephyr_remote_openocd.Helper.{Place, work, System, HelperSession}
use zephyr_remote_openocd.Helper.Recording.{attempt, handled, update, call, cleanup_failure}
use zephyr_remote_openocd.Helper.Logic.{
  Returns, returned, weaker, then-Returns, attempt-Returns, when-Returns, if-Returns,
}
use zephyr_remote_openocd.Helper.Laws.{Laws}
use zephyr_remote_openocd.Helper.Reports.{gone}
use zephyr_remote_openocd.Helper.Release.{
  dependents_gone, close_address_lease, close_readiness, close_log_channel, close_relay, retain,
  remove, dispose_workspace,
}
use zephyr_remote_openocd.Helper.Terminating.{
  Facts, Ending, forget, carry, Tried, try-Tried, cleanup_failure-Still,
}

module _ {S : Type 0} (sys : System S) (laws : Laws sys) (f : Facts) (a : Option Attempt) where
  abbrev pub Here : Bool → HelperSession S → Type 0
  Here noted s = Ending f a s.address_lease noted s

  -- Nothing of the workspace is there, and the child is gone.
  pub record Clean (leased : Bool) (system : S) : Type 0 where
    pub absent : (place : Place) → laws.there place system ≡ false
    pub disposed : gone f.acquisition f.settlement leased ≡ true

  -- The body of the first `try` of `release_workspace`: an end without a record has removed all.
  pub record Disposed (leased : Bool) (given : Result (Unit {0}) × HelperSession S) : Type 0 where
    pub ending : Ending f a leased false given.1
    pub kept :
        gone f.acquisition f.settlement leased ≡ false → laws.there work given.1.system ≡ true
    pub clean : given.0 ≡ ok tt → Ending f a leased true given.1 ⊎ Clean leased given.1.system

  here : (leased : Bool) (s : HelperSession S) → Ending f a leased false s → Here false s
  here leased s h = ground arith

  dependents_of :
      (leased : Bool) (s : HelperSession S)
      → Ending f a leased false s
      → dependents_gone s ≡ gone f.acquisition f.settlement leased
  dependents_of leased s h = ground arith

  then-Disposed :
      {given : Result (Unit {0}) × HelperSession S}
      {k : Unit {0} → Exec (HelperSession S) (Unit {0})} (leased : Bool)
      (P : Unit {0} → HelperSession S → Type 0)
      → Returns given P
      → ((u : Unit {0}) (t : HelperSession S) → P u t → Disposed leased (k u t))
      → Disposed leased (continue given.0 given.1 k)
  then-Disposed {given = given} {k = k} leased P r next =
      let n = next r.value given.1 r.post in
      record { ending = rw r.done n.ending; kept = rw r.done n.kept; clean = rw r.done n.clean }

  retain_after :
      (text : String) (leased : Bool) (r : Result (Unit {0})) (s : HelperSession S)
      → Ending f a leased false s
      → laws.there work s.system ≡ true
      → Disposed leased (continue r s (λ _. cleanup_failure sys (runtime_error text)))
  retain_after text leased (ok u) s h w =
      let r = cleanup_failure-Still sys f a leased (runtime_error text) false s h in
      record {
        ending = forget sys f a leased false _ r.post.0;
        kept = λ _. rw r.post.1 w;
        clean = λ _. inl r.post.0;
      }
  retain_after text leased (raised e) s h w = record {
    ending = h;
    kept = λ _. w;
    clean = λ x. absurd (ground arith);
  }

  retain-Disposed :
      (text : String) (leased : Bool) (s : HelperSession S)
      → Ending f a leased false s
      → laws.there work s.system ≡ true
      → Disposed leased (retain sys text s)
  unfolding retain
  retain-Disposed text leased s h w =
      let t : HelperSession S = record s { system = (sys.close_admission s.system).1 } in
      retain_after text leased (sys.close_admission s.system).0 t
        (carry sys f a leased false s t refl refl refl h) (laws.close_admission-keeps s.system ∙ w)

  remove-Disposed :
      (leased : Bool) (s : HelperSession S)
      → Ending f a leased false s
      → gone f.acquisition f.settlement leased ≡ true
      → Disposed leased (remove sys s)
  unfolding remove
  remove-Disposed leased s h d =
      then-Disposed leased (Tried sys f a leased sys.unmark_child false s.system)
        (try-Tried sys f a leased sys.unmark_child false s h)
        (λ _ t k. record {
          ending = carry sys f a leased false t _ refl refl refl k.0.0;
          kept = λ e. absurd (ground arith);
          clean = λ e.
              inr (record { absent = λ p. laws.remove_workspace-ok p t.system e; disposed = d });
        })

  dispose-Disposed :
      (log_closed leased : Bool) (s : HelperSession S)
      → Ending f a leased false s
      → laws.there work s.system ≡ true
      → Disposed leased (dispose_workspace sys log_closed s)
  unfolding dispose_workspace
  dispose-Disposed log_closed leased s h w = elim (Bool-cases log_closed) [
    | inl e ↦ elim (Bool-cases (gone f.acquisition f.settlement leased)) [
      | inl d ↦ rw (e, dependents_of leased s h, d) (remove-Disposed leased s h d)
      | inr d ↦ rw (e, dependents_of leased s h, d) (retain-Disposed _ leased s h w)
    ]
    | inr e ↦ rw e (retain-Disposed _ leased s h w)
  ]

  -- What holds before the workspace is disposed of.
  abbrev pub Opened : Bool → HelperSession S → Type 0
  Opened leased s = Ending f a leased false s × (laws.there work s.system ≡ true)

  -- The address lease is not taken again.
  abbrev pub StillHere : Bool → HelperSession S → Type 0
  StillHere first s =
      Here false s × ((laws.there work s.system ≡ true) × (first ≡ false → s.address_lease ≡ false))

  lease_closed :
      (first : Bool) (r : Result (Unit {0})) (s : HelperSession S)
      → StillHere first s
      → Returns
          (handled
            (continue r s (λ _. update (λ t. record t { address_lease = false }))).0
            (continue r s (λ _. update (λ t. record t { address_lease = false }))).1
            (cleanup_failure sys))
          (λ _. StillHere first)
  lease_closed first (ok u) s h = returned tt refl (
    record {
      outcome = h.0.outcome;
      phase = h.0.phase;
      agrees = h.0.agrees;
      on_record = h.0.on_record;
      facts = h.0.facts;
      lease = refl;
    },
    (h.1.0, λ _. refl),
  )
  lease_closed first (raised e) s h =
      weaker (cleanup_failure-Still sys f a s.address_lease e false s h.0) (λ _ t k. (
        here s.address_lease t (forget sys f a s.address_lease false t k.0),
        (rw k.1 h.1.0, λ x. k.0.lease ∙ h.1.1 x),
      ))

  pub close_address_lease-Still :
      (first : Bool) (s : HelperSession S)
      → StillHere first s
      → Returns (close_address_lease sys s) (λ _. StillHere first)
  unfolding close_address_lease
  close_address_lease-Still first s h =
      when-Returns s.address_lease _ s
        (λ _.
          lease_closed first (sys.close_lease s.system).0
            (record s { system = (sys.close_lease s.system).1 })
            (
              carry sys f a s.address_lease false s _ refl refl refl h.0,
              (laws.close_lease-keeps s.system ∙ h.1.0, h.1.1),
            ))
        (λ _. h)

  -- A tried call that leaves the workspace's directory in its place.
  try-Opened :
      (m : S → Result (Unit {0}) × S) (leased : Bool) (s : HelperSession S)
      → laws.there work (m s.system).1 ≡ laws.there work s.system
      → Opened leased s
      → Returns (attempt (call m) (cleanup_failure sys) s) (λ _. Opened leased)
  try-Opened m leased s keeps h =
      weaker (try-Tried sys f a leased m false s h.0) (λ _ t k. (k.0.0, rw k.0.1 (keeps ∙ h.1)))

  pub close_readiness-Opened :
      (leased : Bool) (s : HelperSession S)
      → Opened leased s
      → Returns (close_readiness sys s) (λ _. Opened leased)
  unfolding close_readiness
  close_readiness-Opened leased s h =
      when-Returns s.readiness _ s
        (λ _. try-Opened sys.close_readiness leased s (laws.close_readiness-keeps s.system) h)
        (λ _. h)

  pub close_log_channel-Opened :
      (leased : Bool) (s : HelperSession S)
      → Opened leased s
      → Returns (close_log_channel sys s) (λ _. Opened leased)
  unfolding close_log_channel close_relay
  close_log_channel-Opened leased s h =
      if-Returns (is_none s.log) _ _ s (λ _. returned true refl h)
        (λ _.
          if-Returns (sys.log_reader_done s.system) _ _ s
            (λ _.
              then-Returns (λ _. Opened leased)
                (try-Opened sys.close_log leased s (laws.close_log-keeps s.system) h)
                (λ _ t k. returned (not (sys.log_open t.system)) refl k))
            (λ _.
              then-Returns (λ _. Opened leased)
                (weaker (cleanup_failure-Still sys f a leased _ false s h.0)
                  (λ _ t k. (forget sys f a leased false t k.0, rw k.1 h.1)))
                (λ _ t k. returned false refl k)))

  -- After the first `try`, with the failure that ended it on record.
  abbrev pub DisposedOf : Bool → HelperSession S → Type 0
  DisposedOf leased s = Disposed leased (ok tt, s)

  pub dispose-returns :
      (log_closed leased : Bool) (s : HelperSession S)
      → Opened leased s
      → Returns
          (attempt (dispose_workspace sys log_closed) (cleanup_failure sys) s)
          (λ _. DisposedOf leased)
  dispose-returns log_closed leased s h =
      let d = dispose-Disposed log_closed leased s h.0 h.1 in
      attempt-Returns (dispose_workspace sys log_closed s) (cleanup_failure sys)
        (λ _ e. record { ending = d.ending; kept = d.kept; clean = λ _. d.clean e })
        (λ e _. weaker (cleanup_failure-Still sys f a leased e false _ d.ending) (λ _ t k. record {
          ending = forget sys f a leased false t k.0;
          kept = λ x. rw k.1 (d.kept x);
          clean = λ _. inl k.0;
        }))
