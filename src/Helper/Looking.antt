-- ===== src/Helper/Looking.antt =====
-- The looks of `_cleanup_report` at the paths of the workspace.
use zephyr_remote_openocd.Shared.{
  ◌≡◌, refl, ◌∙◌, Bool, true, false, not, Option, arith, inl, inr, ◌⊎◌, continue, pure,
}
use zephyr_remote_openocd.Lifecycle.{Attempt}
use zephyr_remote_openocd.Helper.{Place, work, lease, closure, System, HelperSession}
use zephyr_remote_openocd.Helper.Recording.{call}
use zephyr_remote_openocd.Helper.Logic.{
  Returns, returned, weaker, then-Returns, attempt-Returns, if-Returns,
}
use zephyr_remote_openocd.Helper.Laws.{Laws}
use zephyr_remote_openocd.Helper.Reports.{gone}
use zephyr_remote_openocd.Helper.Release.{disposed_path, metadata_left}
use zephyr_remote_openocd.Helper.Terminating.{Facts, Ending, forget, carry, cleanup_failure-Still}
use zephyr_remote_openocd.Helper.Released.{Released}

module _ {S : Type 0} (sys : System S) (laws : Laws sys) (f : Facts) (a : Option Attempt) where
  recorded :
      (noted leased : Bool) (s : HelperSession S)
      → Released sys laws f a noted leased s
      → Ending f a leased true s
      → Released sys laws f a true leased s
  recorded noted leased s r h = record { ending = h; kept = r.kept; clean = inl h }

  -- What a look at a path gives: what is there is not reported absent, and what is reported as left
  -- has a failure on record.
  abbrev pub Looked : Bool → Bool → Bool → Bool → HelperSession S → Type 0
  Looked noted leased here absent s =
      Released sys laws f a noted leased s
      × ((here ≡ true → absent ≡ false) × (Ending f a leased true s ⊎ absent ≡ true))

  pub disposed_path-Looked :
      (place : Place) (noted leased : Bool) (s : HelperSession S)
      → Released sys laws f a noted leased s
      → Returns (disposed_path sys place s) (Looked noted leased (laws.there place s.system))
  unfolding disposed_path
  disposed_path-Looked place noted leased s r =
      let t : HelperSession S = record s { system = (sys.is_absent place s.system).1 } in
      let kept = carry sys f a leased noted s t refl refl refl r.ending in
      let there : gone f.acquisition f.settlement leased ≡ false → laws.there work t.system ≡ true =
        λ x. laws.is_absent-keeps work place s.system ∙ r.kept x in
      attempt-Returns (call (sys.is_absent place) s) _
        (λ absent e. (
          record {
            ending = kept;
            kept = there;
            clean = elim r.clean [
              | inl h ↦ inl (carry sys f a leased true s t refl refl refl h)
              | inr (c, locked) ↦ inr (
                record {
                  absent = λ p. laws.is_absent-keeps p place s.system ∙ c.absent p;
                  disposed = c.disposed;
                },
                laws.is_absent-lock place s.system ∙ locked,
              )
            ];
          },
          (
            (λ x. ground (arith, laws.is_absent-ok place absent s.system e)),
            elim r.clean [
              | inl h ↦ inl (carry sys f a leased true s t refl refl refl h)
              | inr (c, locked) ↦
                  inr (ground (arith, laws.is_absent-ok place absent s.system e, c.absent place))
            ],
          ),
        ))
        (λ e _.
          then-Returns (λ _ u. Ending f a leased true u × (u.system ≡ t.system))
            (cleanup_failure-Still sys f a leased e noted t kept)
            (λ _ u k. returned false refl (
              record {
                ending = forget sys f a leased noted u k.0;
                kept = λ x. rw k.1 (there x);
                clean = inl k.0;
              },
              ((λ _. refl), inl k.0),
            )))

  -- A recorded failure stays on record, and a failed look leaves one.
  abbrev pub Since : Bool → Bool → Bool → HelperSession S → Type 0
  Since noted leased absent s =
      (now : Bool) × (Released sys laws f a now leased s
        × ((noted ≡ true → now ≡ true) × (now ≡ true ⊎ absent ≡ true)))

  pub look_again :
      (noted leased here absent : Bool) (s : HelperSession S)
      → Looked noted leased here absent s
      → Since noted leased absent s
  look_again noted leased here absent s (r, (there, h)) = elim h [
    | inl k ↦ (true, (recorded noted leased s r k, ((λ _. refl), inl refl)))
    | inr e ↦ (noted, (r, ((λ x. x), inr e)))
  ]

  closure_left :
      (noted leased : Bool) (s : HelperSession S)
      → Released sys laws f a noted leased s
      → Returns
          (continue
            (disposed_path sys closure s).0
            (disposed_path sys closure s).1
            (λ (closure_gone : Bool). pure (not closure_gone)))
          (λ left. Since noted leased (not left))
  closure_left noted leased s r =
      then-Returns (Looked noted leased (laws.there closure s.system))
        (disposed_path-Looked closure noted leased s r)
        (λ absent t k.
          let (m, (q, (mono, e))) = look_again noted leased _ absent t k in
          returned (not absent) refl (m, (q, (mono, ground arith))))

  after :
      (noted now leased absent : Bool) (s : HelperSession S)
      → (noted ≡ true → now ≡ true)
      → Since now leased absent s
      → Since noted leased absent s
  after noted now leased absent s first (m, (q, (mono, e))) = (m, (q, ((λ x. mono (first x)), e)))

  pub metadata_left-Since :
      (noted leased : Bool) (s : HelperSession S)
      → Released sys laws f a noted leased s
      → Returns (metadata_left sys s) (λ left. Since noted leased (not left))
  unfolding metadata_left
  metadata_left-Since noted leased s r =
      if-Returns (not (sys.lock_closed s.system)) _ _ s
        (λ e. returned true refl (elim r.clean [
          | inl h ↦ (true, (recorded noted leased s r h, ((λ _. refl), inl refl)))
          | inr (c, locked) ↦ absurd (ground arith)
        ]))
        (λ _.
          then-Returns (Looked noted leased (laws.there lease s.system))
            (disposed_path-Looked lease noted leased s r)
            (λ absent t k.
              let (m, (q, (mono, e))) = look_again noted leased _ absent t k in
              if-Returns absent _ _ t
                (λ _.
                  weaker (closure_left m leased t q)
                    (λ left u n. after noted m leased (not left) u mono n))
                (λ x. returned true refl (m, (q, (mono, ground arith))))))
