-- ===== src/Arguments/Materialize.antt =====
-- What a child's argument vector is after the substitutions.
use Prim.Native.String.{String}
use zephyr_remote_openocd.Shared.{
  ℕ, zero, suc, ◌+◌, ◌≡◌, refl, Bool, true, not, ◌&&◌, ◌||◌, some, List, [], ◌∷◌, arith, any,
  length, take, ok, is_some, Option-cases, inl, inr, Bool-cases,
}
use zephyr_remote_openocd.Wire.Json.{codes}
use zephyr_remote_openocd.Arguments.{
  workspace, address, log_spool, Plain, literal, session, Part, plain, word, ArgumentTemplate,
  is_empty, is_spool, part_references, references_log_spool, references, log_spool_requested,
  Replacements, render_plain, render_plains, render_part, render_parts, template_at,
  materialize_argument, materialize_from, materialize_argv,
}

-- The templates of the arguments, without their numbers.
abbrev pub templates_of : List (ℕ × ArgumentTemplate) → List ArgumentTemplate
templates_of [] = []
templates_of ((index, t) ∷ rest) = t ∷ templates_of rest

abbrev supplied : Replacements → Bool
supplied r = is_some r.log_spool_text

render_plain-some :
    (r : Replacements) (p : Plain)
    → (not (is_spool p) || supplied r) ≡ true
    → is_some (render_plain r p) ≡ true
unfolding render_plain is_spool
render_plain-some r (literal s) h = refl
render_plain-some r (session workspace) h = refl
render_plain-some r (session address) h = refl
render_plain-some r (session log_spool) h = h

render_plains-some :
    (r : Replacements) (ps : List Plain)
    → (not (any ps is_spool) || supplied r) ≡ true
    → is_some (render_plains r ps) ≡ true
unfolding render_plains
render_plains-some r [] h = refl
render_plains-some r (p ∷ ps) h = ground (arith, render_plain-some r p, render_plains-some r ps)

render_part-some :
    (r : Replacements) (q : Part)
    → (not (part_references q) || supplied r) ≡ true
    → is_some (render_part r q) ≡ true
unfolding render_part part_references
render_part-some r (plain p) h = render_plain-some r p h
render_part-some r (word w) h = ground (arith, render_plains-some r w.parts h)

render_parts-some :
    (r : Replacements) (qs : List Part)
    → (not (references_log_spool qs) || supplied r) ≡ true
    → is_some (render_parts r qs) ≡ true
unfolding render_parts references_log_spool
render_parts-some r [] h = refl
render_parts-some r (q ∷ qs) h = ground (arith, render_part-some r q, render_parts-some r qs)

-- No template of the list needs a path of the log channel that is missing.
abbrev covered : Replacements → List ArgumentTemplate → Bool
covered r [] = true
covered r (t ∷ ts) = (not (references_log_spool t.parts) || supplied r) && covered r ts

template_at-some :
    (r : Replacements) (index : ℕ) (ts : List (ℕ × ArgumentTemplate)) (t : ArgumentTemplate)
    → covered r (templates_of ts) ≡ true
    → template_at index ts ≡ some t
    → is_some (render_parts r t.parts) ≡ true
unfolding template_at
template_at-some r index [] t h e = cc
template_at-some r index ((i, u) ∷ ts) t h e = elim (Option-cases (template_at index ts)) [
  | inl missing ↦ ground (arith, missing, render_parts-some r u.parts)
  | inr (v, found) ↦ ground (arith, found, template_at-some r index ts v)
]

materialize_argument-some :
    (r : Replacements) (literal_prefix : ℕ) (ts : List (ℕ × ArgumentTemplate)) (index : ℕ)
    (arg : String)
    → covered r (templates_of ts) ≡ true
    → is_some (materialize_argument r literal_prefix ts index arg) ≡ true
unfolding materialize_argument
materialize_argument-some r literal_prefix ts index arg h =
    elim (Option-cases (template_at index ts)) [
      | inl missing ↦ ground (arith, missing)
      | inr (t, found) ↦ ground (arith, found, template_at-some r index ts t h found)
    ]

-- The texts of arguments that no template replaces.
abbrev pub literals : List String → List (List ℕ)
literals [] = []
literals (arg ∷ argv) = codes arg ∷ literals argv

materialize_from-some :
    (r : Replacements) (literal_prefix : ℕ) (ts : List (ℕ × ArgumentTemplate)) (index : ℕ)
    (argv : List String)
    → covered r (templates_of ts) ≡ true
    → (texts : List (List ℕ)) × (materialize_from r literal_prefix ts index argv ≡ some texts)
      × (length texts ≡ length argv)
unfolding materialize_from
materialize_from-some r literal_prefix ts index [] h = ([], refl, refl)
materialize_from-some r literal_prefix ts index (arg ∷ argv) h =
    let (texts, e, n) = materialize_from-some r literal_prefix ts (index + 1) argv h in
    elim (Option-cases (materialize_argument r literal_prefix ts index arg)) [
      | inl missing ↦
          absurd
            (ground (arith, missing, materialize_argument-some r literal_prefix ts index arg h))
      | inr (text, found) ↦ (text ∷ texts, ground (arith, e, found), omega (arith, n))
    ]

covered-supplied :
    (r : Replacements) (ts : List ArgumentTemplate) → supplied r ≡ true → covered r ts ≡ true
covered-supplied r [] h = refl
covered-supplied r (t ∷ ts) h = ground (arith, covered-supplied r ts h)

covered-unreferenced :
    (r : Replacements) (ts : List ArgumentTemplate)
    → is_empty (references ts) ≡ true
    → covered r ts ≡ true
unfolding references
covered-unreferenced r [] h = refl
covered-unreferenced r (t ∷ ts) h = ground (arith, covered-unreferenced r ts)

module _ (r : Replacements) (ts : List (ℕ × ArgumentTemplate)) (paths : List ArgumentTemplate)
    (uses : Bool) (requested : log_spool_requested (templates_of ts) paths ≡ ok uses)
    (given : (not uses || supplied r) ≡ true) where
  requested-covered : covered r (templates_of ts) ≡ true
  unfolding log_spool_requested
  requested-covered = elim (Bool-cases (supplied r)) [
    | inl s ↦ covered-supplied r (templates_of ts) s
    | inr m ↦ covered-unreferenced r (templates_of ts) (ground arith)
  ]

  -- Where `log_spool_requested` accepts the templates, and the path of the log channel is given if it
  -- is requested, `materialize_argv` raises no `KeyError`, and returns a text for each argument.
  pub materialize_argv-total :
      (literal_prefix : ℕ) (argv : List String)
      → (texts : List (List ℕ)) × (materialize_argv r literal_prefix ts argv ≡ some texts)
        × (length texts ≡ length argv)
  unfolding materialize_argv
  materialize_argv-total literal_prefix argv =
      materialize_from-some r literal_prefix ts 0 argv requested-covered

module _ (r : Replacements) (ts : List (ℕ × ArgumentTemplate)) (literal_prefix : ℕ) where
  materialize_from-prefix :
      (n index : ℕ) (argv : List String) (texts : List (List ℕ))
      → literal_prefix ≡ n + index
      → materialize_from r literal_prefix ts index argv ≡ some texts
      → take n texts ≡ literals (take n argv)
  unfolding materialize_from materialize_argument
  materialize_from-prefix zero index argv texts e h = refl
  materialize_from-prefix (suc n) index [] texts e h = ground arith
  materialize_from-prefix (suc n) index (arg ∷ argv) texts e h =
      elim (Option-cases (materialize_from r literal_prefix ts (index + 1) argv)) [
        | inl missing ↦ ground (arith, missing)
        | inr (later, found) ↦
            ground
              (arith, found, materialize_from-prefix n (index + 1) argv later (omega arith) found)
      ]

  -- The arguments before `literal_prefix` stand in the materialised vector as they are, whatever
  -- templates there are.
  pub materialize_argv-prefix :
      (argv : List String) (texts : List (List ℕ))
      → materialize_argv r literal_prefix ts argv ≡ some texts
      → take literal_prefix texts ≡ literals (take literal_prefix argv)
  unfolding materialize_argv
  materialize_argv-prefix argv texts h =
      materialize_from-prefix literal_prefix 0 argv texts (omega arith) h
