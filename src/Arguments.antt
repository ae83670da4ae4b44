-- ===== src/Arguments.antt =====
-- protocol/arguments.py: argument templates with runtime substitutions. A text is a string; what is
-- rendered is its code points.
pub mod Wire
pub mod Materialize
use Prim.Native.String.{String}
use zephyr_remote_openocd.Shared.{
  ℕ, ◌+◌, Bool, true, false, not, ◌&&◌, ◌||◌, Option, none, some, List, [], ◌∷◌, ◌++◌,
  if◌then◌else◌, all, any, length, leb, ltb, nat_beq, string_eq, ◌==◌, Eq, ◌≡◌, ◌↔◌, arith, Result,
  ok, raised, value_error, flatten,
}
use zephyr_remote_openocd.Wire.Json.{codes, contains}
use zephyr_remote_openocd.Tcl.{tcl_quote}

pub data SessionValue : Type 0 where
  workspace address log_spool : SessionValue

-- `str | SessionValue`
pub data Plain : Type 0 where
  literal : String → Plain
  session : SessionValue → Plain

pub record TclWord : Type 0 where
  pub parts : List Plain

-- `str | SessionValue | TclWord`
pub data Part : Type 0 where
  plain : Plain → Part
  word : TclWord → Part

pub record ArgumentTemplate : Type 0 where
  pub parts : List Part

abbrev pub is_empty {ℓ} : {A : Type ℓ} → List A → Bool
is_empty [] = true
is_empty (x ∷ xs) = false

-- A literal has no NUL.
unfoldable pub clean_plain : Plain → Bool
unfolding contains
clean_plain (literal s) = not (contains 0 s)
clean_plain (session v) = true

unfoldable pub clean_part : Part → Bool
unfolding clean_plain
clean_part (plain p) = clean_plain p
clean_part (word w) = true

-- `TclWord.__post_init__`
unfoldable pub make_word : List Plain → Result TclWord
unfolding clean_plain
make_word parts =
    if is_empty parts
    then raised (value_error "Tcl word must contain literal strings or session values")
    else if not (all parts clean_plain)
    then raised (value_error "Tcl word literals must exclude NUL")
    else ok (record { parts = parts })

-- `ArgumentTemplate.__post_init__`
unfoldable pub make_template : List Part → Result ArgumentTemplate
unfolding clean_part
make_template parts =
    if is_empty parts
    then raised (value_error "argument template must contain explicit parts")
    else if not (all parts clean_part)
    then raised (value_error "argument template literals must exclude NUL")
    else ok (record { parts = parts })

-- `SessionValue.value`
unfoldable pub value_of : SessionValue → String
value_of workspace = "workspace"
value_of address = "address"
value_of log_spool = "log_spool"

-- `text` of `preview`: a value stands in braces.
unfoldable pub preview_plain : Plain → List ℕ
unfolding value_of
preview_plain (literal s) = codes s
preview_plain (session v) = b'{' ∷ (codes (value_of v) ++ (b'}' ∷ []))

abbrev pub join_plain : List Plain → (Plain → List ℕ) → List ℕ
join_plain [] f = []
join_plain (p ∷ ps) f = f p ++ join_plain ps f

abbrev pub join_parts : List Part → (Part → List ℕ) → List ℕ
join_parts [] f = []
join_parts (p ∷ ps) f = f p ++ join_parts ps f

unfoldable pub preview_part : Part → List ℕ
unfolding preview_plain tcl_quote
preview_part (plain p) = preview_plain p
preview_part (word w) = tcl_quote (join_plain w.parts preview_plain) false

unfoldable pub preview : ArgumentTemplate → List ℕ
unfolding preview_part
preview t = join_parts t.parts preview_part

unfoldable pub is_spool : Plain → Bool
is_spool (session log_spool) = true
is_spool _ = false

unfoldable pub part_references : Part → Bool
unfolding is_spool
part_references (plain p) = is_spool p
part_references (word w) = any w.parts is_spool

-- `_references_log_spool`
unfoldable pub references_log_spool : List Part → Bool
unfolding part_references
references_log_spool parts = any parts part_references

unfoldable pub log_spool_template : ArgumentTemplate
log_spool_template = record { parts = word (record { parts = session log_spool ∷ [] }) ∷ [] }

-- `template == log_spool_template()`
unfoldable pub is_log_spool_template : ArgumentTemplate → Bool
is_log_spool_template t = elim t.parts [
  | [] ↦ false
  | p ∷ ps ↦ elim p [
    | plain q ↦ false
    | word w ↦ elim w.parts [ [] ↦ false | q ∷ qs ↦ is_empty ps && (is_empty qs && is_spool q) ]
  ]
]

-- The templates that reference the log channel.
unfoldable pub references : List ArgumentTemplate → List ArgumentTemplate
unfolding references_log_spool
references [] = []
references (t ∷ ts) =
    let rest = references ts in if references_log_spool t.parts then t ∷ rest else rest

unfoldable pub log_spool_requested : List ArgumentTemplate → List ArgumentTemplate → Result Bool
unfolding references references_log_spool is_log_spool_template
log_spool_requested argv_templates path_templates =
    if any path_templates (λ t. references_log_spool t.parts)
    then raised (value_error "required paths cannot reference the log channel")
    else if not (all (references argv_templates) is_log_spool_template)
    then raised (value_error "the log channel is valid only as one complete Tcl-word argument")
    else if ltb 1 (length (references argv_templates))
    then raised (value_error "at most one argument may reference the log channel")
    else ok (not (is_empty (references argv_templates)))

-- The replacements; `log_spool` may be missing, which is a `KeyError` where it is needed.
pub record Replacements : Type 0 where
  pub workspace_text : List ℕ
  pub address_text : List ℕ
  pub log_spool_text : Option (List ℕ)

abbrev pub join_texts : Option (List ℕ) → Option (List ℕ) → Option (List ℕ)
join_texts none later = none
join_texts (some xs) none = none
join_texts (some xs) (some ys) = some (xs ++ ys)

-- `_render_parts`; `none` is the `KeyError`.
unfoldable pub render_plain : Replacements → Plain → Option (List ℕ)
render_plain r (literal s) = some (codes s)
render_plain r (session workspace) = some r.workspace_text
render_plain r (session address) = some r.address_text
render_plain r (session log_spool) = r.log_spool_text

unfoldable pub render_plains : Replacements → List Plain → Option (List ℕ)
unfolding render_plain
render_plains r [] = some []
render_plains r (p ∷ ps) = join_texts (render_plain r p) (render_plains r ps)

unfoldable pub render_part : Replacements → Part → Option (List ℕ)
unfolding render_plains render_plain tcl_quote
render_part r (plain p) = render_plain r p
render_part r (word w) = elim (render_plains r w.parts) [
  | none ↦ none
  | some text ↦ some (tcl_quote text true)
]

unfoldable pub render_parts : Replacements → List Part → Option (List ℕ)
unfolding render_part
render_parts r [] = some []
render_parts r (p ∷ ps) = join_texts (render_part r p) (render_parts r ps)

-- `dict(argv_templates)[index]`: the last pair of an index counts.
unfoldable pub template_at : ℕ → List (ℕ × ArgumentTemplate) → Option ArgumentTemplate
template_at index [] = none
template_at index ((i, t) ∷ ts) = elim (template_at index ts) [
  | some later ↦ some later
  | none ↦ if nat_beq i index then some t else none
]

-- One argument of `materialize_argv`.
unfoldable pub materialize_argument :
    Replacements → ℕ → List (ℕ × ArgumentTemplate) → ℕ → String → Option (List ℕ)
unfolding template_at render_parts
materialize_argument r literal_prefix templates index arg =
    if leb literal_prefix index
    then elim (template_at index templates) [
      | some t ↦ render_parts r t.parts
      | none ↦ some (codes arg)
    ]
    else some (codes arg)

-- `materialize_argv` from the argument of the number `index`
unfoldable pub materialize_from :
    Replacements → ℕ → List (ℕ × ArgumentTemplate) → ℕ → List String → Option (List (List ℕ))
unfolding materialize_argument
materialize_from r literal_prefix templates index [] = some []
materialize_from r literal_prefix templates index (arg ∷ argv) =
    elim (materialize_argument r literal_prefix templates index arg) [
      | none ↦ none
      | some text ↦ elim (materialize_from r literal_prefix templates (index + 1) argv) [
        | none ↦ none
        | some texts ↦ some (text ∷ texts)
      ]
    ]

unfoldable pub materialize_argv :
    Replacements → ℕ → List (ℕ × ArgumentTemplate) → List String → Option (List (List ℕ))
unfolding materialize_from
materialize_argv r literal_prefix templates argv =
    materialize_from r literal_prefix templates 0 argv
