-- ===== src/Commands/Encode/Parts.antt =====
-- Each part of a START message decodes to what it was encoded from.
use Prim.Native.String.{String}
use zephyr_remote_openocd.Shared.{
  ℕ, ◌≡◌, refl, ap, Bool, true, false, not, ◌&&◌, some, List, [], ◌∷◌, arith, all, unique, member,
  string_eq, int_eq, nat_eq, ℤ, ok,
}
use zephyr_remote_openocd.Wire.Json.{str, arr, exact}
use zephyr_remote_openocd.Arguments.{
  workspace, address, log_spool, Plain, literal, session, value_of, Part, plain, word, make_word,
  ArgumentTemplate, make_template, is_empty,
}
use zephyr_remote_openocd.Arguments.Wire.{items, encode_plain, encode_part, wire_parts}
use zephyr_remote_openocd.Process.{
  variable_names, variable_values, valid_variable, clean, index_in_range, template_indices,
  templates_of,
}
use zephyr_remote_openocd.Commands.{
  each, strings, variables, session_value, parse_plain_part, parse_plain_parts, parse_argv_part,
  parse_argv_parts, template_index, parse_argv_template, parse_templates_from,
}
use zephyr_remote_openocd.Commands.Start.{start_templates}
use zephyr_remote_openocd.Commands.Encode.{encode_environment, encode_template}
use zephyr_remote_openocd.Commands.Encode.Built.{is_ok, built_part, built_template}

pub strings-items : (xs : List String) → strings (items xs str) ≡ some xs
unfolding strings
strings-items [] = refl
strings-items (x ∷ xs) = rw (strings-items xs)

pub variables-encode_environment :
    (env : List (String × String))
    → all (variable_names env) valid_variable ≡ true
    → all (variable_values env) clean ≡ true
    → variables (encode_environment env) ≡ ok env
unfolding variables encode_environment
variables-encode_environment [] h k = refl
variables-encode_environment ((name, value) ∷ rest) h k =
    ground (arith, variables-encode_environment rest)

pub parse-encode_plain : (p : Plain) → parse_plain_part (encode_plain p) ≡ ok p
unfolding parse_plain_part encode_plain session_value exact value_of
parse-encode_plain (literal s) = refl
parse-encode_plain (session workspace) = refl
parse-encode_plain (session address) = refl
parse-encode_plain (session log_spool) = refl

each-encode_plain : (ps : List Plain) → each (items ps encode_plain) parse_plain_part ≡ ok ps
each-encode_plain [] = refl
each-encode_plain (p ∷ ps) = rw (parse-encode_plain p, each-encode_plain ps)

parts-encode_plain :
    (ps : List Plain)
    → is_empty ps ≡ false
    → parse_plain_parts (arr (items ps encode_plain)) ≡ ok ps
unfolding parse_plain_parts
parts-encode_plain [] h = cc
parts-encode_plain (p ∷ ps) h = each-encode_plain (p ∷ ps)

word-made :
    (ps : List Plain)
    → is_ok (make_word ps) ≡ true
    → (make_word ps ≡ ok (record { parts = ps })) × (is_empty ps ≡ false)
unfolding make_word
word-made ps h = (ground arith, ground arith)

pub template-made :
    (ps : List Part)
    → is_ok (make_template ps) ≡ true
    → (make_template ps ≡ ok (record { parts = ps })) × (is_empty ps ≡ false)
unfolding make_template
template-made ps h = (ground arith, ground arith)

parse-encode_part : (q : Part) → built_part q ≡ true → parse_argv_part (encode_part q) ≡ ok q
unfolding parse_argv_part encode_part encode_plain session_value exact value_of parse_plain_part
parse-encode_part (plain (literal s)) h = refl
parse-encode_part (plain (session workspace)) h = refl
parse-encode_part (plain (session address)) h = refl
parse-encode_part (plain (session log_spool)) h = refl
parse-encode_part (word w) h =
    let (made, some_part) = word-made w.parts (unfold built_part in h) in
    rw (parts-encode_plain w.parts some_part, made)

each-encode_part :
    (qs : List Part)
    → all qs built_part ≡ true
    → each (items qs encode_part) parse_argv_part ≡ ok qs
each-encode_part [] h = refl
each-encode_part (q ∷ qs) h =
    rw (parse-encode_part q (ground arith), each-encode_part qs (ground arith))

parts-encode_part :
    (qs : List Part)
    → is_empty qs ≡ false
    → all qs built_part ≡ true
    → parse_argv_parts (arr (items qs encode_part)) ≡ ok qs
unfolding parse_argv_parts
parts-encode_part [] e h = cc
parts-encode_part (q ∷ qs) e h = each-encode_part (q ∷ qs) h

-- The number of an index that is not negative.
abbrev pub index_number : ℤ → ℕ
index_number (ℤ.pos n) = n
index_number (ℤ.negsuc n) = 0

abbrev pub numbered : List (ℤ × ArgumentTemplate) → List (ℕ × ArgumentTemplate)
numbered [] = []
numbered ((index, t) ∷ rest) = (index_number index, t) ∷ numbered rest

parse-encode_template :
    (index : ℤ) (t : ArgumentTemplate) (low count : ℕ) (seen : List ℕ)
    → index_in_range (ℤ.pos low) index count ≡ true
    → member (index_number index) seen ≡ false
    → built_template t ≡ true
    → parse_argv_template (encode_template (index, t)) count low seen ≡ ok (index_number index, t)
unfolding parse_argv_template encode_template wire_parts exact template_index built_template
parse-encode_template (ℤ.pos n) t low count seen r m b =
    let (made, some_part) = template-made t.parts (ground arith) in
    ground (arith, made, parts-encode_part t.parts some_part)
parse-encode_template (ℤ.negsuc n) t low count seen r m b = cc

-- None of the indices is among the numbers.
abbrev apart : List ℤ → List ℕ → Bool
apart [] seen = true
apart (i ∷ is) seen = not (member (index_number i) seen) && apart is seen

apart-cons :
    (i : ℤ) (is : List ℤ) (seen : List ℕ) (low count : ℕ)
    → index_in_range (ℤ.pos low) i count ≡ true
    → all is (λ j. index_in_range (ℤ.pos low) j count) ≡ true
    → member i is ≡ false
    → apart is seen ≡ true
    → apart is (index_number i ∷ seen) ≡ true
apart-cons i [] seen low count r h m a = refl
apart-cons (ℤ.pos n) (ℤ.pos j ∷ is) seen low count r h m a =
    ground (arith, apart-cons (ℤ.pos n) is seen low count)
apart-cons (ℤ.pos n) (ℤ.negsuc j ∷ is) seen low count r h m a = ground arith
apart-cons (ℤ.negsuc n) is seen low count r h m a = cc

templates-encode_from :
    (ts : List (ℤ × ArgumentTemplate)) (low count : ℕ) (seen : List ℕ)
    → all (template_indices ts) (λ j. index_in_range (ℤ.pos low) j count) ≡ true
    → unique (template_indices ts) ≡ true
    → apart (template_indices ts) seen ≡ true
    → all (templates_of ts) built_template ≡ true
    → parse_templates_from (items ts encode_template) count low seen ≡ ok (numbered ts)
unfolding parse_templates_from
templates-encode_from [] low count seen r u a b = refl
templates-encode_from ((i, t) ∷ ts) low count seen r u a b = ground (
  arith,
  parse-encode_template i t low count seen,
  apart-cons i (template_indices ts) seen low count,
  templates-encode_from ts low count (index_number i ∷ seen),
)

apart-nil : (is : List ℤ) → apart is [] ≡ true
apart-nil [] = refl
apart-nil (i ∷ is) = apart-nil is

pub templates-encode_template :
    (ts : List (ℤ × ArgumentTemplate)) (low count : ℕ)
    → all (template_indices ts) (λ j. index_in_range (ℤ.pos low) j count) ≡ true
    → unique (template_indices ts) ≡ true
    → all (templates_of ts) built_template ≡ true
    → parse_templates_from (items ts encode_template) count low [] ≡ ok (numbered ts)
templates-encode_template ts low count r u b =
    templates-encode_from ts low count [] r u (apart-nil (template_indices ts)) b

pub start_templates-numbered :
    (ts : List (ℤ × ArgumentTemplate)) → start_templates (numbered ts) ≡ templates_of ts
start_templates-numbered [] = refl
start_templates-numbered ((i, t) ∷ ts) =
    ap (λ (us : List ArgumentTemplate). t ∷ us) (start_templates-numbered ts)
