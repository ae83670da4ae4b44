-- ===== src/Commands/Encode/Services.antt =====
-- The required paths and the listeners of a START message decode to what they were encoded from.
use Prim.Native.String.{String}
use zephyr_remote_openocd.Shared.{
  ◌≡◌, refl, ap, true, false, Option, none, some, List, [], ◌∷◌, arith, all, any, string_eq, int_eq,
  nat_eq, ok,
}
use zephyr_remote_openocd.Endpoints.{ListenerSpec, validated_listeners}
use zephyr_remote_openocd.Wire.Json.{str, arr, obj, end, field, exact}
use zephyr_remote_openocd.Arguments.{Plain, Part, plain, word, ArgumentTemplate, is_empty}
use zephyr_remote_openocd.Arguments.Wire.{items, encode_part, wire_parts}
use zephyr_remote_openocd.Process.{
  PathKind, file, directory, RequiredPathSpec, make_required_path, path_templates, is_word,
}
use zephyr_remote_openocd.Commands.{
  each, parse_plain_part, parse_plain_parts, PathValue, path_text, path_template, RequiredPath,
}
use zephyr_remote_openocd.Commands.Start.{
  path_kind, plain_parts, path_value, parse_required_path, is_service, parse_listener,
  parse_listeners, start_paths, all_items,
}
use zephyr_remote_openocd.Commands.Encode.{kind_name, encode_path, encode_check, encode_listener}
use zephyr_remote_openocd.Commands.Encode.Built.{built_template, built_path, built_listener}
use zephyr_remote_openocd.Commands.Encode.Parts.{parse-encode_plain, template-made}

abbrev plains : List Part → List Plain
plains [] = []
plains (plain p ∷ qs) = p ∷ plains qs
plains (word w ∷ qs) = plains qs

plain_parts-plains : (qs : List Part) → any qs is_word ≡ false → plain_parts (plains qs) ≡ qs
unfolding is_word
plain_parts-plains [] h = refl
plain_parts-plains (plain p ∷ qs) h =
    ap (λ (rs : List Part). plain p ∷ rs) (plain_parts-plains qs h)
plain_parts-plains (word w ∷ qs) h = cc

each-encode_plains :
    (qs : List Part)
    → any qs is_word ≡ false
    → each (items qs encode_part) parse_plain_part ≡ ok (plains qs)
unfolding is_word encode_part
each-encode_plains [] h = refl
each-encode_plains (plain p ∷ qs) h = rw (parse-encode_plain p, each-encode_plains qs h)
each-encode_plains (word w ∷ qs) h = cc

parts-encode_plains :
    (qs : List Part)
    → is_empty qs ≡ false
    → any qs is_word ≡ false
    → parse_plain_parts (arr (items qs encode_part)) ≡ ok (plains qs)
unfolding parse_plain_parts
parts-encode_plains [] e h = cc
parts-encode_plains (q ∷ qs) e h = each-encode_plains (q ∷ qs) h

abbrev pub path_of : RequiredPathSpec → PathValue
path_of check = elim check.template [ none ↦ path_text check.path | some t ↦ path_template t ]

abbrev pub check_of : RequiredPathSpec → RequiredPath
check_of check = record { kind = check.kind; path = path_of check }

abbrev pub checks_of : List RequiredPathSpec → List RequiredPath
checks_of [] = []
checks_of (check ∷ checks) = check_of check ∷ checks_of checks

path_value-template :
    (t : ArgumentTemplate)
    → built_template t ≡ true
    → any t.parts is_word ≡ false
    → path_value (obj (field "parts" (wire_parts t) end)) ≡ ok (path_template t)
unfolding path_value wire_parts exact built_template
path_value-template t b h =
    let (made, some_part) = template-made t.parts (ground arith) in
    rw (parts-encode_plains t.parts some_part h, plain_parts-plains t.parts h, made)

path_value-encode_path :
    (path : String) (kind : PathKind) (template : Option ArgumentTemplate)
    → built_path (record { path = path; kind = kind; template = template }) ≡ true
    → path_value (encode_path (record { path = path; kind = kind; template = template }))
      ≡ ok (path_of (record { path = path; kind = kind; template = template }))
unfolding encode_path built_path
path_value-encode_path path kind none h = unfold path_value make_required_path in ground arith
path_value-encode_path path kind (some t) h =
    path_value-template t (ground arith) (unfold make_required_path in ground arith)

path_kind-kind_name : (kind : PathKind) → path_kind (str (kind_name kind)) ≡ ok kind
unfolding path_kind kind_name
path_kind-kind_name file = refl
path_kind-kind_name directory = refl

parse-encode_check :
    (check : RequiredPathSpec)
    → built_path check ≡ true
    → parse_required_path (encode_check check) ≡ ok (check_of check)
unfolding parse_required_path encode_check exact
parse-encode_check check h = ground (
  arith,
  path_kind-kind_name check.kind,
  path_value-encode_path check.path check.kind check.template h,
)

pub each-encode_check :
    (checks : List RequiredPathSpec)
    → all checks built_path ≡ true
    → each (items checks encode_check) parse_required_path ≡ ok (checks_of checks)
each-encode_check [] h = refl
each-encode_check (check ∷ checks) h =
    rw (parse-encode_check check (ground arith), each-encode_check checks (ground arith))

pub start_paths-checks_of :
    (checks : List RequiredPathSpec) → start_paths (checks_of checks) ≡ path_templates checks
start_paths-checks_of [] = refl
start_paths-checks_of (check ∷ checks) = ground (arith, start_paths-checks_of checks)

parse-encode_listener :
    (l : ListenerSpec) → built_listener l ≡ true → parse_listener (encode_listener l) ≡ ok l
unfolding parse_listener encode_listener built_listener
parse-encode_listener l h = ground arith

each-encode_listener :
    (ls : List ListenerSpec)
    → all ls built_listener ≡ true
    → each (items ls encode_listener) parse_listener ≡ ok ls
each-encode_listener [] h = refl
each-encode_listener (l ∷ ls) h =
    rw (parse-encode_listener l (ground arith), each-encode_listener ls (ground arith))

services-encode_listener :
    (ls : List ListenerSpec) → all_items (items ls encode_listener) is_service ≡ true
unfolding is_service encode_listener exact
services-encode_listener [] = refl
services-encode_listener (l ∷ ls) = services-encode_listener ls

pub parse_listeners-encode_listener :
    (ls : List ListenerSpec)
    → all ls built_listener ≡ true
    → validated_listeners ls ≡ ok ls
    → parse_listeners (arr (items ls encode_listener)) ≡ ok ls
unfolding parse_listeners
parse_listeners-encode_listener ls h v =
    rw (services-encode_listener ls, each-encode_listener ls h) v
