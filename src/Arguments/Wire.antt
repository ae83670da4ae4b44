-- ===== src/Arguments/Wire.antt =====
-- `wire_parts`: the value that a template has in a START message.
use zephyr_remote_openocd.Shared.{List, [], ◌∷◌}
use zephyr_remote_openocd.Wire.Json.{Json, str, arr, obj, Items, nil, cons, end, field}
use zephyr_remote_openocd.Arguments.{
  Plain, literal, session, value_of, Part, plain, word, ArgumentTemplate,
}

-- The value of a list of which each member has the value `f x`.
abbrev pub items {ℓ} : {A : Type ℓ} → List A → (A → Json) → Items
items [] f = nil
items (x ∷ xs) f = cons (f x) (items xs f)

unfoldable pub encode_plain : Plain → Json
unfolding value_of
encode_plain (literal s) = str s
encode_plain (session v) = obj (field "session" (str (value_of v)) end)

unfoldable pub encode_part : Part → Json
unfolding encode_plain
encode_part (plain p) = encode_plain p
encode_part (word w) = obj (field "tcl_word" (arr (items w.parts encode_plain)) end)

unfoldable pub wire_parts : ArgumentTemplate → Json
unfolding encode_part
wire_parts t = arr (items t.parts encode_part)
