-- ===== src/Tcl.antt =====
-- `tcl_quote` of protocol/tcl.py, on texts as lists of code points.
pub mod Words
mod Tests
use zephyr_remote_openocd.Shared.{ℕ, Bool, true, false, List, [], ◌∷◌, ◌++◌, if◌then◌else◌, nat_beq}

abbrev pub backslash : ℕ
backslash = 92

abbrev pub quote : ℕ
quote = 34

-- `"$[]"` and `"{}"`
abbrev pub substitutions : List ℕ
substitutions = 36 ∷ 91 ∷ 93 ∷ []

abbrev pub braces : List ℕ
braces = 123 ∷ 125 ∷ []

-- `value.replace(character, "\\" + character)`
unfoldable pub replace : ℕ → List ℕ → List ℕ
replace character [] = []
replace character (c ∷ cs) =
    let rest = replace character cs in
    if nat_beq c character then backslash ∷ c ∷ rest else c ∷ rest

-- The loop on the characters.
unfoldable pub replace_each : List ℕ → List ℕ → List ℕ
unfolding replace
replace_each [] escaped = escaped
replace_each (character ∷ characters) escaped = replace_each characters (replace character escaped)

abbrev pub looped : Bool → List ℕ
looped true = substitutions ++ braces
looped false = substitutions

unfoldable pub tcl_quote : List ℕ → Bool → List ℕ
unfolding replace_each
tcl_quote value shield_placeholders =
    quote
    ∷ (replace_each (looped shield_placeholders) (replace quote (replace backslash value))
        ++ (quote ∷ []))
