-- ===== src/Tcl/Tests.antt =====
-- A text with characters of every kind.
use zephyr_remote_openocd.Shared.{ℕ, ◌≡◌, true, some, List, [], ◌∷◌, ◌++◌}
use zephyr_remote_openocd.Tcl.{tcl_quote}
use zephyr_remote_openocd.Tcl.Words.{read_word, read_word-tcl_quote}

abbrev script : List ℕ
script = 97 ∷ 36 ∷ 92 ∷ 34 ∷ 123 ∷ 93 ∷ []

read_word-tcl_quote_example :
    read_word (tcl_quote script true ++ (32 ∷ []))
    ≡ some (record { value = script; rest = 32 ∷ [] })
read_word-tcl_quote_example = read_word-tcl_quote script true (32 ∷ [])
