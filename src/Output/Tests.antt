-- ===== src/Output/Tests.antt =====
-- Concrete chunks.
use zephyr_remote_openocd.Shared.{ℕ, ◌≡◌, List, [], ◌∷◌, ◌++◌}
use zephyr_remote_openocd.Output.{feed}
use zephyr_remote_openocd.Output.Fragments.{text, feed-text}

-- A line and the start of another.
abbrev chunk : List ℕ
chunk = 65 ∷ 66 ∷ 10 ∷ 10 ∷ 67 ∷ []

feed-text_example :
    (text (feed chunk (64 ∷ [])).fragments ≡ (64 ∷ []) ++ chunk)
    × ((feed chunk (64 ∷ [])).pending ≡ [])
feed-text_example = feed-text chunk (64 ∷ [])
