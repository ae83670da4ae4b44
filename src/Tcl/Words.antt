-- ===== src/Tcl/Words.antt =====
-- A quoted text is one Tcl word, which stands for the text.
use zephyr_remote_openocd.Shared.{
  ℕ, ◌≡◌, refl, Bool, true, false, ◌&&◌, ◌||◌, Option, none, some, List, [], ◌∷◌, ◌++◌, arith,
  if◌then◌else◌, nat_beq, append_assoc, nat_eq,
}
use zephyr_remote_openocd.Tcl.{backslash, quote, looped, replace, replace_each, tcl_quote}

-- The characters that the quoting escapes.
abbrev is_escaped : Bool → ℕ → Bool
is_escaped shield c =
    nat_beq c backslash
    || (nat_beq c quote
        || (nat_beq c 36
            || (nat_beq c 91 || (nat_beq c 93 || (shield && (nat_beq c 123 || nat_beq c 125))))))

-- Every such character with a backslash before it, in one pass.
escaped : Bool → List ℕ → List ℕ
escaped shield [] = []
escaped shield (c ∷ cs) =
    let rest = escaped shield cs in if is_escaped shield c then backslash ∷ c ∷ rest else c ∷ rest

replace_each-escaped :
    (shield : Bool) (value : List ℕ)
    → replace_each (looped shield) (replace quote (replace backslash value)) ≡ escaped shield value
unfolding replace_each replace escaped
replace_each-escaped true [] = refl
replace_each-escaped false [] = refl
replace_each-escaped true (c ∷ cs) = ground (arith, replace_each-escaped true cs)
replace_each-escaped false (c ∷ cs) = ground (arith, replace_each-escaped false cs)

pub record Word : Type 0 where
  pub value : List ℕ
  pub rest : List ℕ

abbrev prefixed : ℕ → Option Word → Option Word
prefixed c none = none
prefixed c (some w) = some (record w { value = c ∷ w.value })

-- A backslash before one of these stands for the character itself.
abbrev is_literal : ℕ → Bool
is_literal c = is_escaped true c

-- The inside of a quoted word by the rules of Tcl, to its closing quote: `none` where it would
-- substitute a variable or a command, where a backslash stands before another character than those
-- that mean themselves, or where no quote closes it.
inside : Bool → List ℕ → Option Word
inside escape [] = none
inside true (c ∷ cs) =
    let later = inside false cs in if is_literal c then prefixed c later else none
inside false (c ∷ cs) =
    let after = inside true cs in
    let later = inside false cs in
    if nat_beq c backslash
    then after
    else if nat_beq c quote
    then some (record { value = []; rest = cs })
    else if nat_beq c 36 || nat_beq c 91
    then none
    else prefixed c later

-- A quoted word at the start of a text, and the text behind it.
pub read_word : List ℕ → Option Word
unfolding inside
read_word [] = none
read_word (c ∷ cs) = if nat_beq c quote then inside false cs else none

inside-escaped :
    (shield : Bool) (value rest : List ℕ)
    → inside false (escaped shield value ++ (quote ∷ rest))
      ≡ some (record { value = value; rest = rest })
unfolding inside escaped
inside-escaped shield [] rest = refl
inside-escaped shield (c ∷ cs) rest = ground (arith, inside-escaped shield cs rest)

-- Whatever the text and whatever follows it, Tcl reads a quoted text as one word, without a variable
-- or command substitution, and the word's value is the text.
pub read_word-tcl_quote :
    (value : List ℕ) (shield : Bool) (rest : List ℕ)
    → read_word (tcl_quote value shield ++ rest) ≡ some (record { value = value; rest = rest })
unfolding read_word tcl_quote
read_word-tcl_quote value shield rest =
    rw (replace_each-escaped shield value, append_assoc) (inside-escaped shield value rest)
