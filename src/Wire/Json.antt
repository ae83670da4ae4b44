-- ===== src/Wire/Json.antt =====
-- The values of a decoded frame, and the tests of protocol/wire.py on them.
use Prim.Native.Char.{code}
use Prim.Native.String.{String}
use zephyr_remote_openocd.Shared.{
  ℕ, Bool, true, false, not, ◌&&◌, ◌||◌, Option, none, some, List, [], ◌∷◌, if◌then◌else◌, nat_beq,
  string_eq, ◌==◌, member, nat_eq, ℤ, at_least,
}

-- What `json.loads` builds. A float is the bit pattern of its binary64 value; an object is its items in
-- the order of its keys.
mutual
  pub data Json : Type 0 where
    null : Json
    bool : Bool → Json
    int : ℤ → Json
    float : ℕ → Json
    str : String → Json
    arr : Items → Json
    obj : Fields → Json

  pub data Items : Type 0 where
    nil : Items
    cons : Json → Items → Items

  pub data Fields : Type 0 where
    end : Fields
    field : String → Json → Fields → Fields

-- The code points of a text.
abbrev pub codes : String → List ℕ
codes String.[] = []
codes (String.◌∷◌ c s) = code c ∷ codes s

abbrev pub keys : Fields → List String
keys end = []
keys (field k v fs) = k ∷ keys fs

-- `value.get(key)`, or `value[key]` on a key that is there
abbrev pub get : String → Fields → Option Json
get key end = none
get key (field k v fs) = if k == key then some v else get key fs

abbrev pub covers : List String → List String → Bool
covers [] ys = true
covers (x ∷ xs) ys = member x ys && covers xs ys

-- `_exact`: an object whose set of keys is `fields`. A dict's keys are unique.
unfoldable pub exact : Fields → List String → Bool
exact value fields = covers (keys value) fields && covers fields (keys value)

abbrev pub above : Option ℕ → ℤ → Bool
above none n = true
above (some low) n = at_least low n

-- `integer(value, low=low)`; a `bool` is no integer
unfoldable pub integer : Option Json → Option ℕ → Bool
integer (some (int n)) low = above low n
integer _ low = false

is_blank : String → Bool
is_blank String.[] = true
is_blank (String.◌∷◌ c s) = false

-- `"\0" in value`, `"\n" in value`
unfoldable pub contains : ℕ → String → Bool
contains c text = member c (codes text)

-- `string(value, nonempty=…, no_nul=…)`
unfoldable pub string : Option Json → Bool → Bool → Bool
unfolding is_blank contains
string (some (str s)) nonempty no_nul =
    (not nonempty || not (is_blank s)) && (not no_nul || not (contains 0 s))
string _ nonempty no_nul = false

abbrev pub is_int : ℕ → Option Json → Bool
is_int n (some (int (ℤ.pos m))) = nat_beq m n
is_int n _ = false
