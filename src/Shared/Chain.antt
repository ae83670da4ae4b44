-- ===== src/Shared/Chain.antt =====
-- Calls that may raise and change no object, in a row.
use zephyr_remote_openocd.Shared.Results.{Result, ok, raised, value_error}
use Prim.Native.String.{String}
use native.Mathlib.Omega.{arith}
use mathlib.Core.Bool.{Bool, true, false}
use mathlib.Core.Path.{◌≡◌, refl}
use mathlib.Core.List.{List, [], ◌∷◌}

infixl 5 ◌>>=◌ ◌>>◌
abbrev pub ◌>>=◌ {ℓ κ} : {A : Type ℓ} {B : Type κ} → Result A → (A → Result B) → Result B
ok a >>= f = f a
raised e >>= f = raised e

abbrev pub ◌>>◌ {ℓ κ} : {A : Type ℓ} {B : Type κ} → Result A → Result B → Result B
ok a >> k = k
raised e >> k = raised e

-- `if not test: raise ValueError(text)`
abbrev pub require : Bool → String → Result (Unit {0})
require true text = ok tt
require false text = raised (value_error text)

-- `tuple(f(x) for x in xs)`
abbrev pub traverse {ℓ κ} : {A : Type ℓ} {B : Type κ} → List A → (A → Result B) → Result (List B)
traverse [] f = ok []
traverse (x ∷ xs) f = f x >>= λ y. traverse xs f >>= λ ys. ok (y ∷ ys)

-- A chain that ends well has run its first step well, and the rest from its result.
pub bind-ok {ℓ κ} :
    {A : Type ℓ} {B : Type κ} (r : Result A) (k : A → Result B) (b : B)
    → (r >>= k) ≡ ok b
    → (a : A) × ((r ≡ ok a) × (k a ≡ ok b))
bind-ok (ok a) k b h = (a, (refl, h))
bind-ok (raised e) k b h = absurd (ground arith)

pub then-ok {ℓ κ} :
    {A : Type ℓ} {B : Type κ} (r : Result A) (k : Result B) (b : B)
    → (r >> k) ≡ ok b
    → (a : A) × ((r ≡ ok a) × (k ≡ ok b))
then-ok (ok a) k b h = (a, (refl, h))
then-ok (raised e) k b h = absurd (ground arith)
