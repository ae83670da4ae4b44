-- ===== src/Shared/Lists.antt =====
-- Python sequences and sets of values: lists measured by native numbers.
use Prim.Native.Nat.{ℕ, zero, suc, ◌+◌, ◌-◌, ◌≤◌}
use mathlib.Core.Path.{◌≡◌, refl, ap}
use mathlib.Core.Logic.{◌⊎◌, inl, inr}
use mathlib.Core.Bool.{Bool, true, false, not, ◌&&◌, ◌||◌}
use mathlib.Core.List.{List, [], ◌∷◌, ◌++◌, append_assoc}
use native.Mathlib.Omega.{arith}
use native.Mathlib.Nat.{zero-add, suc-add}
use zephyr_remote_openocd.Shared.Tests.{Eq, ◌==◌, if◌then◌else◌}

module _ {ℓ} {A : Type ℓ} where
  abbrev pub length : List A → ℕ
  length [] = 0
  length (x ∷ xs) = suc (length xs)

  abbrev pub take : ℕ → List A → List A
  take zero xs = []
  take (suc n) [] = []
  take (suc n) (x ∷ xs) = x ∷ take n xs

  abbrev pub drop : ℕ → List A → List A
  drop zero xs = xs
  drop (suc n) [] = []
  drop (suc n) (x ∷ xs) = drop n xs

  pub length-append : (xs ys : List A) → length (xs ++ ys) ≡ length xs + length ys
  length-append [] ys = omega arith
  length-append (x ∷ xs) ys = omega (arith, length-append xs ys)

  pub take-append-drop : (n : ℕ) (xs : List A) → take n xs ++ drop n xs ≡ xs
  take-append-drop zero xs = refl
  take-append-drop (suc n) [] = refl
  take-append-drop (suc n) (x ∷ xs) = ap (λ ys. x ∷ ys) (take-append-drop n xs)

  pub length-take : (n : ℕ) (xs : List A) → n ≤ length xs → length (take n xs) ≡ n
  length-take zero xs h = refl
  length-take (suc n) [] h = absurd (omega arith)
  length-take (suc n) (x ∷ xs) h = ap suc (length-take n xs (omega arith))

  pub length-drop : (n : ℕ) (xs : List A) → length (drop n xs) ≡ length xs - n
  length-drop zero xs = omega arith
  length-drop (suc n) [] = omega arith
  length-drop (suc n) (x ∷ xs) = omega (arith, length-drop n xs)

  -- `all(test(x) for x in xs)` and `any(…)`
  abbrev pub all : List A → (A → Bool) → Bool
  all [] test = true
  all (x ∷ xs) test = test x && all xs test

  abbrev pub any : List A → (A → Bool) → Bool
  any [] test = false
  any (x ∷ xs) test = test x || any xs test

-- Sets as lists.
module _ {ℓ} {A : Type ℓ} ⦃e : Eq A⦄ where
  -- `a in xs`
  abbrev pub member : A → List A → Bool
  member a [] = false
  member a (x ∷ xs) = a == x || member a xs

  -- `set(xs).issubset(ys)`
  abbrev pub subset : List A → List A → Bool
  subset [] ys = true
  subset (x ∷ xs) ys = member x ys && subset xs ys

  -- `len(xs) == len(set(xs))`
  abbrev pub unique : List A → Bool
  unique [] = true
  unique (x ∷ xs) = not (member x xs) && unique xs

  -- `xs | {a}`
  abbrev pub insert : A → List A → List A
  insert a xs = if member a xs then xs else a ∷ xs

module _ {ℓ} {A : Type ℓ} ⦃e : Eq A⦄ where
  pub beq_refl : (a : A) → (a == a) ≡ true
  beq_refl a = (e.beq_iff a a).1 refl

  pub member-subset :
      (a : A) (xs ys : List A) → member a xs ≡ true → subset xs ys ≡ true → member a ys ≡ true
  member-subset a [] ys m s = cc
  member-subset a (x ∷ xs) ys m s = ground (arith, e.beq_iff a x, member-subset a xs ys)

  pub subset_trans :
      (xs ys zs : List A) → subset xs ys ≡ true → subset ys zs ≡ true → subset xs zs ≡ true
  subset_trans [] ys zs h k = refl
  subset_trans (x ∷ xs) ys zs h k = ground (arith, member-subset x ys zs, subset_trans xs ys zs)

  pub subset_weaken : (a : A) (xs ys : List A) → subset xs ys ≡ true → subset xs (a ∷ ys) ≡ true
  subset_weaken a [] ys h = refl
  subset_weaken a (x ∷ xs) ys h = ground (arith, subset_weaken a xs ys)

  pub subset_refl : (xs : List A) → subset xs xs ≡ true
  subset_refl [] = refl
  subset_refl (x ∷ xs) = ground (arith, beq_refl x, subset_weaken x xs xs, subset_refl xs)

  pub subset-insert :
      (a : A) (xs ys : List A) → subset xs ys ≡ true → subset (insert a xs) (a ∷ ys) ≡ true
  subset-insert a xs ys h = ground (arith, beq_refl a, subset_weaken a xs ys)

module _ {ℓ} {A : Type ℓ} where
  abbrev pub flatten : List (List A) → List A
  flatten [] = []
  flatten (xs ∷ xss) = xs ++ flatten xss

  pub all-append :
      (xs ys : List A) (test : A → Bool) → all (xs ++ ys) test ≡ (all xs test && all ys test)
  all-append [] ys test = refl
  all-append (x ∷ xs) ys test = ground (arith, all-append xs ys test)

  pub flatten-append : (xss yss : List (List A)) → flatten (xss ++ yss) ≡ flatten xss ++ flatten yss
  flatten-append [] yss = refl
  flatten-append (xs ∷ xss) yss = rw (flatten-append xss yss, append_assoc)

module _ {ℓ} {A : Type ℓ} where
  pub drop-append : (n : ℕ) (xs ys : List A) → n ≤ length xs → drop n (xs ++ ys) ≡ drop n xs ++ ys
  drop-append zero xs ys h = refl
  drop-append (suc n) [] ys h = absurd (omega arith)
  drop-append (suc n) (x ∷ xs) ys h = drop-append n xs ys (omega arith)

  pub drop-length : (xs : List A) → drop (length xs) xs ≡ []
  drop-length [] = refl
  drop-length (x ∷ xs) = drop-length xs

  pub drop-drop : (m n : ℕ) (xs : List A) → drop n (drop m xs) ≡ drop (m + n) xs
  drop-drop zero n xs = rw zero-add
  drop-drop (suc m) zero [] = rw suc-add
  drop-drop (suc m) (suc n) [] = rw suc-add
  drop-drop (suc m) n (x ∷ xs) = rw suc-add (drop-drop m n xs)

  pub take-append : (n : ℕ) (xs ys : List A) → n ≤ length xs → take n (xs ++ ys) ≡ take n xs
  take-append zero xs ys h = refl
  take-append (suc n) [] ys h = absurd (omega arith)
  take-append (suc n) (x ∷ xs) ys h = ap (λ zs. x ∷ zs) (take-append n xs ys (omega arith))

pub List-cases {ℓ} :
    {A : Type ℓ} (xs : List A) → (xs ≡ []) ⊎ ((x : A) × (ys : List A) × (xs ≡ x ∷ ys))
List-cases [] = inl refl
List-cases (x ∷ xs) = inr (x, xs, refl)
