-- ===== src/Helper/Logic.antt =====
-- Actions that return: what a statement gives is a value, and the value and the new state satisfy a
-- predicate.
use zephyr_remote_openocd.Shared.{
  ◌≡◌, ◌⊎◌, refl, Bool, true, false, if◌then◌else◌, Error, Result, ok, raised, Exec, continue,
  Result-cases, inl, inr,
}
use zephyr_remote_openocd.Helper.Recording.{handled, when}

pub record Returns {S A : Type 0} (given : Result A × S) (P : A → S → Type 0) : Type 0 where
  pub value : A
  pub done : given.0 ≡ ok value
  pub post : P value given.1

pub returned :
    {S A : Type 0} {given : Result A × S} {P : A → S → Type 0} (a : A)
    → given.0 ≡ ok a
    → P a given.1
    → Returns given P
returned a e p = record { value = a; done = e; post = p }

-- The rest of a `do` block runs from what its first statement gives.
pub then-Returns :
    {S A B : Type 0} {given : Result A × S} {k : A → Exec S B} {Q : B → S → Type 0}
    (P : A → S → Type 0)
    → Returns given P
    → ((a : A) (t : S) → P a t → Returns (k a t) Q)
    → Returns (continue given.0 given.1 k) Q
then-Returns {given = given} {k = k} P r next =
    let n = next r.value given.1 r.post in returned n.value (rw r.done n.done) (rw r.done n.post)

-- A statement that raises this error
pub record Raises {S A : Type 0} (given : Result A × S) (e : Error) (P : S → Type 0) : Type 0 where
  pub done : given.0 ≡ raised e
  pub post : P given.1

-- A `do` block whose rest returns or raises does so after a first statement that returns.
pub then-Ends :
    {S A B : Type 0} {given : Result A × S} {k : A → Exec S B} {Q : B → S → Type 0} {e : Error}
    {R : S → Type 0} (P : A → S → Type 0)
    → Returns given P
    → ((a : A) (t : S) → P a t → Returns (k a t) Q ⊎ Raises (k a t) e R)
    → Returns (continue given.0 given.1 k) Q ⊎ Raises (continue given.0 given.1 k) e R
then-Ends {given = given} {k = k} P r next = elim (next r.value given.1 r.post) [
  | inl n ↦ inl (returned n.value (rw r.done n.done) (rw r.done n.post))
  | inr n ↦ inr (record { done = rw r.done n.done; post = rw r.done n.post })
]

pub weaker :
    {S A : Type 0} {given : Result A × S} {P Q : A → S → Type 0}
    → Returns given P
    → ((a : A) (t : S) → P a t → Q a t)
    → Returns given Q
weaker {given = given} r h = returned r.value r.done (h r.value given.1 r.post)

-- `try` returns where its body returns and where its handler does.
pub attempt-Returns :
    {S A : Type 0} {P : A → S → Type 0} (given : Result A × S) (handler : Error → Exec S A)
    → ((a : A) → given.0 ≡ ok a → P a given.1)
    → ((e : Error) → given.0 ≡ raised e → Returns (handler e given.1) P)
    → Returns (handled given.0 given.1 handler) P
attempt-Returns given handler done failed = elim (Result-cases given.0) [
  | inl (a, e) ↦ returned a (rw e) (rw e (done a e))
  | inr (e, h) ↦ returned (failed e h).value (rw h (failed e h).done) (rw h (failed e h).post)
]

pub when-Returns :
    {S : Type 0} {P : Unit {0} → S → Type 0} (test : Bool) (m : Exec S (Unit {0})) (s : S)
    → (test ≡ true → Returns (m s) P)
    → (test ≡ false → P tt s)
    → Returns (when test m s) P
when-Returns true m s taken skipped = taken refl
when-Returns false m s taken skipped = returned tt refl (skipped refl)

pub if-Returns :
    {S A : Type 0} {P : A → S → Type 0} (test : Bool) (m k : Exec S A) (s : S)
    → (test ≡ true → Returns (m s) P)
    → (test ≡ false → Returns (k s) P)
    → Returns ((if test then m else k) s) P
if-Returns true m k s taken other = taken refl
if-Returns false m k s taken other = other refl

-- A predicate of the state that each step keeps, also one that raises
pub record Holds {S A : Type 0} (P : S → Type 0) (given : Result A × S) : Type 0 where
  pub held : P given.1

pub holds : {S A : Type 0} {P : S → Type 0} {given : Result A × S} → P given.1 → Holds P given
holds h = record { held = h }

module _ {S : Type 0} {P : S → Type 0} where
  then_result :
      {A B : Type 0} (r : Result A) (s : S) (k : A → Exec S B)
      → P s
      → ((a : A) (t : S) → P t → Holds P (k a t))
      → Holds P (continue r s k)
  then_result (ok a) s k h next = next a s h
  then_result (raised e) s k h next = holds h

  pub then-Holds :
      {A B : Type 0} {given : Result A × S} {k : A → Exec S B}
      → Holds P given
      → ((a : A) (t : S) → P t → Holds P (k a t))
      → Holds P (continue given.0 given.1 k)
  then-Holds {given = given} {k = k} h next = then_result given.0 given.1 k h.held next

  handled_result :
      {A : Type 0} (r : Result A) (s : S) (handler : Error → Exec S A)
      → P s
      → ((e : Error) (t : S) → P t → Holds P (handler e t))
      → Holds P (handled r s handler)
  handled_result (ok a) s handler h next = holds h
  handled_result (raised e) s handler h next = next e s h

  pub attempt-Holds :
      {A : Type 0} {given : Result A × S} {handler : Error → Exec S A}
      → Holds P given
      → ((e : Error) (t : S) → P t → Holds P (handler e t))
      → Holds P (handled given.0 given.1 handler)
  attempt-Holds {given = given} {handler = handler} h next =
      handled_result given.0 given.1 handler h.held next

  pub when-Holds :
      (test : Bool) (m : Exec S (Unit {0})) (s : S)
      → P s
      → (test ≡ true → Holds P (m s))
      → Holds P (when test m s)
  when-Holds true m s h taken = taken refl
  when-Holds false m s h taken = holds h

  pub if-Holds :
      {A : Type 0} (test : Bool) (m k : Exec S A) (s : S)
      → (test ≡ true → Holds P (m s))
      → (test ≡ false → Holds P (k s))
      → Holds P ((if test then m else k) s)
  if-Holds true m k s taken other = taken refl
  if-Holds false m k s taken other = other refl

into_result :
    {S A B : Type 0} {P Q : S → Type 0} (r : Result A) (s : S) (k : A → Exec S B)
    → P s
    → ((t : S) → P t → Q t)
    → ((a : A) (t : S) → P t → Holds Q (k a t))
    → Holds Q (continue r s k)
into_result (ok a) s k p weaken next = next a s p
into_result (raised e) s k p weaken next = holds (weaken s p)

-- A step keeps one predicate, and the rest runs under another that follows from it.
pub into-Holds :
    {S A B : Type 0} {Q : S → Type 0} {given : Result A × S} {k : A → Exec S B} (P : S → Type 0)
    → Holds P given
    → ((t : S) → P t → Q t)
    → ((a : A) (t : S) → P t → Holds Q (k a t))
    → Holds Q (continue given.0 given.1 k)
into-Holds {given = given} {k = k} P h weaken next =
    into_result given.0 given.1 k h.held weaken next
