-- ===== src/Prelude/State.antt =====
-- Code that may change a state and may fault. A fault is undefined behaviour (an access through a
-- dangling pointer, a second release) or an abort of the process.
use mathlib.Core.Path.{◌≡◌, refl}
use mathlib.Core.Option.{Option, none, some}

abbrev pub Run : Type 0 → Type 0 → Type 0
Run S A = S → Option (A × S)

abbrev pub pure : {S A : Type 0} → A → S → Option (A × S)
pure a s = some (a, s)

abbrev pub fault : {S A : Type 0} → S → Option (A × S)
fault s = none

-- What is done with the outcome of a run: a fault goes on as a fault.
abbrev pub and_then :
    {S T A B : Type 0} → Option (A × S) → (A → S → Option (B × T)) → Option (B × T)
and_then none f = none
and_then (some (a, s)) f = f a s

infixl 5 ◌>>=◌ ◌>>◌
abbrev pub ◌>>=◌ :
    {S A B : Type 0} → (S → Option (A × S)) → (A → S → Option (B × S)) → S → Option (B × S)
◌>>=◌ m f s = and_then (m s) f

abbrev pub ◌>>◌ :
    {S B : Type 0} → (S → Option (Unit {0} × S)) → (S → Option (B × S)) → S → Option (B × S)
m >> k = m >>= λ _. k

-- Total correctness of a run: no fault, and a postcondition.
pub data Returns {S A : Type 0} (P : A → S → Type 0) : Option (A × S) → Type 0 where
  returns : {a : A} {s : S} → P a s → Returns P (some (a, s))

module _ {S A : Type 0} {P : A → S → Type 0} where
  pub bind :
      {B T : Type 0} {Q : B → T → Type 0} {r : Option (A × S)} {f : A → S → Option (B × T)}
      → Returns P r
      → ((a : A) (s : S) → P a s → Returns Q (f a s))
      → Returns Q (and_then r f)
  bind (returns p) next = next _ _ p

  pub mono :
      {Q : A → S → Type 0} {r : Option (A × S)}
      → Returns P r
      → ((a : A) (s : S) → P a s → Q a s)
      → Returns Q r
  mono (returns p) weaken = returns (weaken _ _ p)

  -- A run that returns has an outcome, of which the postcondition holds.
  pub outcome : {r : Option (A × S)} → Returns P r → (a : A) × (s : S) × (r ≡ some (a, s)) × P a s
  outcome (returns {a} {s} p) = (a, s, refl, p)
