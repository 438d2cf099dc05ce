-- ===== src/Run.antt =====
-- Runs of C code over an explicit state: a value and the state after it, a fault (undefined
-- behaviour, such as a null dereference or a double free), or a run cut off by its fuel.

use mathlib.Core.Path.{◌≡◌, refl}

pub data Run (S A : Type 0) : Type 0 where
  ok : A → S → Run S A
  fault : Run S A
  out_of_fuel : Run S A

abbrev pub Cmd : Type 0 → Type 0 → Type 0
Cmd S A = S → Run S A

module _ {S : Type 0} where
  abbrev pub pure : {A : Type 0} → A → Cmd S A
  pure a s = ok a s

  abbrev pub and_then : {A B : Type 0} → Run S A → (A → Cmd S B) → Run S B
  and_then (ok a s) f = f a s
  and_then fault f = fault
  and_then out_of_fuel f = out_of_fuel

  infixl 5 ◌>>=◌ ◌>>◌
  abbrev pub ◌>>=◌ : {A B : Type 0} → Cmd S A → (A → Cmd S B) → Cmd S B
  ◌>>=◌ m f s = and_then (m s) f

  abbrev pub ◌>>◌ : {B : Type 0} → Cmd S (Unit {0}) → Cmd S B → Cmd S B
  m >> k = m >>= λ _. k

-- Total correctness: the run ends without a fault, and its result and state satisfy `P`.
pub data Returns {S A : Type 0} (P : A → S → Type 0) : Run S A → Type 0 where
  returns : {a : A} {s : S} → P a s → Returns P (ok a s)

module _ {S A : Type 0} {P : A → S → Type 0} where
  pub Returns-mono :
      {Q : A → S → Type 0} {r : Run S A}
      → Returns P r
      → ((a : A) (s : S) → P a s → Q a s)
      → Returns Q r
  Returns-mono (returns p) weaken = returns (weaken _ _ p)

  pub Returns-bind :
      {B : Type 0} {Q : B → S → Type 0} {r : Run S A} {k : A → Cmd S B}
      → Returns P r
      → ((a : A) (s : S) → P a s → Returns Q (k a s))
      → Returns Q (and_then r k)
  Returns-bind (returns p) next = next _ _ p

-- The same predicate by recursion on the run, for proofs by case splits.
abbrev pub Ends : {S A : Type 0} → (A → S → Type 0) → Run S A → Type 0
Ends P (ok a s) = P a s
Ends P fault = ⊥
Ends P out_of_fuel = ⊥

pub Ends-Returns : {S A : Type 0} {P : A → S → Type 0} (r : Run S A) → Ends P r → Returns P r
Ends-Returns (ok a s) p = returns p
Ends-Returns fault h = elim h [ ]
Ends-Returns out_of_fuel h = elim h [ ]

pub Returns-Ends : {S A : Type 0} {P : A → S → Type 0} {r : Run S A} → Returns P r → Ends P r
Returns-Ends (returns p) = p

-- The result and the state of a run that ends well.
pub Returns-run :
    {S A : Type 0} {P : A → S → Type 0} {r : Run S A}
    → Returns P r
    → (a : A) × (s : S) × (r ≡ ok a s) × P a s
Returns-run (returns p) = (_, _, refl, p)

pub Ends-ok :
    {S A : Type 0} (P : A → S → Type 0) (a : A) (s : S) {r : Run S A}
    → r ≡ ok a s
    → P a s
    → Ends P r
Ends-ok P a s e p = rw e p

pub Returns-both :
    {S A : Type 0} {P Q : A → S → Type 0} {r : Run S A}
    → Returns P r
    → Returns Q r
    → Returns (λ a s. P a s × Q a s) r
Returns-both (returns p) (returns q) = returns (p, q)
