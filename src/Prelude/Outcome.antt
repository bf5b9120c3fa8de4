-- ===== src/Prelude/Outcome.antt =====
-- A raised exception as a value: the result of Python code that returns or raises.
use mathlib.Core.Path.{◌≡◌, refl}
use mathlib.Core.Logic.{◌⊎◌, inl, inr}
use mathlib.Core.Bool.{Bool, true, false}

-- `E` is what a component can raise.
pub data Result (E : Type 0) (A : Type 0) : Type 0 where
  err : E → Result E A
  ok : A → Result E A

-- `if test: raise problem`
abbrev pub raise_if : {E : Type 0} → Bool → E → Result E (Unit {0})
raise_if false problem = ok tt
raise_if true problem = err problem

infixl 5 ◌>>=◌
-- The statements after one that may raise.
abbrev pub ◌>>=◌ : {E A B : Type 0} → Result E A → (A → Result E B) → Result E B
err problem >>= next = err problem
ok value >>= next = next value

infixl 5 ◌>>◌
abbrev pub ◌>>◌ : {E B : Type 0} → Result E (Unit {0}) → Result E B → Result E B
check >> rest = check >>= λ done. rest

pub Result-cases :
    {E A : Type 0} (r : Result E A) → ((e : E) × (r ≡ err e)) ⊎ ((a : A) × (r ≡ ok a))
Result-cases (ok value) = inr (value, refl)
Result-cases (err problem) = inl (problem, refl)
