-- ===== src/Prelude/Outcome.antt =====
-- The outcome of code that throws: a value, or the error that is thrown.
use mathlib.Core.Path.{◌≡◌, refl}
use mathlib.Core.Logic.{◌⊎◌, inl, inr}
use mathlib.Core.Bool.{Bool, true, false}

pub data Result {ℓ κ} (E : Type ℓ) (A : Type κ) : Type (ℓ ⊔ κ) where
  ok : A → Result E A
  err : E → Result E A

-- An error ends the sequence; the rest of a `do` block runs on a value only.
infixl 5 ◌>>=◌
abbrev pub ◌>>=◌ {ε κ υ} :
    {E : Type ε} {A : Type κ} {B : Type υ} → Result E A → (A → Result E B) → Result E B
outcome >>= rest = elim outcome [ ok value ↦ rest value | err thrown ↦ err thrown ]

infixl 5 ◌>>◌
abbrev pub ◌>>◌ {ε υ} : {E : Type ε} {B : Type υ} → Result E (Unit {0}) → Result E B → Result E B
check >> rest = elim check [ ok _ ↦ rest | err thrown ↦ err thrown ]

-- `if (test) throw fault`
abbrev pub throw_if {ε} : {E : Type ε} → Bool → E → Result E (Unit {0})
throw_if test fault = elim test [ false ↦ ok tt | true ↦ err fault ]

module _ {ε κ} {E : Type ε} {A : Type κ} where
  pub Result-cases : (r : Result E A) → ((a : A) × (r ≡ ok a)) ⊎ ((e : E) × (r ≡ err e))
  Result-cases (err e) = inr (e, refl)
  Result-cases (ok a) = inl (a, refl)

  -- A sequence that returns went through a value of its first part.
  pub bind_value {υ} :
      {B : Type υ} {b : B} (first : Result E A) (rest : A → Result E B)
      → (first >>= rest) ≡ ok b
      → (a : A) × (first ≡ ok a) × (rest a ≡ ok b)
  bind_value (err e) rest returned = cc
  bind_value (ok a) rest returned = (a, refl, returned)

  -- The same after a check.
  pub check_value :
      {a : A} (check : Result E (Unit {0})) (rest : Result E A)
      → (check >> rest) ≡ ok a
      → (check ≡ ok tt) × (rest ≡ ok a)
  check_value (err e) rest returned = cc
  check_value (ok tt) rest returned = (refl, returned)

  pub ok_injective : {a b : A} → ◌≡◌ {A = Result E A} (ok a) (ok b) → a ≡ b
  ok_injective same = cc

pub throw_if_ok {ε} :
    {E : Type ε} (test : Bool) (fault : E) → throw_if test fault ≡ ok tt → test ≡ false
throw_if_ok true fault h = cc
throw_if_ok false fault h = refl
