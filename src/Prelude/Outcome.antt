-- ===== src/Prelude/Outcome.antt =====
-- Results of fallible code: a value, or an error of the component's own type.
use mathlib.Core.Path.{◌≡◌, refl}
use mathlib.Core.Logic.{◌⊎◌, inl, inr}
use mathlib.Core.Bool.{Bool, true, false}
use mathlib.Core.Option.{Option, none, some}

pub data Result {ℓ} (E A : Type ℓ) : Type ℓ where
  err : (reason : E) → Result E A
  ok : (value : A) → Result E A

-- `.context(e)?` on an option
abbrev pub or_fail {ℓ} : {E A : Type ℓ} → Option A → E → Result E A
or_fail (some a) e = ok a
or_fail none e = err e

-- `if !b { bail!(e) }`
abbrev pub guard : {E : Type 0} → Bool → E → Result E (Unit {0})
guard false e = err e
guard true e = ok tt

abbrev pub is_ok {ℓ} : {E A : Type ℓ} → Result E A → Bool
is_ok (err e) = false
is_ok (ok a) = true

infixl 5 ◌>>=◌ ◌>>◌
-- `?`: an error ends the computation.
abbrev pub ◌>>=◌ {ℓ} : {E A B : Type ℓ} → Result E A → (A → Result E B) → Result E B
err e >>= next = err e
ok a >>= next = next a

abbrev pub ◌>>◌ {ℓ} : {E A B : Type ℓ} → Result E A → Result E B → Result E B
first >> second = first >>= λ a. second

module _ {ℓ} {E A B : Type ℓ} where
  -- A chain that succeeds did so in each of its parts.
  pub >>=-eq-ok :
      (m : Result E A) (next : A → Result E B) {b : B}
      → (m >>= next) ≡ ok b
      → (a : A) × (m ≡ ok a) × (next a ≡ ok b)
  >>=-eq-ok (err e) next h = cc
  >>=-eq-ok (ok a) next h = (a, refl, h)

  pub >>=-of-ok :
      (m : Result E A) (next : A → Result E B) (a : A) {r : Result E B}
      → m ≡ ok a
      → next a ≡ r
      → (m >>= next) ≡ r
  >>=-of-ok (err e) next a h k = cc
  >>=-of-ok (ok x) next a h k = cc

pub or_fail-ok {ℓ} : {E A : Type ℓ} (o : Option A) (e : E) (a : A) → or_fail o e ≡ ok a → o ≡ some a
or_fail-ok none e a h = cc
or_fail-ok (some x) e a h = cc

-- The state that a transaction leaves is determined by its result.
pub ok_state {ℓ} :
    {E : Type ℓ} {A B : Type ℓ} {a b : A} {s t : B}
    → ◌≡◌ {A = Result E (A × B)} (ok (a, s)) (ok (b, t))
    → s ≡ t
ok_state h = cc

pub Result-cases {ℓ} :
    {E A : Type ℓ} (r : Result E A) → ((e : E) × (r ≡ err e)) ⊎ ((a : A) × (r ≡ ok a))
Result-cases (err e) = inl (e, refl)
Result-cases (ok a) = inr (a, refl)

pub ok_value {ℓ} : {E A : Type ℓ} {a b : A} → ◌≡◌ {A = Result E A} (ok a) (ok b) → a ≡ b
ok_value h = cc
