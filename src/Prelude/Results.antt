-- ===== src/Prelude/Results.antt =====
-- Go's `(value, error)` returns, and methods on a world that they may change.
use mathlib.Core.Path.{◌≡◌, refl}
use mathlib.Core.Bool.{Bool, true, false}
use mathlib.Core.Logic.{◌⊎◌, ◌↔◌, inl, inr}

-- A value, or an error that is not nil.
pub data Result {ℓ} (E A : Type ℓ) : Type ℓ where
  ok : A → Result E A
  err : E → Result E A

module _ {ℓ} {E A B : Type ℓ} where
  -- The `if err != nil { return …, err }` of a pure caller.
  infixl 5 ◌>>=◌
  abbrev pub ◌>>=◌ : Result E A → (A → Result E B) → Result E B
  ok a >>= f = f a
  err e >>= f = err e

abbrev pub ◌>>◌ {ℓ} : {E A B : Type ℓ} → Result E A → Result E B → Result E B
m >> k = m >>= λ _. k

infixl 5 ◌>>◌
pub Result-cases {ℓ} :
    {E A : Type ℓ} (r : Result E A) → ((a : A) × (r ≡ ok a)) ⊎ ((e : E) × (r ≡ err e))
Result-cases (ok a) = inl (a, refl)
Result-cases (err e) = inr (e, refl)

module _ {ℓ} {E : Type ℓ} where
  -- `if c { return e }`
  abbrev pub raise_if : Bool → E → Result E (Unit {ℓ})
  raise_if true e = err e
  raise_if false e = ok tt

  -- `if c { … }` around checks that may return an error
  abbrev pub when : Bool → Result E (Unit {ℓ}) → Result E (Unit {ℓ})
  when true r = r
  when false r = ok tt

  pub >>-eq-ok_iff : (m k : Result E (Unit {ℓ})) → ((m >> k) ≡ ok tt) ↔ ((m ≡ ok tt) × (k ≡ ok tt))
  >>-eq-ok_iff (ok tt) k = (λ h. (refl, h), λ h. h.1)
  >>-eq-ok_iff (err e) k = (λ h. cc, λ h. cc (h.0))

-- A chain that gives a value has given one at each step.
pub >>=-ok {ℓ} :
    {E A B : Type ℓ} (r : Result E A) (f : A → Result E B) (b : B)
    → (r >>= f) ≡ ok b
    → (a : A) × (r ≡ ok a) × (f a ≡ ok b)
>>=-ok (ok a) f b h = (a, refl, h)
>>=-ok (err e) f b h = cc
