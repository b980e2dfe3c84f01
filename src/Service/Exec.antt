-- ===== src/Service/Exec.antt =====
-- A use case is an action: it may change the world (the database, the cache, the clock) and
-- returns a value or a `*domain.Error`. What was written before an error stays written.
use test_api.Prelude.{Result, ok, err}
use test_api.Domain.Errors.{Error, Failure}

abbrev pub Exec : Type 0 → Type 0 → Type 0
Exec W A = W → Result Error A × W

-- A method of an interface that returns `(value, error)`.
abbrev pub Call : Type 0 → Type 0 → Type 0
Call W A = W → Result Failure A × W

module _ {A : Type 0} where
  abbrev pub or_error : Result Failure A → (Failure → Error) → Result Error A
  or_error (ok a) f = ok a
  or_error (err e) f = err (f e)

  abbrev pub or_this : Result Error A → Error → Result Error A
  or_this (ok a) e = ok a
  or_this (err _) e = err e

module _ {W A : Type 0} where
  abbrev pub pure : A → Exec W A
  pure a w = (ok a, w)

  -- `if err := check; err != nil { return …, err }`
  abbrev pub lift : Result Error A → Exec W A
  lift r w = (r, w)

  -- `a, err := m(…)`, then the tests on `err` that return, as a function from the error.
  abbrev pub call : Call W A → (Failure → Error) → Exec W A
  call m f w = let (r, w') = m w in (or_error r f, w')

  -- A call that returns no error.
  abbrev pub step : (W → A × W) → Exec W A
  step m w = let (a, w') = m w in (ok a, w')

  -- `if err != nil { return …, e }`, whatever `err` is.
  abbrev pub replace_error : Error → Exec W A → Exec W A
  replace_error e m w = let (r, w') = m w in (or_this r e, w')

abbrev pub modify : {W : Type 0} → (W → W) → Exec W (Unit {0})
modify f w = (ok tt, f w)

module _ {W A B : Type 0} where
  abbrev pub continue : Result Error A → (A → Exec W B) → Exec W B
  continue (ok a) f w = f a w
  continue (err e) f w = (err e, w)

  infixl 5 ◌>>=◌ ◌>>◌
  abbrev pub ◌>>=◌ : Exec W A → (A → Exec W B) → Exec W B
  ◌>>=◌ m f w = let (r, w') = m w in continue r f w'

  abbrev pub ◌>>◌ : Exec W A → Exec W B → Exec W B
  m >> k = m >>= λ _. k
