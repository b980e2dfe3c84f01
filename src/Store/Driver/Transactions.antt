-- ===== src/Store/Driver/Transactions.antt =====
-- A method that rolls back after each of its calls, as one body with a transaction around it.
use test_api.Prelude.{[], ◌≡◌, ◌∙◌, ap, sym, true, refl, Result, ok, err}
use test_api.Domain.Errors.{Failure}
use test_api.Store.Driver.{
  Database, Method, Tx, begin, run, commit, rollback, or_rollback, undo, continue, ◌>>=◌, ◌>>◌,
  pure,
}

-- The end of a transaction: rolled back after an error, and otherwise committed.
abbrev pub finish : {A : Type 0} → Tx → Result Failure A → Method A
finish tx (err e) d = (err e, rollback tx d)
finish tx (ok a) d = (commit tx >> pure a) d

-- The whole body, and its end.
abbrev pub closing : {A : Type 0} → Tx → Method A → Method A
closing tx body d = let (r, d') = body d in finish tx r d'

unfoldable pub transaction : {A : Type 0} → Method A → Method A
unfolding begin
transaction body = begin >>= λ tx. closing tx body

module _ {A B : Type 0} (tx : Tx) where
  -- A call with its rollback, and the rest of the method.
  step-closing :
      (r : Result Failure A) (f g : A → Method B) (d : Database)
      → ((a : A) (d : Database) → f a d ≡ closing tx (g a) d)
      → (let (r', d') = undo tx r d in continue r' f d')
        ≡ (let (r', d') = continue r g d in finish tx r' d')
  step-closing (ok a) f g d k = k a d
  step-closing (err e) f g d k = refl

  pub or_rollback-closing :
      (m : Method A) (f g : A → Method B)
      → ((a : A) (d : Database) → f a d ≡ closing tx (g a) d)
      → (d : Database) → (or_rollback tx m >>= f) d ≡ closing tx (m >>= g) d
  or_rollback-closing m f g k d = step-closing (m d).0 f g (m d).1 k

module _ {A : Type 0} where
  last-closing :
      (tx : Tx) (r : Result Failure A) (d : Database)
      → (let (r', d') = undo tx r d in continue r' (λ a. commit tx >> pure a) d') ≡ finish tx r d
  last-closing tx (ok a) d = refl
  last-closing tx (err e) d = refl

  -- The last call, and the commit.
  pub commit-closing :
      (tx : Tx) (m : Method A) (d : Database)
      → (or_rollback tx m >>= λ a. commit tx >> pure a) d ≡ closing tx m d
  commit-closing tx m d = last-closing tx (m d).0 (m d).1

  begun-transaction :
      (r : Result Failure Tx) (f : Tx → Method A) (body : Method A) (d : Database)
      → ((tx : Tx) (d : Database) → f tx d ≡ closing tx body d)
      → continue r f d ≡ continue r (λ tx. closing tx body) d
  begun-transaction (ok tx) f body d k = k tx d
  begun-transaction (err e) f body d k = refl

  pub begin-transaction :
      (f : Tx → Method A) (body : Method A)
      → ((tx : Tx) (d : Database) → f tx d ≡ closing tx body d)
      → (d : Database) → (begin >>= f) d ≡ transaction body d
  unfolding transaction
  begin-transaction f body k d = begun-transaction (begin d).0 f body (begin d).1 k

  -- With no fault ahead, the transaction begins.
  pub transaction_begins :
      (body : Method A) (d : Database)
      → d.faults ≡ []
      → transaction body d ≡ closing d.tables body (record d { in_transaction = true })
  unfolding transaction begin run
  transaction_begins body d e =
      ap (λ fs. transaction body (record d { faults = fs })) e
      ∙ refl
      ∙ ap (λ fs. closing d.tables body (record d { faults = fs; in_transaction = true })) (sym e)
