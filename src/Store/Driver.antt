-- ===== src/Store/Driver.antt =====
-- What lies below the queries of internal/store: the database with the faults that the network
-- and the server put in its way, transactions, and the sorting of errors of store.go.
pub mod Atomic
pub mod Transactions
pub mod Keeps
use test_api.Prelude.{
  Bool, true, false, Option, some, none, String, List, [], ◌∷◌, ◌==◌, nat_eq, if◌then◌else◌, Result,
  ok, err,
}
use test_api.Domain.Errors.{
  Failure, sentinel, foreign, wrap, Foreign, no_rows, mysql, other, err_not_found,
  err_already_exists, err_unknown_id,
}
use test_api.Domain.Task.{Time}
use test_api.Store.Schema.{Tables, Counters}

-- What happens to one call of the driver: it works, it fails before it has any effect, or it has
-- its effect and the answer is lost.
pub data Fault : Type 0 where
  works : Fault
  fails : String → Fault
  is_lost : String → Fault

-- The database, its clock, whether the caller has a transaction open, and what will happen to the
-- calls to come; after the list all work.
pub record Database : Type 0 where
  pub tables : Tables
  pub next : Counters
  pub clock : Time
  pub in_transaction : Bool
  pub faults : List Fault

-- A statement, as the server runs it.
abbrev pub Statement : Type 0 → Type 0
Statement A = Database → Result Foreign A × Database

-- The single row that a query gives, or `sql.ErrNoRows`.
abbrev pub found : {A : Type 0} → Option A → Statement A
found none d = (err no_rows, d)
found (some a) d = (ok a, d)

abbrev pub answer :
    {A : Type 0} → Result Foreign A × Database → String → Result Foreign A × Database
answer (r, d) why = (err (other why), d)

-- One call of the driver: `ExecContext`, `QueryContext` or `QueryRowContext` with `Scan`.
unfoldable pub run : {A : Type 0} → Statement A → Statement A
run stmt d = elim d.faults [
  | [] ↦ stmt d
  | works ∷ rest ↦ stmt (record d { faults = rest })
  | fails why ∷ rest ↦ (err (other why), record d { faults = rest })
  | is_lost why ∷ rest ↦ answer (stmt (record d { faults = rest })) why
]

-- `classify` of store.go
unfoldable pub classify : Foreign → String → Failure
classify (mysql n) op =
    if n == 1062
    then wrap op (sentinel err_already_exists)
    else if n == 1452
    then wrap op (sentinel err_unknown_id)
    else wrap op (foreign (mysql n))
classify no_rows op = wrap op (foreign no_rows)
classify (other why) op = wrap op (foreign (other why))

-- `noRows` of store.go
unfoldable pub no_rows_error : Foreign → String → Failure
no_rows_error no_rows op = wrap op (sentinel err_not_found)
no_rows_error (mysql n) op = wrap op (foreign (mysql n))
no_rows_error (other why) op = wrap op (foreign (other why))

-- `fmt.Errorf("…: %w", err)`
abbrev pub plain : Foreign → String → Failure
plain e op = wrap op (foreign e)

-- A method of the store.
abbrev pub Method : Type 0 → Type 0
Method A = Database → Result Failure A × Database

module _ {A : Type 0} where
  abbrev pub sort_error :
      Result Foreign A → (Foreign → String → Failure) → String → Result Failure A
  sort_error (ok a) f op = ok a
  sort_error (err e) f op = err (f e op)

  -- A call of the driver whose error returns at once, sorted by `f`.
  abbrev pub query : Statement A → (Foreign → String → Failure) → String → Method A
  query stmt f op d = let (r, d') = run stmt d in (sort_error r f op, d')

  abbrev pub pure : A → Method A
  pure a d = (ok a, d)

  abbrev pub fail : Failure → Method A
  fail e d = (err e, d)

module _ {A B : Type 0} where
  abbrev pub continue : Result Failure A → (A → Method B) → Method B
  continue (ok a) f d = f a d
  continue (err e) f d = (err e, d)

  infixl 5 ◌>>=◌ ◌>>◌
  abbrev pub ◌>>=◌ : Method A → (A → Method B) → Method B
  ◌>>=◌ m f d = let (r, d') = m d in continue r f d'

  abbrev pub ◌>>◌ : Method A → Method B → Method B
  m >> k = m >>= λ _. k

abbrev pub nothing : Statement Unit
nothing d = (ok tt, d)

-- A transaction: the tables at its start, which its rollback restores.
abbrev pub Tx : Type 0
Tx = Tables

abbrev pub opened : Method Tx
opened d = (ok d.tables, record d { in_transaction = true })

-- `BeginTx`
unfoldable pub begin : Method Tx
unfolding run
begin = query nothing plain "begin transaction" >>= λ _. opened

-- `tx.Rollback`
abbrev pub rollback : Tx → Database → Database
rollback tx d = record d { tables = tx; in_transaction = false }

-- `tx.Commit`, which may fail with or without its effect, and ends the transaction all the same.
abbrev pub commit : Tx → Method Unit
commit tx d = elim d.faults [
  | [] ↦ (ok tt, record d { in_transaction = false })
  | works ∷ rest ↦ (ok tt, record d { in_transaction = false; faults = rest })
  | fails why ∷ rest ↦ (err (plain (other why) "commit"), rollback tx (record d { faults = rest }))
  | is_lost why ∷ rest ↦
      (err (plain (other why) "commit"), record d { in_transaction = false; faults = rest })
]

module _ {A : Type 0} where
  abbrev pub undo : Tx → Result Failure A → Method A
  undo tx (ok a) d = (ok a, d)
  undo tx (err e) d = (err e, rollback tx d)

  -- `if err != nil { _ = tx.Rollback(); return …, err }` after a call.
  abbrev pub or_rollback : Tx → Method A → Method A
  or_rollback tx m d = let (r, d') = m d in undo tx r d'
