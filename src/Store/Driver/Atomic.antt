-- ===== src/Store/Driver/Atomic.antt =====
-- What the transactions of internal/store leave behind: `CreateTeam`, `CreateTask` and
-- `UpdateTask`, each with a rollback of its own after every call.
use test_api.Prelude.{
  ℤ, String, true, false, ◌≡◌, ◌⊎◌, refl, inl, inr, Result, ok, err, List, [], ◌∷◌, Dict,
}
use test_api.Domain.Errors.{Failure, wrap, foreign, other}
use test_api.Domain.Task.{NewTask, TaskUpdate, FieldChange}
use test_api.Store.Driver.{Database, Method, Fault, works, fails, is_lost, begin, run}
use test_api.Store.Driver.Transactions.{transaction, finish}
use test_api.Store.Teams.{create_team}
use test_api.Store.Teams.Transactions.{create_team-transaction, founding}
use test_api.Store.Tasks.{Json, create_task, update_task}
use test_api.Store.Tasks.Transactions.{
  create_task-transaction, update_task-transaction, create_body_now, update_task_body,
}

-- After an error the tables are as before, unless what failed is the commit: then its effect may be
-- there.
abbrev pub IsUndone : {A : Type 0} → Result Failure A → Database → Database → Type 0
IsUndone (ok a) d d' = Unit
IsUndone (err e) d d' =
    (d'.tables ≡ d.tables) ⊎ ((why : String) × (e ≡ wrap "commit" (foreign (other why))))

-- How a method with a transaction ends: none is open, and an error has left nothing behind.
abbrev pub IsAtomic : {A : Type 0} → Database → Result Failure A × Database → Type 0
IsAtomic d (r, d') = (d'.in_transaction ≡ false) × IsUndone r d d'

finish-closed :
    {A : Type 0} (r : Result Failure A) (d₀ d : Database) (fs : List Fault)
    → (finish d₀.tables r (record d { faults = fs })).1.in_transaction ≡ false
finish-closed (err e) d₀ d fs = refl
finish-closed (ok a) d₀ d [] = refl
finish-closed (ok a) d₀ d (works ∷ rest) = refl
finish-closed (ok a) d₀ d (fails why ∷ rest) = refl
finish-closed (ok a) d₀ d (is_lost why ∷ rest) = refl

finish-IsUndone :
    {A : Type 0} (r : Result Failure A) (d₀ d : Database) (fs : List Fault)
    → let (r', d') = finish d₀.tables r (record d { faults = fs }) in IsUndone r' d₀ d'
finish-IsUndone (err e) d₀ d fs = inl refl
finish-IsUndone (ok a) d₀ d [] = tt
finish-IsUndone (ok a) d₀ d (works ∷ rest) = tt
finish-IsUndone (ok a) d₀ d (fails why ∷ rest) = inl refl
finish-IsUndone (ok a) d₀ d (is_lost why ∷ rest) = inr (why, refl)

module _ {A : Type 0} (body : Method A) where
  transaction-closed :
      (d : Database) (fs : List Fault)
      → d.in_transaction ≡ false
      → (transaction body (record d { faults = fs })).1.in_transaction ≡ false
  unfolding transaction begin run
  transaction-closed d [] e =
      let (r, d') = body (record d { faults = []; in_transaction = true }) in
      finish-closed r d d' d'.faults
  transaction-closed d (works ∷ rest) e =
      let (r, d') = body (record d { faults = rest; in_transaction = true }) in
      finish-closed r d d' d'.faults
  transaction-closed d (fails why ∷ rest) e = e
  transaction-closed d (is_lost why ∷ rest) e = e

  transaction-IsUndone :
      (d : Database) (fs : List Fault)
      → let (r, d') = transaction body (record d { faults = fs }) in IsUndone r d d'
  unfolding transaction begin run
  transaction-IsUndone d [] =
      let (r, d') = body (record d { faults = []; in_transaction = true }) in
      finish-IsUndone r d d' d'.faults
  transaction-IsUndone d (works ∷ rest) =
      let (r, d') = body (record d { faults = rest; in_transaction = true }) in
      finish-IsUndone r d d' d'.faults
  transaction-IsUndone d (fails why ∷ rest) = inl refl
  transaction-IsUndone d (is_lost why ∷ rest) = inl refl

  transaction-IsAtomic : (d : Database) → d.in_transaction ≡ false → IsAtomic d (transaction body d)
  transaction-IsAtomic d e = (transaction-closed d d.faults e, transaction-IsUndone d d.faults)

-- If no transaction is open, then CreateTeam, CreateTask and UpdateTask leave none open, whatever
-- faults the calls of the driver meet; and if one of them gives an error, the tables are as they
-- were before, unless the error is the one of the commit: then the effect may be there.
pub methods-IsAtomic :
    (json : Json) (name : String) (new : NewTask) (id version user : ℤ) (upd : TaskUpdate)
    (changes : Dict FieldChange) (d : Database)
    → d.in_transaction ≡ false
    → IsAtomic d (create_team name user d)
      × IsAtomic d (create_task json new d)
      × IsAtomic d (update_task json id version upd user changes d)
methods-IsAtomic json name new id version user upd changes d e = (
  rw (create_team-transaction name user) (transaction-IsAtomic (founding name user) d e),
  rw (create_task-transaction json new) (transaction-IsAtomic (create_body_now json new) d e),
  rw (update_task-transaction json id version upd user changes)
      (transaction-IsAtomic (update_task_body json id version upd user changes) d e),
)
