-- ===== src/Store/Tasks/Locking.antt =====
-- The optimistic lock of `UpdateTask` in internal/store/task.go.
use test_api.Prelude.{
  ℕ, suc, ℤ, pos, pos_part, ◌≡◌, ◌∙◌, ap, sym, refl, Bool, true, false, ◌==◌, nat_eq, int_eq,
  int_beq_iff, none, List, [], ◌∷◌, find, Result, not, ok, err, Dict, arith, format_int,
}
use Prim.Native.String.{◌++◌ as ◌<>◌}
use test_api.Domain.Errors.{Foreign, wrap, sentinel, err_version_conflict}
use test_api.Domain.Task.{Task, TaskUpdate, FieldChange, Time}
use test_api.Store.Driver.{Database, Tx, run, begin}
use test_api.Store.Driver.Transactions.{closing}
use test_api.Store.Tasks.Transactions.{update_task_body, update_task_begins}
use test_api.Store.Tasks.{
  conflict_at, Json, update_task, update_task_row, update_rows, is_version, insert_history,
  insert_history_row,
}

-- After an update no row has the number and the version that it was for.
find-update_rows :
    (id version : ℤ) (upd : TaskUpdate) (now : Time) (ts : List Task)
    → find (is_version id version) (update_rows id version upd now ts) ≡ none
unfolding find update_rows
find-update_rows id version upd now [] = refl
find-update_rows id version upd now (t ∷ ts) = ground (
  arith,
  find-update_rows id version upd now ts,
  int_beq_iff t.version version,
  int_beq_iff (pos (suc (pos_part t.version))) version,
)

-- Whether a statement has affected a row.
abbrev pub affects : Result Foreign ℕ → Bool
affects (err e) = false
affects (ok n) = not (n == 0)

module _ (json : Json) (id version : ℤ) where
  insert_history-tasks :
      (changed_by : ℤ) (changes : Dict FieldChange) (d : Database)
      → d.faults ≡ []
      → let (r, d') = insert_history json id changed_by changes d in
        (d'.faults ≡ []) × (d'.tables.tasks ≡ d.tables.tasks)
  unfolding insert_history run insert_history_row
  insert_history-tasks changed_by changes d healthy = ground arith

  update_task_row-rows :
      (upd : TaskUpdate) (d : Database)
      → d.faults ≡ []
      → let (r, d₁) = update_task_row id version upd d in
        (d₁.faults ≡ [])
        × (affects r ≡ true → d₁.tables.tasks ≡ update_rows id version upd d.clock d.tables.tasks)
  unfolding update_task_row
  update_task_row-rows upd d healthy = ground arith

  closing-rows :
      (tx : Tx) (upd : TaskUpdate) (changed_by : ℤ) (changes : Dict FieldChange) (d d' : Database)
      (t : Task)
      → d.faults ≡ []
      → closing tx (update_task_body json id version upd changed_by changes) d ≡ (ok t, d')
      → (d'.faults ≡ []) × (d'.tables.tasks ≡ update_rows id version upd d.clock d.tables.tasks)
  unfolding run
  closing-rows tx upd changed_by changes d d' t healthy e = ground (
    arith,
    update_task_row-rows upd d healthy,
    insert_history-tasks changed_by changes (update_task_row id version upd d).1,
  )

  update_task-rows :
      (upd : TaskUpdate) (changed_by : ℤ) (changes : Dict FieldChange) (d d' : Database) (t : Task)
      → d.faults ≡ []
      → update_task json id version upd changed_by changes d ≡ (ok t, d')
      → (d'.faults ≡ []) × (d'.tables.tasks ≡ update_rows id version upd d.clock d.tables.tasks)
  update_task-rows upd changed_by changes d d' t healthy e =
      closing-rows d.tables upd changed_by changes (record d { in_transaction = true }) d' t healthy
        (sym (update_task_begins json id version upd changed_by changes d healthy) ∙ e)

  -- If no row has the version, the update is refused as a conflict and changes no table.
  update_task-stale :
      (upd : TaskUpdate) (changed_by : ℤ) (changes : Dict FieldChange) (d : Database)
      → d.faults ≡ []
      → find (is_version id version) d.tables.tasks ≡ none
      → let (r, d') = update_task json id version upd changed_by changes d in
        (r ≡ err (conflict_at id)) × (d'.tables ≡ d.tables)
  unfolding update_task begin run update_task_row
  update_task-stale upd changed_by changes d healthy stale = ground arith

  -- Two updates for the same expected version, with no fault between them: if the first returns a
  -- task, the second is refused as a version conflict, whatever it asks for, and changes no table.
  pub update_then_conflict :
      (upd upd' : TaskUpdate) (user user' : ℤ) (changes changes' : Dict FieldChange)
      (d d' : Database) (t : Task)
      → d.faults ≡ []
      → update_task json id version upd user changes d ≡ (ok t, d')
      → let (r, d'') = update_task json id version upd' user' changes' d' in
        (r ≡ err (wrap ("update task " <> format_int id) (sentinel err_version_conflict)))
        × (d''.tables ≡ d'.tables)
  update_then_conflict upd upd' user user' changes changes' d d' t healthy e =
      let (healthy', rows) = update_task-rows upd user changes d d' t healthy e in
      update_task-stale upd' user' changes' d' healthy' (
        ap (find (is_version id version)) rows
        ∙ find-update_rows id version upd d.clock d.tables.tasks)
