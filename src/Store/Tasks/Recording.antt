-- ===== src/Store/Tasks/Recording.antt =====
-- What a successful `UpdateTask` of internal/store/task.go writes.
use test_api.Prelude.{
  ℤ, pos, ◌≡◌, Bool, true, false, ◌==◌, nat_eq, int_eq, some, [], ◌∷◌, ◌++◌, find, Result, ok, err,
  Dict, arith, String, sym, ◌∙◌,
}
use test_api.Domain.Errors.{Failure}
use test_api.Domain.Task.{Task, TaskUpdate, FieldChange}
use test_api.Store.Schema.{Tables, HistoryRow}
use test_api.Store.Driver.{Database, run}
use test_api.Store.Driver.Transactions.{closing}
use test_api.Store.Tasks.Transactions.{update_task_body, update_task_begins}
use test_api.Store.Tasks.{
  Json, update_task, update_task_row, update_rows, insert_history, insert_history_row,
}
use test_api.Store.Tasks.Locking.{affects}

abbrev pub entry : Database → ℤ → ℤ → String → HistoryRow
entry d id user payload = record {
  id = pos d.next.task_history;
  task_id = id;
  changed_by = user;
  changes = payload;
  created_at = d.clock;
}

-- The tables with the rows of the version updated, and one more entry of the history.
abbrev pub recorded : Database → ℤ → ℤ → TaskUpdate → ℤ → String → Tables
recorded d id version upd user payload = record d.tables {
  tasks = update_rows id version upd d.clock d.tables.tasks;
  task_history = d.tables.task_history ++ entry d id user payload ∷ [];
}

-- Whether a call has come back without an error.
abbrev is_ok : {A : Type 0} → Result Failure A → Bool
is_ok (ok _) = true
is_ok (err _) = false

module _ (json : Json) (id version : ℤ) where
  insert_history-recorded :
      (user : ℤ) (changes : Dict FieldChange) (payload : String) (d : Database)
      → d.faults ≡ []
      → json.marshal changes ≡ some payload
      → let (r, d') = insert_history json id user changes d in
        is_ok r ≡ true
        → (d'.faults ≡ [])
          × (d'.tables ≡ record d.tables {
            task_history = d.tables.task_history ++ entry d id user payload ∷ [];
          })
  unfolding insert_history run insert_history_row
  insert_history-recorded user changes payload d healthy e = ground arith

  update_task_row-recorded :
      (upd : TaskUpdate) (d : Database)
      → d.faults ≡ []
      → let (r, d') = update_task_row id version upd d in
        affects r ≡ true
        → d' ≡ record d {
          tables = record d.tables { tasks = update_rows id version upd d.clock d.tables.tasks };
        }
  unfolding update_task_row
  update_task_row-recorded upd d healthy = ground arith

  closing-recorded :
      (tx : Tables) (upd : TaskUpdate) (user : ℤ) (changes : Dict FieldChange) (payload : String)
      (d d' : Database) (t : Task)
      → d.faults ≡ []
      → json.marshal changes ≡ some payload
      → closing tx (update_task_body json id version upd user changes) d ≡ (ok t, d')
      → (d'.tables ≡ recorded d id version upd user payload)
        × (find (λ (t : Task). t.id == id) d'.tables.tasks ≡ some t)
  unfolding run
  closing-recorded tx upd user changes payload d d' t healthy e h = ground (
    arith,
    update_task_row-recorded upd d healthy,
    insert_history-recorded user changes payload (update_task_row id version upd d).1,
  )

  -- With no fault, and changes that have a JSON text: an update that returns a task has updated
  -- the rows of the version, has added one entry with its user and its changes to the history, and
  -- has written nothing else; the task is the row with its number.
  pub update_task-recorded :
      (upd : TaskUpdate) (user : ℤ) (changes : Dict FieldChange) (payload : String)
      (d d' : Database) (t : Task)
      → d.faults ≡ []
      → json.marshal changes ≡ some payload
      → update_task json id version upd user changes d ≡ (ok t, d')
      → (d'.tables ≡ recorded d id version upd user payload)
        × (find (λ (t : Task). t.id == id) d'.tables.tasks ≡ some t)
  update_task-recorded upd user changes payload d d' t healthy e h =
      closing-recorded d.tables upd user changes payload (record d { in_transaction = true }) d' t
        healthy e (sym (update_task_begins json id version upd user changes d healthy) ∙ h)
