-- ===== src/Store/Tasks/Transactions.antt =====
-- `CreateTask` and `UpdateTask` of internal/store/task.go as one body in a transaction.
use test_api.Prelude.{true, [], ℤ, ◌≡◌, refl, Dict, Option}
use mathlib.Core.Path.{fun_ext}
use test_api.Domain.Task.{Task, NewTask, TaskUpdate, FieldChange, Time, creation_changes}
use test_api.Store.Driver.{Database, Method, query, classify, no_rows_error, ◌>>=◌, ◌>>◌, pure}
use test_api.Store.Driver.Transactions.{
  transaction, closing, transaction_begins, or_rollback-closing, commit-closing, begin-transaction,
}
use test_api.Store.Tasks.{
  Json, insert_task, select_task, insert_history, update_task_row, check_affected, closed_now,
  create_task, update_task,
}

module _ (json : Json) where
  -- The statements between `BeginTx` and `Commit`.
  abbrev pub create_task_body : NewTask → Option Time → Method Task
  create_task_body new closed_at = do
    id ← query (insert_task new closed_at) classify "insert task"
    task ← query (select_task id) no_rows_error "scan task"
    insert_history json task.id new.created_by (creation_changes task)
    pure task

  abbrev pub update_task_body : ℤ → ℤ → TaskUpdate → ℤ → Dict FieldChange → Method Task
  update_task_body id expected_version upd changed_by changes = do
    affected ← query (update_task_row id expected_version upd) classify "update task"
    check_affected id affected
    insert_history json id changed_by changes
    query (select_task id) no_rows_error "scan task"

  abbrev pub create_body_now : NewTask → Method Task
  create_body_now new d = create_task_body new (closed_now new.status d) d

  pub create_task-transaction :
      (new : NewTask) → create_task json new ≡ transaction (create_body_now new)
  unfolding create_task
  create_task-transaction new = fun_ext (
      begin-transaction _ (create_body_now new) λ tx d.
        or_rollback-closing tx
          (query (insert_task new (closed_now new.status d)) classify "insert task") _ _
          (λ id.
            or_rollback-closing tx (query (select_task id) no_rows_error "scan task") _ _ λ task.
              or_rollback-closing tx
                (insert_history json task.id new.created_by (creation_changes task)) _
                (λ _. pure task) λ _ d. refl)
          d)

  pub update_task-transaction :
      (id version : ℤ) (upd : TaskUpdate) (user : ℤ) (changes : Dict FieldChange)
      → update_task json id version upd user changes
        ≡ transaction (update_task_body id version upd user changes)
  unfolding update_task
  update_task-transaction id version upd user changes = fun_ext (
      begin-transaction _ (update_task_body id version upd user changes) λ tx.
        or_rollback-closing tx (query (update_task_row id version upd) classify "update task") _ _
          λ affected. or_rollback-closing tx (check_affected id affected) _ _ λ _.
            or_rollback-closing tx (insert_history json id user changes) _ _
              λ _. commit-closing tx (query (select_task id) no_rows_error "scan task"))

  pub update_task_begins :
      (id version : ℤ) (upd : TaskUpdate) (user : ℤ) (changes : Dict FieldChange) (d : Database)
      → d.faults ≡ []
      → update_task json id version upd user changes d
        ≡ closing d.tables
            (update_task_body id version upd user changes)
            (record d { in_transaction = true })
  update_task_begins id version upd user changes d e =
      rw (update_task-transaction id version upd user changes)
        (transaction_begins (update_task_body id version upd user changes) d e)
