-- ===== src/Store/Tasks/Told/Updates.antt =====
-- `UpdateTask` of internal/store/task.go and the history of its row.
use test_api.Prelude.{
  true, ℕ, ℤ, ◌≡◌, inl, inr, false, ◌==◌, int_eq, nat_eq, int_beq_iff, Bool-cases, some,
  Option-cases, Dict, String, arith, find,
}
use test_api.Domain.Task.{Task, TaskUpdate, FieldChange}
use test_api.Domain.Task.Closing.{IsClosedWell}
use test_api.Store.Schema.{Tables, Counters, has_user_or_null}
use test_api.Store.Driver.{Database, Method, query, classify, no_rows_error, ◌>>=◌, ◌>>◌}
use test_api.Store.Driver.Keeps.{Ends, Holds, bind-Ends, query-Ends, transaction_from}
use test_api.Store.Tasks.Transactions.{update_task_body, update_task-transaction}
use test_api.Store.Tasks.{
  Json, update_task, insert_history, update_task_row, update_rows, is_version, max_version,
  fits_task, select_task, check_affected,
}
use test_api.Store.Tasks.Valid.{TasksValid}
use test_api.Store.Tasks.Valid.Methods.{update_task_row-TasksValid}
use test_api.Store.Tasks.Told.{TasksTold}
use test_api.Store.Tasks.Told.Keeping.{
  Fits, TasksBehind, insert_history-Ends, update_rows-IsBehind, unique_version, find-All,
}
use test_api.Store.Tasks.Told.Methods.{TasksTold-Grows, found-Ends}

module _ (json : Json) where
  module _ (id version : ℤ) (upd : TaskUpdate) (changes : Dict FieldChange) where
    -- Affected rows wait for their entry.
    abbrev IfAffected : ℕ → Tables → Counters → Type 0
    IfAffected affected t n = (affected == 0) ≡ false → TasksBehind json id changes t n

    updated-TasksBehind :
        (d : Database) (t : Task)
        → TasksTold json d.tables d.next
        → Fits id version upd changes d.tables.tasks
        → find (is_version id version) d.tables.tasks ≡ some t
        → let ts = update_rows id version upd d.clock d.tables.tasks in
          TasksValid (record d.tables { tasks = ts }) d.next
          → TasksBehind json id changes (record d.tables { tasks = ts }) d.next
    updated-TasksBehind d t h fits there valid = record {
      valid = valid;
      behind =
          update_rows-IsBehind json id version upd changes d.clock d.tables.task_history
            d.tables.tasks h.told
            (unique_version id version d.tables.tasks t h.valid.ascending there) fits;
      known = h.known;
      given =
          let (row, hit) = find-All _ (is_version id version) d.tables.tasks t h.valid.rows there in
          let same : t.id ≡ id = ground (arith, int_beq_iff t.id id) in rw⁻¹ same row.below;
    }

    update_task_row-Ends :
        (d : Database) (op : String)
        → IsClosedWell upd.status upd.closed_at
        → Fits id version upd changes d.tables.tasks
        → TasksTold json d.tables d.next
        → Ends IfAffected d.next (query (update_task_row id version upd) classify op d)
    unfolding update_task_row
    update_task_row-Ends d op closed fits h =
        query-Ends IfAffected (update_task_row id version upd) classify op d λ rest.
          let keeps =
            (update_task_row-TasksValid id version upd closed).at (record d { faults = rest })
              h.valid in
          elim (Option-cases (find (is_version id version) d.tables.tasks)) [
            | inl missing ↦
                rw (missing, update_task_row) (λ absent. absurd (ground arith), omega arith)
            | inr (t, there) ↦ elim (Bool-cases (fits_task upd.title upd.description upd.status)) [
              | inr unfit ↦ rw (there, update_task_row, unfit) (omega arith)
              | inl fit ↦ elim (Bool-cases (has_user_or_null d.tables upd.assignee_id)) [
                | inr unknown ↦ rw (there, update_task_row, fit, unknown) (omega arith)
                | inl known ↦ elim (Bool-cases (version == max_version)) [
                  | inl full ↦ rw (there, update_task_row, fit, known, full) (omega arith)
                  | inr small ↦
                      let valid = rw (there, update_task_row, fit, known, small) at keeps in
                      rw (there, update_task_row, fit, known, small)
                        (
                          λ _.
                              updated-TasksBehind (record d { faults = rest }) t h fits there
                                valid.inv,
                          omega arith,
                        )
                ]
              ]
            ]
          ]

    check_affected-Ends :
        (affected : ℕ) (d : Database)
        → IfAffected affected d.tables d.next
        → Ends (λ (_ : Unit). TasksBehind json id changes) d.next (check_affected id affected d)
    check_affected-Ends affected d h = elim (Bool-cases (affected == 0)) [
      | inl none_affected ↦ rw none_affected (omega arith)
      | inr some_affected ↦ rw some_affected (h some_affected, omega arith)
    ]

    -- What follows the update of the row, and what follows the check of the rows affected.
    abbrev then_entered : ℤ → Unit {0} → Method Task
    then_entered user _ =
        insert_history json id user changes >> query (select_task id) no_rows_error "scan task"

    abbrev then_checked : ℤ → ℕ → Method Task
    then_checked user affected = check_affected id affected >>= then_entered user

    then_entered-Ends :
        (user : ℤ) (u : Unit {0}) (d : Database)
        → TasksBehind json id changes d.tables d.next
        → Ends (λ _. TasksTold json) d.next (then_entered user u d)
    then_entered-Ends user u d b =
        bind-Ends (λ _. TasksTold json) (λ _. TasksTold json) (insert_history json id user changes)
          (λ _. query (select_task id) no_rows_error "scan task") d
          (insert_history-Ends json id user changes d b)
          λ _ d' told.
            found-Ends json (λ _. TasksTold json)
              (λ d. find (λ (t : Task). t.id == id) d.tables.tasks) "scan task" d'
              (λ rest t there. told)

    then_checked-Ends :
        (user : ℤ) (affected : ℕ) (d : Database)
        → IfAffected affected d.tables d.next
        → Ends (λ _. TasksTold json) d.next (then_checked user affected d)
    then_checked-Ends user affected d h =
        bind-Ends (λ _. TasksBehind json id changes) (λ _. TasksTold json)
          (check_affected id affected) (then_entered user) d (check_affected-Ends affected d h)
          (then_entered-Ends user)

    update_task_body-Ends :
        (user : ℤ) (d : Database)
        → IsClosedWell upd.status upd.closed_at
        → Fits id version upd changes d.tables.tasks
        → TasksTold json d.tables d.next
        → Ends (λ _. TasksTold json) d.next (update_task_body json id version upd user changes d)
    update_task_body-Ends user d closed fits h =
        bind-Ends IfAffected (λ _. TasksTold json)
          (query (update_task_row id version upd) classify "update task") (then_checked user) d
          (update_task_row-Ends d "update task" closed fits h) (then_checked-Ends user)

    -- An update whose fields are those that its changes give.
    pub update_task-TasksTold :
        (user : ℤ) (d : Database)
        → IsClosedWell upd.status upd.closed_at
        → Fits id version upd changes d.tables.tasks
        → TasksTold json d.tables d.next
        → Holds (TasksTold json) d.next (update_task json id version upd user changes d).1
    update_task-TasksTold user d closed fits h =
        rw (update_task-transaction json id version upd user changes) (
          transaction_from (TasksTold-Grows json) _ d h λ rest.
            update_task_body-Ends user (record d { faults = rest; in_transaction = true }) closed
              fits h)
