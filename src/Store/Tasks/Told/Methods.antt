-- ===== src/Store/Tasks/Told/Methods.antt =====
-- `CreateTask` of internal/store/task.go and the history of its row.
use test_api.Prelude.{
  suc, ℤ, pos, pos_part, ◌≡◌, ◌≢◌, ◌≤◌, inl, inr, refl, sym, ap, ◌∙◌, subst, not, ◌||◌, ◌==◌,
  int_eq, nat_eq, Bool-cases, Option, some, Option-cases, List, [], ◌∷◌, ◌++◌, All, All-append,
  All-imp, All-zip, String, arith, find,
}
use test_api.Domain.Task.{Task, NewTask, Time, creation_changes}
use test_api.Domain.Task.Closing.{IsClosedWell}
use test_api.Store.Schema.{Tables, Counters, HistoryRow, has_team, has_user, has_user_or_null}
use test_api.Store.Driver.{
  Database, Fault, Method, query, classify, no_rows_error, pure, found, ◌>>=◌, ◌>>◌,
}
use test_api.Store.Driver.Keeps.{Keeps, Ends, Grows, bind-Ends, query-Ends, Keeps-transaction}
use test_api.Store.Tasks.Transactions.{create_task_body, create_task-transaction}
use test_api.Store.Tasks.{
  Json, create_task, insert_task, insert_history, fits_task, select_task, closed_now,
}
use test_api.Store.Tasks.Valid.{TasksValid, TasksValid-Grows}
use test_api.Store.Tasks.Valid.Methods.{insert_task-TasksValid, closed_now-IsClosedWell}
use test_api.Store.Tasks.Writes.Bodies.{find-appended, all_below}
use test_api.Store.Tasks.Told.{blank, created-SameFields, Replay-others, IsTold, TasksTold}
use test_api.Store.Tasks.Told.Keeping.{IsBehind, TasksBehind, insert_history-Ends}

module _ (json : Json) where
  pub TasksTold-Grows :
      (t : Tables) (n n' : Counters) → TasksTold json t n → Grows n n' → TasksTold json t n'
  TasksTold-Grows t n n' h g = record {
    valid = TasksValid-Grows t n n' h.valid g;
    told = h.told;
    known = All-imp _ _ t.task_history (λ r k. omega (arith, k, g.tasks)) h.known;
  }

  -- A new row, of which no entry tells yet.
  record TasksAwaiting (id : ℤ) (t : Tables) (n : Counters) : Type 0 where
    before : List Task
    row : Task
    appended : t.tasks ≡ before ++ row ∷ []
    number : row.id ≡ id
    fresh : All (λ u. u.id ≢ id) before
    valid : TasksValid t n
    told : All (IsTold json t.task_history) before
    known : All (λ r. suc (pos_part r.task_id) ≤ n.tasks) t.task_history
    strangers : All (λ r. r.task_id ≢ id) t.task_history
    given : suc (pos_part id) ≤ n.tasks

  last_row :
      (task : Task) (rows : List HistoryRow)
      → All (λ r. r.task_id ≢ task.id) rows
      → IsBehind json task.id (creation_changes task) rows task
  last_row task rows strangers =
      inl (refl, blank, Replay-others json task.id blank rows strangers, created-SameFields task)

  awaiting-TasksBehind :
      (id : ℤ) (t : Tables) (n : Counters) (task : Task)
      → TasksAwaiting id t n
      → find (λ (t : Task). t.id == id) t.tasks ≡ some task
      → TasksBehind json task.id (creation_changes task) t n
  awaiting-TasksBehind id t n task w e =
      let here : find (λ (t : Task). t.id == id) t.tasks ≡ some w.row =
        ap (find (λ t. t.id == id)) w.appended ∙ find-appended id w.before w.row w.number w.fresh in
      let same : w.row ≡ task = cc in
      let number : task.id ≡ id = cc in
      record {
        valid = w.valid;
        behind = rw w.appended (
            All-append _ w.before w.row
              (All-zip _ (IsTold json t.task_history) _ w.before
                (λ u apart told. inr (λ e. apart (e ∙ number), told)) w.fresh w.told)
              (subst (IsBehind json task.id (creation_changes task) t.task_history) (sym same)
                (last_row task t.task_history (rw number w.strangers))));
        known = w.known;
        given = rw number w.given;
      }

  inserted-TasksAwaiting :
      (d : Database) (row : Task)
      → TasksTold json d.tables d.next
      → row.id ≡ pos d.next.tasks
      → TasksValid
          (record d.tables { tasks = d.tables.tasks ++ row ∷ [] })
          (record d.next { tasks = suc d.next.tasks })
      → TasksAwaiting
          (pos d.next.tasks)
          (record d.tables { tasks = d.tables.tasks ++ row ∷ [] })
          (record d.next { tasks = suc d.next.tasks })
  inserted-TasksAwaiting d row h number valid = record {
    before = d.tables.tasks;
    row = row;
    appended = refl;
    number = number;
    fresh = All-imp _ _ d.tables.tasks (all_below d.next.tasks) h.valid.rows;
    valid = valid;
    told = h.told;
    known = All-imp _ _ d.tables.task_history (λ r k. omega (arith, k)) h.known;
    strangers =
        All-imp _ _ d.tables.task_history (λ r k e. omega (arith, k, ap pos_part e)) h.known;
    given = omega arith;
  }

  insert_task-Ends :
      (new : NewTask) (closed_at : Option Time) (d : Database) (op : String)
      → IsClosedWell new.status closed_at
      → TasksTold json d.tables d.next
      → Ends TasksAwaiting d.next (query (insert_task new closed_at) classify op d)
  unfolding insert_task
  insert_task-Ends new closed_at d op closed h =
      query-Ends TasksAwaiting (insert_task new closed_at) classify op d λ rest.
        let keeps =
          (insert_task-TasksValid new closed_at closed).at (record d { faults = rest }) h.valid in
        elim (Bool-cases (fits_task new.title new.description new.status)) [
          | inr unfit ↦ rw unfit (omega arith)
          | inl fit ↦
              elim (Bool-cases (
                not (has_team d.tables new.team_id)
                || not (has_user d.tables new.created_by)
                || not (has_user_or_null d.tables new.assignee_id))) [
                  | inl unknown ↦ rw (fit, unknown) (ground arith)
                  | inr known ↦
                      let valid = rw (fit, known) at keeps in
                      rw (fit, known)
                        (
                          inserted-TasksAwaiting (record d { faults = rest }) _ h refl valid.inv,
                          valid.grows,
                        )
                ]
        ]

  -- A query for one row, which changes nothing.
  pub found-Ends :
      {A : Type 0} (Q : A → Tables → Counters → Type 0) (o : Database → Option A) (op : String)
      (d : Database)
      → ((rest : List Fault) (a : A)
          → o (record d { faults = rest }) ≡ some a
          → Q a d.tables d.next)
      → Ends Q d.next (query (λ d. found (o d) d) no_rows_error op d)
  found-Ends Q o op d k =
      query-Ends Q (λ d. found (o d) d) no_rows_error op d
        λ rest. elim (Option-cases (o (record d { faults = rest }))) [
          | inl missing ↦ rw missing (omega arith)
          | inr (a, there) ↦ rw there (k rest a there, omega arith)
        ]

  -- What follows the insert of a task, and what follows its reading.
  abbrev then_told : NewTask → Task → Method Task
  then_told new task =
      insert_history json task.id new.created_by (creation_changes task) >> pure task

  abbrev then_read : NewTask → ℤ → Method Task
  then_read new id = query (select_task id) no_rows_error "scan task" >>= then_told new

  then_told-Ends :
      (new : NewTask) (task : Task) (d : Database)
      → TasksBehind json task.id (creation_changes task) d.tables d.next
      → Ends (λ _. TasksTold json) d.next (then_told new task d)
  then_told-Ends new task d b =
      bind-Ends (λ _. TasksTold json) (λ _. TasksTold json)
        (insert_history json task.id new.created_by (creation_changes task)) (λ _. pure task) d
        (insert_history-Ends json task.id new.created_by (creation_changes task) d b)
        λ _ d' told. (told, omega arith)

  then_read-Ends :
      (new : NewTask) (id : ℤ) (d : Database)
      → TasksAwaiting id d.tables d.next
      → Ends (λ _. TasksTold json) d.next (then_read new id d)
  then_read-Ends new id d w =
      let Q : Task → Tables → Counters → Type 0 =
        λ task. TasksBehind json task.id (creation_changes task) in
      bind-Ends Q (λ _. TasksTold json) (query (select_task id) no_rows_error "scan task")
        (then_told new) d
        (found-Ends Q (λ d. find (λ (t : Task). t.id == id) d.tables.tasks) "scan task" d
          λ rest task there. awaiting-TasksBehind id d.tables d.next task w there)
        (then_told-Ends new)

  create_task_body-Ends :
      (new : NewTask) (closed_at : Option Time) (d : Database)
      → IsClosedWell new.status closed_at
      → TasksTold json d.tables d.next
      → Ends (λ _. TasksTold json) d.next (create_task_body json new closed_at d)
  create_task_body-Ends new closed_at d closed h =
      bind-Ends TasksAwaiting (λ _. TasksTold json)
        (query (insert_task new closed_at) classify "insert task") (then_read new) d
        (insert_task-Ends new closed_at d "insert task" closed h) (then_read-Ends new)

  pub create_task-TasksTold : (new : NewTask) → Keeps (TasksTold json) (create_task json new)
  create_task-TasksTold new = rw (create_task-transaction json new) (
      Keeps-transaction TasksTold-Grows _ λ d h.
        create_task_body-Ends new (closed_now new.status d) d (closed_now-IsClosedWell new.status d)
          h)
