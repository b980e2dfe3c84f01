-- ===== src/Store/Tasks.antt =====
-- internal/store/task.go. `Json` is encoding/json on the changes of a history entry.
pub mod Elsewhere
pub mod Locking
pub mod Pages
pub mod Recording
pub mod Told
pub mod Transactions
pub mod Valid
pub mod Writes
use test_api.Prelude.{
  ℕ, ℤ, pos, suc, pos_part, String, count, Bool, true, false, not, ◌||◌, ◌&&◌, ◌==◌, int_eq,
  string_eq, Option, some, none, List, [], ◌∷◌, ◌++◌, leb, if◌then◌else◌, any, find, select,
  order_desc, take, drop, len, ok, err, Dict, nat_eq, format_int,
}
use Prim.Native.String.{◌++◌ as ◌<>◌}
use test_api.Domain.Errors.{Failure, foreign, mysql, other, wrap, sentinel, err_version_conflict}
use test_api.Domain.Task.{
  Task, NewTask, TaskUpdate, TaskFilter, HistoryEntry, FieldChange, Status, Time, valid, terminal,
  creation_changes,
}
use test_api.Store.Schema.{
  in_status_column, HistoryRow, has_user, has_team, has_task, has_user_or_null,
}
use test_api.Store.Driver.{
  found, Database, Statement, Method, query, plain, classify, no_rows_error, begin, or_rollback,
  commit, ◌>>=◌, ◌>>◌, pure, fail, run,
}

pub record Json : Type 0 where
  pub marshal : Dict FieldChange → Option String
  pub unmarshal : String → Option (Dict FieldChange)

-- What the columns of `tasks` refuse: values that are too long, a status outside the column's,
-- and rows that are not there. TEXT holds 65535 bytes.
abbrev pub fits_task : String → String → Status → Bool
fits_task title description status =
    leb (count title) 255 && leb (len description) 65535 && in_status_column status

-- `INSERT INTO tasks`, with its last insert id.
unfoldable pub insert_task : NewTask → Option Time → Statement ℤ
unfolding any
insert_task new closed_at d =
    let id = pos d.next.tasks in
    let d' = record d { next = record d.next { tasks = suc d.next.tasks } } in
    if not (fits_task new.title new.description new.status)
    then (err (mysql 1406), d)
    else if not (has_team d.tables new.team_id)
        || not (has_user d.tables new.created_by)
        || not (has_user_or_null d.tables new.assignee_id)
    then (err (mysql 1452), d')
    else (
      ok id,
      record d' {
        tables = record d.tables {
          tasks =
              d.tables.tasks
              ++ record {
                id = id;
                team_id = new.team_id;
                title = new.title;
                description = new.description;
                status = new.status;
                created_by = new.created_by;
                assignee_id = new.assignee_id;
                created_at = d.clock;
                updated_at = d.clock;
                closed_at = closed_at;
                version = pos 1;
              }
                ∷ [];
        };
      },
    )

-- `SELECT … FROM tasks WHERE id = ?`, by `scanTask`.
abbrev pub select_task : ℤ → Statement Task
select_task id d = found (find (λ t. t.id == id) d.tables.tasks) d

unfoldable pub task_by_id : ℤ → Method Task
unfolding run find no_rows_error
task_by_id id = query (select_task id) no_rows_error "scan task"

-- `INSERT INTO task_history`
unfoldable pub insert_history_row : ℤ → ℤ → String → Statement Unit
unfolding any
insert_history_row task_id changed_by payload d =
    let id = pos d.next.task_history in
    let d' = record d { next = record d.next { task_history = suc d.next.task_history } } in
    if not (has_task d.tables task_id) || not (has_user d.tables changed_by)
    then (err (mysql 1452), d')
    else (
      ok tt,
      record d' {
        tables = record d.tables {
          task_history =
              d.tables.task_history
              ++ record {
                id = id;
                task_id = task_id;
                changed_by = changed_by;
                changes = payload;
                created_at = d.clock;
              }
                ∷ [];
        };
      },
    )

-- The task with the columns that an update sets.
abbrev pub updated : TaskUpdate → Time → Task → Task
updated upd now t = record t {
  title = upd.title;
  description = upd.description;
  status = upd.status;
  assignee_id = upd.assignee_id;
  closed_at = upd.closed_at;
  updated_at = now;
  version = pos (suc (pos_part t.version));
}

abbrev pub is_version : ℤ → ℤ → Task → Bool
is_version id version t = t.id == id && t.version == version

unfoldable pub update_rows : ℤ → ℤ → TaskUpdate → Time → List Task → List Task
update_rows id version upd now [] = []
update_rows id version upd now (t ∷ ts) =
    (if is_version id version t then updated upd now t else t) ∷ update_rows id version upd now ts

-- The version is an INT UNSIGNED: it cannot pass 2^32 - 1.
abbrev pub max_version : ℤ
max_version = pos 4294967295

-- `UPDATE tasks SET … WHERE id = ? AND version = ?`, with the rows affected: `id` is the primary
-- key, and a row that is found changes, if only in its version.
unfoldable pub update_task_row : ℤ → ℤ → TaskUpdate → Statement ℕ
unfolding any update_rows find
update_task_row id version upd d = elim (find (is_version id version) d.tables.tasks) [
  | none ↦ (ok 0, d)
  | some t ↦
      if not (fits_task upd.title upd.description upd.status)
      then (err (mysql 1406), d)
      else if not (has_user_or_null d.tables upd.assignee_id)
      then (err (mysql 1452), d)
      else if version == max_version
      then (err (mysql 1264), d)
      else (
        ok 1,
        record d {
          tables = record d.tables { tasks = update_rows id version upd d.clock d.tables.tasks };
        },
      )
]

-- The conditions of the query that `ListTasks` builds.
abbrev pub has_status : Option Status → Task → Bool
has_status none t = true
has_status (some s) t = t.status == s

abbrev pub is_assigned : Option ℤ → Option ℤ → Bool
is_assigned none assignee = true
is_assigned (some a) none = false
is_assigned (some a) (some b) = b == a

abbrev pub matches : TaskFilter → Task → Bool
matches f t =
    t.team_id == f.team_id && has_status f.status t && is_assigned f.assignee_id t.assignee_id

unfoldable pub list_rows : TaskFilter → List Task → List Task
unfolding select order_desc take drop
list_rows f ts =
    take (pos_part f.limit)
      (drop (pos_part f.offset) (order_desc (λ t. t.id) (select (matches f) ts)))

unfoldable pub list_tasks : TaskFilter → Method (List Task)
unfolding run list_rows
list_tasks f = query (λ d. (ok (list_rows f d.tables.tasks), d)) plain "select tasks"

abbrev pub encoded : Option String → Method String
encoded none = fail (wrap "encode task changes" (foreign (other "json")))
encoded (some payload) = pure payload

abbrev pub decoded_row : HistoryRow → Option (Dict FieldChange) → Option HistoryEntry
decoded_row r none = none
decoded_row r (some changes) = some (record {
  id = r.id;
  task_id = r.task_id;
  changed_by = r.changed_by;
  changes = changes;
  created_at = r.created_at;
})

abbrev pub or_undecoded : Option HistoryEntry → Method HistoryEntry
or_undecoded none = fail (wrap "decode history changes" (foreign (other "json")))
or_undecoded (some e) = pure e

-- The error of an update that affects no row.
abbrev pub conflict_at : ℤ → Failure
conflict_at id = wrap ("update task " <> format_int id) (sentinel err_version_conflict)

-- `affected == 0` is a conflict of versions.
abbrev pub check_affected : ℤ → ℕ → Method Unit
check_affected id affected = if affected == 0 then fail (conflict_at id) else pure tt

-- `closedAt` of `CreateTask`, at the time of the call.
abbrev pub closed_now : Status → Database → Option Time
closed_now status d = if terminal status then some d.clock else none

abbrev pub time_of : (Database → Option Time) → Method (Option Time)
time_of f d = (ok (f d), d)

module _ (json : Json) where
  unfoldable pub insert_history : ℤ → ℤ → Dict FieldChange → Method Unit
  unfolding run insert_history_row classify
  insert_history task_id changed_by changes = do
    payload ← encoded (json.marshal changes)
    query (insert_history_row task_id changed_by payload) classify "insert task history"

  unfoldable pub create_task : NewTask → Method Task
  unfolding begin
  create_task new = do
    tx ← begin
    closed_at ← time_of (closed_now new.status)
    id ← or_rollback tx (query (insert_task new closed_at) classify "insert task")
    task ← or_rollback tx (query (select_task id) no_rows_error "scan task")
    or_rollback tx (insert_history task.id new.created_by (creation_changes task))
    commit tx
    pure task

  unfoldable pub update_task : ℤ → ℤ → TaskUpdate → ℤ → Dict FieldChange → Method Task
  unfolding begin
  update_task id expected_version upd changed_by changes = do
    tx ← begin
    affected ←
        or_rollback tx (query (update_task_row id expected_version upd) classify "update task")
    or_rollback tx (check_affected id affected)
    or_rollback tx (insert_history id changed_by changes)
    task ← or_rollback tx (query (select_task id) no_rows_error "scan task")
    commit tx
    pure task

  -- The loop over the rows: the first one that cannot be decoded ends it.
  unfoldable pub scan_history : List HistoryRow → Method (List HistoryEntry)
  scan_history [] = pure []
  scan_history (r ∷ rs) = do
    e ← or_undecoded (decoded_row r (json.unmarshal r.changes))
    rest ← scan_history rs
    pure (e ∷ rest)

  unfoldable pub task_history : ℤ → Method (List HistoryEntry)
  unfolding run select order_desc scan_history
  task_history task_id = do
    rows ←
        query
          (λ d. (
            ok (order_desc (λ r. r.id) (select (λ r. r.task_id == task_id) d.tables.task_history)),
            d,
          ))
          plain "select task history"
    scan_history rows
