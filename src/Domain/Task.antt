-- ===== src/Domain/Task.antt =====
-- internal/domain/task.go: tasks, their statuses and the entries of their history.
pub mod Closing
use test_api.Prelude.{
  ℕ, ℤ, String, Bool, not, ◌||◌, Option, none, some, List, [], ◌==◌, string_eq, if◌then◌else◌, Dict,
  insert,
}

-- `type Status string`
abbrev pub Status : Type 0
Status = String

abbrev pub status_todo : Status
status_todo = "todo"

abbrev pub status_in_progress : Status
status_in_progress = "in_progress"

abbrev pub status_done : Status
status_done = "done"

abbrev pub status_cancelled : Status
status_cancelled = "cancelled"

-- `Status.Valid`
unfoldable pub valid : Status → Bool
valid s = s == status_todo || s == status_in_progress || s == status_done || s == status_cancelled

unfoldable pub terminal : Status → Bool
terminal s = s == status_done || s == status_cancelled

-- An instant, in microseconds, as the database keeps it. `UTC()` changes how it is shown and not
-- which it is.
abbrev pub Time : Type 0
Time = ℕ

-- A pointer field is `none` for nil.
pub record Task : Type 0 where
  pub id : ℤ
  pub team_id : ℤ
  pub title : String
  pub description : String
  pub status : Status
  pub created_by : ℤ
  pub assignee_id : Option ℤ
  pub created_at : Time
  pub updated_at : Time
  pub closed_at : Option Time
  pub version : ℤ

pub record NewTask : Type 0 where
  pub team_id : ℤ
  pub title : String
  pub description : String
  pub status : Status
  pub created_by : ℤ
  pub assignee_id : Option ℤ

pub record TaskUpdate : Type 0 where
  pub title : String
  pub description : String
  pub status : Status
  pub assignee_id : Option ℤ
  pub closed_at : Option Time

-- A value of type `any`, of the dynamic types that the program stores in a change.
pub data Any : Type 0 where
  nil : Any
  str : String → Any
  status : Status → Any
  id : Option ℤ → Any

pub record FieldChange : Type 0 where
  pub from : Any
  pub to : Any

pub record HistoryEntry : Type 0 where
  pub id : ℤ
  pub task_id : ℤ
  pub changed_by : ℤ
  pub changes : Dict FieldChange
  pub created_at : Time

pub record TaskFilter : Type 0 where
  pub team_id : ℤ
  pub status : Option Status
  pub assignee_id : Option ℤ
  pub limit : ℤ
  pub offset : ℤ

pub record TaskPage : Type 0 where
  pub items : List Task
  pub limit : ℤ
  pub offset : ℤ

abbrev pub field_title : String
field_title = "title"

abbrev pub field_description : String
field_description = "description"

abbrev pub field_status : String
field_status = "status"

abbrev pub field_assignee : String
field_assignee = "assignee_id"

unfoldable pub close_timestamp : Task → Status → Time → Option Time
unfolding terminal
close_timestamp current next now =
    if not (terminal next)
    then none
    else elim current.closed_at [ some closed ↦ some closed | none ↦ some now ]

abbrev pub change : Any → Any → FieldChange
change a b = record { from = a; to = b }

unfoldable pub creation_changes : Task → Dict FieldChange
unfolding insert
creation_changes task =
    let changes = insert field_title (change nil (str task.title)) (
      insert field_status (change nil (status task.status))
        (insert field_description (change nil (str task.description)) [])) in
    elim task.assignee_id [
      | none ↦ changes
      | some a ↦ insert field_assignee (change nil (id (some a))) changes
    ]
