-- ===== src/Store/Schema.antt =====
-- The tables of migrations/000001_users.up.sql to 000004_comments.up.sql, as lists of rows in the
-- order of insertion, and the lookups that keys and foreign keys need.
use test_api.Prelude.{
  ℕ, ℤ, String, Bool, ◌&&◌, ◌||◌, ◌==◌, int_eq, string_eq, Option, List, any, true, none, some,
}
use test_api.Domain.Role.{Role}
use test_api.Domain.Task.{Task, Time}
use test_api.Domain.Comment.{Comment}

pub record UserRow : Type 0 where
  pub id : ℤ
  pub email : String
  pub password_hash : String
  pub name : String
  pub created_at : Time

pub record TeamRow : Type 0 where
  pub id : ℤ
  pub name : String
  pub created_by : ℤ
  pub created_at : Time

pub record MemberRow : Type 0 where
  pub team_id : ℤ
  pub user_id : ℤ
  pub role : Role

-- `changes` is the JSON text of the changes.
pub record HistoryRow : Type 0 where
  pub id : ℤ
  pub task_id : ℤ
  pub changed_by : ℤ
  pub changes : String
  pub created_at : Time

-- A row of `tasks` has the columns of `domain.Task`, and one of `task_comments` those of
-- `domain.Comment`.
pub record Tables : Type 0 where
  pub users : List UserRow
  pub teams : List TeamRow
  pub team_members : List MemberRow
  pub tasks : List Task
  pub task_history : List HistoryRow
  pub task_comments : List Comment

-- The next AUTO_INCREMENT value of each table. A rollback does not take them back.
pub record Counters : Type 0 where
  pub users : ℕ
  pub teams : ℕ
  pub tasks : ℕ
  pub task_history : ℕ
  pub task_comments : ℕ

abbrev pub has_user : Tables → ℤ → Bool
has_user t id = any (λ u. u.id == id) t.users

abbrev pub has_team : Tables → ℤ → Bool
has_team t id = any (λ r. r.id == id) t.teams

abbrev pub has_task : Tables → ℤ → Bool
has_task t id = any (λ r. r.id == id) t.tasks

abbrev pub is_member : ℤ → ℤ → MemberRow → Bool
is_member team_id user_id m = m.team_id == team_id && m.user_id == user_id

-- A foreign key that may be NULL.
abbrev pub has_user_or_null : Tables → Option ℤ → Bool
has_user_or_null t none = true
has_user_or_null t (some id) = has_user t id

-- The values of the ENUM columns.
abbrev pub in_role_column : String → Bool
in_role_column s = s == "owner" || s == "admin" || s == "member"

abbrev pub in_status_column : String → Bool
in_status_column s = s == "todo" || s == "in_progress" || s == "done" || s == "cancelled"
