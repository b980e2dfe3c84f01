-- ===== src/Service/Interfaces.antt =====
-- internal/service/service.go: the interfaces that the use cases are written against. Each method
-- may change the world `W`. `now` is `time.Now`, and `mail` the standard library's part of
-- the normal form of an address.
use test_api.Prelude.{ℤ, String, Bool, Option, List, Dict}
use test_api.Domain.Role.{Role}
use test_api.Domain.Task.{
  Task, NewTask, TaskUpdate, TaskFilter, TaskPage, HistoryEntry, FieldChange, Time,
}
use test_api.Domain.Team.{Team, TeamMember}
use test_api.Domain.Comment.{Comment}
use test_api.Domain.Stats.{TeamStats}
use test_api.Domain.User.{User, Credentials, Mail}
use test_api.Service.Exec.{Call}

pub record Db (W : Type 0) : Type 0 where
  pub create_user : String → String → String → Call W User
  pub user_by_id : ℤ → Call W User
  pub user_by_email : String → Call W User
  pub credentials_by_email : String → Call W Credentials
  pub create_team : String → ℤ → Call W Team
  pub add_member : ℤ → ℤ → Role → Call W Unit
  pub update_member_role : ℤ → ℤ → Role → Call W Unit
  pub membership : ℤ → ℤ → Call W TeamMember
  pub teams_for_user : ℤ → Call W (List Team)
  pub team_stats : ℤ → Call W TeamStats
  pub create_task : NewTask → Call W Task
  pub task_by_id : ℤ → Call W Task
  pub update_task : ℤ → ℤ → TaskUpdate → ℤ → Dict FieldChange → Call W Task
  pub list_tasks : TaskFilter → Call W (List Task)
  pub task_history : ℤ → Call W (List HistoryEntry)
  pub add_comment : ℤ → ℤ → String → Call W Comment
  pub task_comments : ℤ → Call W (List Comment)

-- `Get` returns the page and true, or nothing that is used and false.
pub record Cache (W : Type 0) : Type 0 where
  pub get : TaskFilter → W → Option TaskPage × W
  pub set : TaskFilter → TaskPage → W → W
  pub invalidate : ℤ → W → W

pub record Hasher (W : Type 0) : Type 0 where
  pub hash : String → Call W String
  pub verify : String → String → Bool

pub record Tokens (W : Type 0) : Type 0 where
  pub issue : ℤ → Call W (String × Time)

pub record Service (W : Type 0) : Type 0 where
  pub db : Db W
  pub cache : Cache W
  pub hasher : Hasher W
  pub tokens : Tokens W
  pub now : W → Time × W
  pub mail : Mail
