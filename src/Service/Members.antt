-- ===== src/Service/Members.antt =====
-- What the use cases share: `membership` of internal/service/teams.go, and `taskForMember` and
-- `assigneeInTeam` of internal/service/task.go.
use test_api.Prelude.{ℤ, Option, none, some, [], ◌∷◌, if◌then◌else◌}
use test_api.Domain.Errors.{is, err_not_found, int, not_found, internal, invalid}
use test_api.Domain.Task.{Task}
use test_api.Domain.Rules.{Actor}
use test_api.Service.Exec.{Exec, pure, call, replace_error, ◌>>=◌, ◌>>◌}
use test_api.Service.Interfaces.{Db}

module _ {W : Type 0} (db : Db W) where
  unfoldable pub membership : ℤ → ℤ → Exec W Actor
  unfolding is
  membership team_id user_id = do
    member ← call (db.membership team_id user_id) λ e.
        if is e err_not_found
        then not_found "team %d not found" (int team_id ∷ [])
        else internal e "resolve team membership" []
    pure (record { user_id = user_id; role = member.role })

  -- Any error of `membership` is turned into the one for a missing task.
  unfoldable pub task_for_member : ℤ → ℤ → Exec W (Task × Actor)
  unfolding is membership
  task_for_member task_id actor_id = do
    task ← call (db.task_by_id task_id) λ e.
        if is e err_not_found
        then not_found "task %d not found" (int task_id ∷ [])
        else internal e "load task" []
    actor ←
        replace_error (not_found "task %d not found" (int task_id ∷ []))
          (membership task.team_id actor_id)
    pure (task, actor)

  unfoldable pub assignee_in_team : ℤ → Option ℤ → Exec W Unit
  unfolding is
  assignee_in_team team_id none = pure tt
  assignee_in_team team_id (some assignee) = do
    call (db.membership team_id assignee) λ e.
        if is e err_not_found
        then invalid "assignee %d is not a member of team %d" (int assignee ∷ int team_id ∷ [])
        else internal e "verify assignee membership" []
    pure tt
