-- ===== src/Service/Tasks.antt =====
-- internal/service/task.go
pub mod Hiding
pub mod Limits
use test_api.Prelude.{
  ℤ, pos, String, Bool, false, not, ◌!=◌, ◌==◌, string_eq, int_eq, Option, none, some, List, [],
  ◌∷◌, leb_ℤ, ltb_ℤ, if◌then◌else◌, Dict, raise_if, trim_space, ok,
}
use test_api.Domain.Errors.{is, err_version_conflict, int, text, conflict, internal, invalid}
use test_api.Domain.Task.{
  Task, TaskFilter, TaskPage, HistoryEntry, FieldChange, Status, status_todo, valid,
  close_timestamp,
}
use test_api.Domain.Patch.{TaskPatch, diff, apply}
use test_api.Domain.Rules.{
  Check, validate_new_task, validate, validate_comment, authorize_task_update,
}
use test_api.Domain.Comment.{Comment}
use test_api.Service.Exec.{Exec, pure, lift, call, step, modify, ◌>>=◌, ◌>>◌}
use test_api.Service.Interfaces.{Service}
use test_api.Service.Members.{membership, task_for_member, assignee_in_team}

abbrev pub default_limit : ℤ
default_limit = pos 20

abbrev pub max_limit : ℤ
max_limit = pos 100

pub record NewTaskRequest : Type 0 where
  pub team_id : ℤ
  pub title : String
  pub description : String
  pub status : Status
  pub assignee_id : Option ℤ

unfoldable pub normalize_limit : ℤ → ℤ
normalize_limit limit =
    if leb_ℤ limit (pos 0)
    then default_limit
    else if ltb_ℤ max_limit limit
    then max_limit
    else limit

unfoldable pub normalize_offset : ℤ → ℤ
normalize_offset offset = if ltb_ℤ offset (pos 0) then pos 0 else offset

-- `patch.Version != nil && *patch.Version != task.Version`
abbrev pub is_stale : Option ℤ → ℤ → Bool
is_stale none version = false
is_stale (some v) version = v != version

-- `filter.Status != nil && !filter.Status.Valid()`
unfoldable pub check_status : Option Status → Check
unfolding valid
check_status none = ok tt
check_status (some s) = raise_if (not (valid s)) (invalid "unknown status %q" (text s ∷ []))

module _ {W : Type 0} (s : Service W) where
  unfoldable pub create_task : ℤ → NewTaskRequest → Exec W Task
  unfolding membership assignee_in_team
  create_task actor_id req = do
    lift (raise_if (leb_ℤ req.team_id (pos 0)) (invalid "team_id is required" []))
    let status = if req.status == "" then status_todo else req.status
    lift (validate_new_task req.title req.description status)
    membership s.db req.team_id actor_id
    assignee_in_team s.db req.team_id req.assignee_id
    task ←
        call
          (s.db.create_task (record {
            team_id = req.team_id;
            title = trim_space req.title;
            description = req.description;
            status = status;
            created_by = actor_id;
            assignee_id = req.assignee_id;
          }))
          (λ e. internal e "create task" [])
    modify (s.cache.invalidate task.team_id)
    pure task

  -- The part of `UpdateTask` from its first write on.
  unfoldable pub save_changes : ℤ → Task → Dict FieldChange → Exec W Task
  unfolding is
  save_changes actor_id task changes = do
    let next = apply task changes
    assignee_in_team s.db task.team_id next.assignee_id
    now ← step s.now
    saved ←
        call
          (s.db.update_task task.id task.version
            (record {
              title = next.title;
              description = next.description;
              status = next.status;
              assignee_id = next.assignee_id;
              closed_at = close_timestamp task next.status now;
            })
            actor_id changes)
          λ e.
            if is e err_version_conflict
            then conflict "task was modified by someone else, retry with current version" []
            else internal e "update task" []
    modify (s.cache.invalidate saved.team_id)
    pure saved

  -- `if len(changes) == 0 { return task, nil }`, and the rest.
  abbrev pub save_if_changed : ℤ → Task → Dict FieldChange → Exec W Task
  save_if_changed actor_id task [] = pure task
  save_if_changed actor_id task (c ∷ changes) = save_changes actor_id task (c ∷ changes)

  unfoldable pub update_task : ℤ → ℤ → TaskPatch → Exec W Task
  update_task actor_id task_id patch = do
    lift (validate patch)
    (task, actor) ← task_for_member s.db task_id actor_id
    lift (
        raise_if (is_stale patch.version task.version) (
          conflict "task was modified by someone else (current version %d)"
            (int task.version ∷ [])))
    let changes = diff task patch
    lift (authorize_task_update actor task changes)
    save_if_changed actor_id task changes

  -- The page of the cache, or the query and a new entry of the cache.
  unfoldable pub page_or_query : TaskFilter → Option TaskPage → Exec W TaskPage
  page_or_query filter (some page) = pure page
  page_or_query filter none = do
    tasks ← call (s.db.list_tasks filter) λ e. internal e "list tasks" []
    let page : TaskPage = record { items = tasks; limit = filter.limit; offset = filter.offset }
    modify (s.cache.set filter page)
    pure page

  unfoldable pub list_tasks : ℤ → TaskFilter → Exec W TaskPage
  unfolding check_status normalize_limit normalize_offset membership page_or_query
  list_tasks actor_id asked = do
    lift (raise_if (leb_ℤ asked.team_id (pos 0)) (invalid "team_id is required" []))
    lift (check_status asked.status)
    let filter = record asked {
      limit = normalize_limit asked.limit;
      offset = normalize_offset asked.offset;
    }
    membership s.db filter.team_id actor_id
    cached ← step (s.cache.get filter)
    page_or_query filter cached

  unfoldable pub task_history : ℤ → ℤ → Exec W (List HistoryEntry)
  unfolding task_for_member
  task_history actor_id task_id = do
    task_for_member s.db task_id actor_id
    call (s.db.task_history task_id) λ e. internal e "list task history" []

  unfoldable pub add_comment : ℤ → ℤ → String → Exec W Comment
  unfolding task_for_member
  add_comment actor_id task_id content = do
    lift (validate_comment content)
    task_for_member s.db task_id actor_id
    call (s.db.add_comment task_id actor_id (trim_space content)) λ e. internal e "add comment" []

  unfoldable pub list_comments : ℤ → ℤ → Exec W (List Comment)
  unfolding task_for_member
  list_comments actor_id task_id = do
    task_for_member s.db task_id actor_id
    call (s.db.task_comments task_id) λ e. internal e "list comments" []
