-- ===== src/Http/Handlers.antt =====
-- internal/httpapi/handler_auth.go, handler_team.go and handler_task.go. Each handler is the steps
-- that may return an error, and one answer at their end.
use test_api.Prelude.{
  ℕ, ℤ, pos, String, Bool, true, false, ◌&&◌, Option, none, some, [], leb_ℤ, Result, ok, err,
  raise_if,
}
use test_api.Domain.Errors.{Error, invalid}
use test_api.Domain.Role.{Role}
use test_api.Domain.Patch.{TaskPatch, empty}
use test_api.Domain.Team.{TeamMember}
use test_api.Service.Exec.{Exec, pure, lift, ◌>>=◌, ◌>>◌}
use test_api.Service.Interfaces.{Service}
use test_api.Service.Auth
use test_api.Service.Teams
use test_api.Service.Teams.{InviteRequest}
use test_api.Service.Tasks
use test_api.Http.Message.{HttpRequest, Payload, MemberResponse, Writer, Context}
use test_api.Http.Message.Payload.{
  user, session, team, teams, member, stats, task, page, entries, comment, comments,
}
use test_api.Http.Params.{path_id, task_filter_from}
use test_api.Http.Json.{Decoder, decode_json, write_json, write_error, of_domain}
use test_api.Http.Middleware.{user_id_of}

-- The anonymous request types, `createTaskRequest` and `commentRequest`.
pub record RegisterRequest : Type 0 where
  pub email : String
  pub name : String
  pub password : String

pub record LoginRequest : Type 0 where
  pub email : String
  pub password : String

pub record CreateTeamRequest : Type 0 where
  pub name : String

pub record ChangeRoleRequest : Type 0 where
  pub role : Role

pub record CreateTaskRequest : Type 0 where
  pub team_id : ℤ
  pub title : String
  pub description : String
  pub assignee_id : Option ℤ

pub record CommentRequest : Type 0 where
  pub content : String

-- encoding/json for each type of a body.
pub record Bodies : Type 0 where
  pub register : Decoder RegisterRequest
  pub login : Decoder LoginRequest
  pub create_team : Decoder CreateTeamRequest
  pub invite : Decoder InviteRequest
  pub change_role : Decoder ChangeRoleRequest
  pub create_task : Decoder CreateTaskRequest
  pub patch : Decoder TaskPatch
  pub comment : Decoder CommentRequest

unfoldable pub to_member_response : TeamMember → MemberResponse
to_member_response m = record {
  team_id = m.team_id;
  user_id = m.user_id;
  role = m.role;
  email = m.email;
  name = m.name;
}

-- An answer: a status and a payload.
abbrev pub Answer : Type 0 → Type 0
Answer W = Exec W (ℕ × Payload)

abbrev is_nil : Option ℤ → Bool
is_nil none = true
is_nil (some v) = false

module _ {W : Type 0} (s : Service W) (bodies : Bodies) where
  unfoldable pub handle_register : Context → HttpRequest → Answer W
  unfolding decode_json
  handle_register ctx r = do
    req ← lift (decode_json bodies.register r.body)
    u ← Auth.register s req.email req.name req.password
    pure (201, user u)

  unfoldable pub handle_login : Context → HttpRequest → Answer W
  unfolding decode_json
  handle_login ctx r = do
    req ← lift (decode_json bodies.login r.body)
    found ← Auth.login s req.email req.password
    pure (200, session found)

  unfoldable pub handle_create_team : Context → HttpRequest → Answer W
  unfolding decode_json
  handle_create_team ctx r = do
    req ← lift (decode_json bodies.create_team r.body)
    t ← Teams.create_team s (user_id_of ctx) req.name
    pure (201, team t)

  unfoldable pub handle_list_teams : Context → HttpRequest → Answer W
  handle_list_teams ctx r = do ts ← Teams.list_teams s (user_id_of ctx); pure (200, teams ts)

  unfoldable pub handle_invite : Context → HttpRequest → Answer W
  unfolding path_id decode_json to_member_response
  handle_invite ctx r = do
    team_id ← lift (path_id r "team_id")
    req ← lift (decode_json bodies.invite r.body)
    m ← Teams.invite_member s (user_id_of ctx) team_id req
    pure (201, member (to_member_response m))

  unfoldable pub handle_change_role : Context → HttpRequest → Answer W
  unfolding path_id decode_json to_member_response
  handle_change_role ctx r = do
    team_id ← lift (path_id r "team_id")
    target_id ← lift (path_id r "user_id")
    req ← lift (decode_json bodies.change_role r.body)
    m ← Teams.change_member_role s (user_id_of ctx) team_id target_id req.role
    pure (200, member (to_member_response m))

  unfoldable pub handle_team_stats : Context → HttpRequest → Answer W
  unfolding path_id
  handle_team_stats ctx r = do
    team_id ← lift (path_id r "team_id")
    report ← Teams.team_stats s (user_id_of ctx) team_id
    pure (200, stats report)

  unfoldable pub handle_create_task : Context → HttpRequest → Answer W
  unfolding decode_json
  handle_create_task ctx r = do
    req ← lift (decode_json bodies.create_task r.body)
    lift (raise_if (leb_ℤ req.team_id (pos 0)) (invalid "team_id is required" []))
    t ← Tasks.create_task s (user_id_of ctx) (record {
      team_id = req.team_id;
      title = req.title;
      description = req.description;
      status = "";
      assignee_id = req.assignee_id;
    })
    pure (201, task t)

  unfoldable pub handle_list_tasks : Context → HttpRequest → Answer W
  unfolding task_filter_from
  handle_list_tasks ctx r = do
    filter ← lift (task_filter_from r)
    found ← Tasks.list_tasks s (user_id_of ctx) filter
    pure (200, page found)

  unfoldable pub handle_update_task : Context → HttpRequest → Answer W
  unfolding path_id decode_json empty
  handle_update_task ctx r = do
    task_id ← lift (path_id r "task_id")
    patch ← lift (decode_json bodies.patch r.body)
    lift (
        raise_if (empty patch && is_nil patch.version)
          (invalid "provide at least one field to update" []))
    t ← Tasks.update_task s (user_id_of ctx) task_id patch
    pure (200, task t)

  unfoldable pub handle_task_history : Context → HttpRequest → Answer W
  unfolding path_id
  handle_task_history ctx r = do
    task_id ← lift (path_id r "task_id")
    es ← Tasks.task_history s (user_id_of ctx) task_id
    pure (200, entries es)

  unfoldable pub handle_add_comment : Context → HttpRequest → Answer W
  unfolding path_id decode_json
  handle_add_comment ctx r = do
    task_id ← lift (path_id r "task_id")
    req ← lift (decode_json bodies.comment r.body)
    c ← Tasks.add_comment s (user_id_of ctx) task_id req.content
    pure (201, comment c)

  unfoldable pub handle_list_comments : Context → HttpRequest → Answer W
  unfolding path_id
  handle_list_comments ctx r = do
    task_id ← lift (path_id r "task_id")
    cs ← Tasks.list_comments s (user_id_of ctx) task_id
    pure (200, comments cs)

-- `writeError` after the first error, and `writeJSON` at the end.
abbrev pub respond : Context → Result Error (ℕ × Payload) → Writer → Writer
respond ctx (err e) w = write_error ctx (of_domain e) w
respond ctx (ok (status, payload)) w = write_json status payload w
