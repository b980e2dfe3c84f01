-- ===== src/World/Steady/Requests.antt =====
-- The requests by what they do with the tasks.
use test_api.Prelude.{ℤ}
use test_api.Domain.Task.{TaskFilter}
use test_api.Domain.Patch.{TaskPatch}
use test_api.Service.Tasks.{NewTaskRequest}
use test_api.Cache.{TaskCache}
use test_api.World as Program
use test_api.World.{World, Outside, Request, handle}
use test_api.World.Steady.{Unmoved}
use test_api.World.Steady.Cases

module _ (o : Outside) (c : TaskCache) where
  -- It leaves the tasks and the cache alone, or it is one of three.
  pub data View : Request → Type 0 where
    quiet : (r : Request) → ((w : World) → Unmoved w (handle o c r w)) → View r
    creates : (user : ℤ) (req : NewTaskRequest) → View (Program.create_task user req)
    updates : (user id : ℤ) (patch : TaskPatch) → View (Program.update_task user id patch)
    lists : (user : ℤ) (f : TaskFilter) → View (Program.list_tasks user f)

  pub view : (r : Request) → View r
  unfolding handle
  view (Program.register email name password) =
      quiet _ (Cases.register-Steady o c email name password).at
  view (Program.login email password) = quiet _ (Cases.login-Steady o c email password).at
  view (Program.create_team user name) = quiet _ (Cases.create_team-Steady o c user name).at
  view (Program.list_teams user) = quiet _ (Cases.list_teams-Steady o c user).at
  view (Program.invite_member user team_id req) =
      quiet _ (Cases.invite_member-Steady o c user team_id req).at
  view (Program.change_member_role user team_id target role) =
      quiet _ (Cases.change_member_role-Steady o c user team_id target role).at
  view (Program.team_stats user team_id) = quiet _ (Cases.team_stats-Steady o c user team_id).at
  view (Program.task_history user id) = quiet _ (Cases.task_history-Steady o c user id).at
  view (Program.add_comment user id content) =
      quiet _ (Cases.add_comment-Steady o c user id content).at
  view (Program.list_comments user id) = quiet _ (Cases.list_comments-Steady o c user id).at
  view (Program.create_task user req) = creates user req
  view (Program.update_task user id patch) = updates user id patch
  view (Program.list_tasks user f) = lists user f
