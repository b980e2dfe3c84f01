-- ===== src/Http/Server/Serving.antt =====
-- The use cases that a handler of the server may call, as requests of `World`: one rule for each.
use test_api.Prelude.{sym, subst, ℤ, String, ◌≡◌, refl, Result, ok, err}
use test_api.Domain.Errors.{Error}
use test_api.Domain.Task.{TaskFilter}
use test_api.Domain.Patch.{TaskPatch}
use test_api.Service.Teams.{InviteRequest}
use test_api.Cache.{TaskCache}
use test_api.Service.Exec.{Exec, lift, pure, continue, ◌>>=◌}
use test_api.Domain.Role.{Role}
use test_api.Service.Auth
use test_api.Service.Teams
use test_api.Service.Tasks
use test_api.Service.Tasks.{NewTaskRequest}
use test_api.World as Program
use test_api.World.{World, Outside, Request, handle, serve, service}

module _ (o : Outside) (c : TaskCache) where
  -- The world is as it was, or one request of a use case has been handled.
  pub data Acts (w w' : World) : Type 0 where
    idle : w' ≡ w → Acts w w'
    acts : (q : Request) → w' ≡ handle o c q w → Acts w w'

  pub record Serves {A : Type 0} (m : Exec World A) : Type 0 where
    pub at : (w : World) → Acts w (m w).1

  pub Serves-lift :
      {A B : Type 0} (r : Result Error A) (f : A → Exec World B)
      → ((a : A) → Serves (f a))
      → Serves (lift r >>= f)
  Serves-lift (ok a) f h = record { at = (h a).at }
  Serves-lift (err e) f h = record { at = λ w. idle refl }

  answered :
      {A B : Type 0} (r : Result Error A) (f : A → B) (w : World)
      → (continue r (λ a. pure (f a)) w).1 ≡ w
  answered (ok a) f w = refl
  answered (err e) f w = refl

  pub Serves-answer :
      {A B : Type 0} (m : Exec World A) (f : A → B) → Serves m → Serves (m >>= λ a. pure (f a))
  Serves-answer m f h = record {
    at = λ w. subst (Acts w) (sym (answered (m w).0 f (m w).1)) (h.at w);
  }

  pub register-Serves :
      (email name password : String) → Serves (Auth.register (service o c) email name password)
  unfolding handle
  register-Serves email name password = record {
    at = λ w. acts (Program.register email name password) refl;
  }

  pub login-Serves : (email password : String) → Serves (Auth.login (service o c) email password)
  unfolding handle
  login-Serves email password = record { at = λ w. acts (Program.login email password) refl }

  pub create_team-Serves :
      (user : ℤ) (name : String) → Serves (Teams.create_team (service o c) user name)
  unfolding handle
  create_team-Serves user name = record { at = λ w. acts (Program.create_team user name) refl }

  pub list_teams-Serves : (user : ℤ) → Serves (Teams.list_teams (service o c) user)
  unfolding handle
  list_teams-Serves user = record { at = λ w. acts (Program.list_teams user) refl }

  pub invite_member-Serves :
      (user team_id : ℤ) (req : InviteRequest)
      → Serves (Teams.invite_member (service o c) user team_id req)
  unfolding handle
  invite_member-Serves user team_id req = record {
    at = λ w. acts (Program.invite_member user team_id req) refl;
  }

  pub change_member_role-Serves :
      (user team_id target : ℤ) (role : Role)
      → Serves (Teams.change_member_role (service o c) user team_id target role)
  unfolding handle
  change_member_role-Serves user team_id target role = record {
    at = λ w. acts (Program.change_member_role user team_id target role) refl;
  }

  pub team_stats-Serves : (user team_id : ℤ) → Serves (Teams.team_stats (service o c) user team_id)
  unfolding handle
  team_stats-Serves user team_id = record { at = λ w. acts (Program.team_stats user team_id) refl }

  pub create_task-Serves :
      (user : ℤ) (req : NewTaskRequest) → Serves (Tasks.create_task (service o c) user req)
  unfolding handle
  create_task-Serves user req = record { at = λ w. acts (Program.create_task user req) refl }

  pub update_task-Serves :
      (user id : ℤ) (patch : TaskPatch) → Serves (Tasks.update_task (service o c) user id patch)
  unfolding handle
  update_task-Serves user id patch = record {
    at = λ w. acts (Program.update_task user id patch) refl;
  }

  pub list_tasks-Serves :
      (user : ℤ) (f : TaskFilter) → Serves (Tasks.list_tasks (service o c) user f)
  unfolding handle
  list_tasks-Serves user f = record { at = λ w. acts (Program.list_tasks user f) refl }

  pub task_history-Serves : (user id : ℤ) → Serves (Tasks.task_history (service o c) user id)
  unfolding handle
  task_history-Serves user id = record { at = λ w. acts (Program.task_history user id) refl }

  pub add_comment-Serves :
      (user id : ℤ) (content : String) → Serves (Tasks.add_comment (service o c) user id content)
  unfolding handle
  add_comment-Serves user id content = record {
    at = λ w. acts (Program.add_comment user id content) refl;
  }

  pub list_comments-Serves : (user id : ℤ) → Serves (Tasks.list_comments (service o c) user id)
  unfolding handle
  list_comments-Serves user id = record { at = λ w. acts (Program.list_comments user id) refl }

pub ruleset serves_rules = (
  Serves-lift, Serves-answer, register-Serves, login-Serves, create_team-Serves, list_teams-Serves,
  invite_member-Serves, change_member_role-Serves, team_stats-Serves, create_task-Serves,
  update_task-Serves, list_tasks-Serves, task_history-Serves, add_comment-Serves,
  list_comments-Serves,
)
