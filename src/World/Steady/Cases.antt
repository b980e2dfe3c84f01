-- ===== src/World/Steady/Cases.antt =====
-- The use cases of internal/service but `CreateTask`, `UpdateTask` and `ListTasks`.
use test_api.Prelude.{ℕ, ℤ, String, Option, some, none, List, [], ◌∷◌, Result, refl}
use test_api.Domain.Errors.{Error, Failure}
use test_api.Domain.Role.{Role}
use test_api.Store.Steady.{SameTasks-refl}
use test_api.Store.Steady.Methods.{steady_methods}
use test_api.Service.Members.{membership, task_for_member, assignee_in_team}
use test_api.Service.Exec.{call, step}
use test_api.Service.Auth.{register, login}
use test_api.Service.Teams.{
  InviteRequest, create_team, list_teams, resolve_invitee, invite_member, change_member_role,
  team_stats,
}
use test_api.Service.Tasks.{task_history, add_comment, list_comments}
use test_api.Cache.{TaskCache}
use test_api.World.{World, Outside, service, db, salted}
use test_api.World.Steady.{Steady, Unmoved, Unmoved-refl, Steady-other, Steady-step, steady_rules}

module _ (o : Outside) (c : TaskCache) where
  pub membership-Steady : (team_id user_id : ℤ) → Steady (membership (db o c) team_id user_id)
  unfolding membership
  membership-Steady team_id user_id = search (steady_rules, steady_methods)

  pub task_for_member-Steady :
      (task_id user_id : ℤ) → Steady (task_for_member (db o c) task_id user_id)
  unfolding task_for_member
  task_for_member-Steady task_id user_id = search (steady_rules, steady_methods, membership-Steady)

  pub assignee_in_team-Steady :
      (team_id : ℤ) (a : Option ℤ) → Steady (assignee_in_team (db o c) team_id a)
  unfolding assignee_in_team
  assignee_in_team-Steady team_id none = search steady_rules
  assignee_in_team-Steady team_id (some a) = search (steady_rules, steady_methods)

  hash-Steady :
      (password : String) (f : Failure → Error)
      → Steady (call (λ w. salted o c w.entropy password w) f)
  hash-Steady password f =
      Steady-other (λ w. salted o c w.entropy password w) f (λ w. salted_same w w.entropy)
    where
      salted_same : (w : World) (salts : List ℕ) → Unmoved w (salted o c salts password w).1
      salted_same w [] = Unmoved-refl w
      salted_same w (salt ∷ rest) = record { db = SameTasks-refl w.db; redis = refl }

  -- A call that answers from the world and leaves it as it is.
  answer-Steady :
      {A : Type 0} (m : World → Result Failure A) (f : Failure → Error)
      → Steady (call (λ w. (m w, w)) f)
  answer-Steady m f = Steady-other (λ w. (m w, w)) f Unmoved-refl

  pub now-Steady : Steady (step (service o c).now)
  now-Steady = Steady-step _ Unmoved-refl

  pub register-Steady :
      (email name password : String) → Steady (register (service o c) email name password)
  unfolding register
  register-Steady email name password = search (steady_rules, steady_methods, hash-Steady) depth 8

  pub login-Steady : (email password : String) → Steady (login (service o c) email password)
  unfolding login
  login-Steady email password = search (steady_rules, steady_methods, answer-Steady) depth 8

  pub create_team-Steady : (user : ℤ) (name : String) → Steady (create_team (service o c) user name)
  unfolding create_team
  create_team-Steady user name = search (steady_rules, steady_methods) depth 8

  pub list_teams-Steady : (user : ℤ) → Steady (list_teams (service o c) user)
  unfolding list_teams
  list_teams-Steady user = search (steady_rules, steady_methods) depth 8

  pub resolve_invitee-Steady : (req : InviteRequest) → Steady (resolve_invitee (service o c) req)
  unfolding resolve_invitee
  resolve_invitee-Steady req = search (steady_rules, steady_methods) depth 8

  pub invite_member-Steady :
      (user team_id : ℤ) (req : InviteRequest)
      → Steady (invite_member (service o c) user team_id req)
  unfolding invite_member
  invite_member-Steady user team_id req =
      search (steady_rules, steady_methods, membership-Steady, resolve_invitee-Steady) depth 12

  pub change_member_role-Steady :
      (user team_id target : ℤ) (role : Role)
      → Steady (change_member_role (service o c) user team_id target role)
  unfolding change_member_role
  change_member_role-Steady user team_id target role =
      search (steady_rules, steady_methods, membership-Steady) depth 12

  pub team_stats-Steady : (user team_id : ℤ) → Steady (team_stats (service o c) user team_id)
  unfolding team_stats
  team_stats-Steady user team_id = search (steady_rules, steady_methods, membership-Steady) depth 8

  pub task_history-Steady : (user id : ℤ) → Steady (task_history (service o c) user id)
  unfolding task_history
  task_history-Steady user id =
      search (steady_rules, steady_methods, task_for_member-Steady) depth 8

  pub add_comment-Steady :
      (user id : ℤ) (content : String) → Steady (add_comment (service o c) user id content)
  unfolding add_comment
  add_comment-Steady user id content =
      search (steady_rules, steady_methods, task_for_member-Steady) depth 8

  pub list_comments-Steady : (user id : ℤ) → Steady (list_comments (service o c) user id)
  unfolding list_comments
  list_comments-Steady user id =
      search (steady_rules, steady_methods, task_for_member-Steady) depth 8
