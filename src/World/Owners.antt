-- ===== src/World/Owners.antt =====
-- Every team keeps exactly one owner, whatever requests arrive and whatever faults they meet.
use test_api.Prelude.{ℕ, ℤ, String, ◌≡◌, refl, Option, some, none, List, [], ◌∷◌, Result, Dict}
use test_api.Domain.Errors.{Error, Failure}
use test_api.Domain.Task.{TaskPage, Task, TaskFilter, FieldChange}
use test_api.Domain.Patch.{TaskPatch}
use test_api.Store.Teams.Owners.{TeamsValid}
use test_api.Store.Teams.Founding.{create_team-TeamsValid}
use test_api.Store.Teams.Untouched.{untouched}
use test_api.Service.Members.{membership, task_for_member, assignee_in_team}
use test_api.Service.Exec.{call, step, modify}
use test_api.Service.Auth.{register, login}
use test_api.Service.Teams.{InviteRequest, create_team, list_teams, resolve_invitee, team_stats}
use test_api.Service.Tasks.{
  NewTaskRequest, create_task, save_changes, save_if_changed, page_or_query, update_task,
  list_tasks, task_history, add_comment, list_comments,
}
use test_api.Cache.{TaskCache}
use test_api.World.{World, Outside, service, db, salted}
use test_api.World.Keeps.{
  Preserves, Preserves-pure, keeps_rules, Preserves-other, Preserves-step, Preserves-modify,
}

module _ (o : Outside) (c : TaskCache) where
  pub membership-Preserves :
      (team_id user_id : ℤ) → Preserves TeamsValid (membership (db o c) team_id user_id)
  unfolding membership
  membership-Preserves team_id user_id = search (keeps_rules, untouched)

  pub task_for_member-Preserves :
      (task_id user_id : ℤ) → Preserves TeamsValid (task_for_member (db o c) task_id user_id)
  unfolding task_for_member
  task_for_member-Preserves task_id user_id = search (keeps_rules, untouched, membership-Preserves)

  pub assignee_in_team-Preserves :
      (team_id : ℤ) (a : Option ℤ) → Preserves TeamsValid (assignee_in_team (db o c) team_id a)
  unfolding assignee_in_team
  assignee_in_team-Preserves team_id none = search keeps_rules
  assignee_in_team-Preserves team_id (some a) = search (keeps_rules, untouched)

  pub create_team-Preserves :
      (user : ℤ) (name : String) → Preserves TeamsValid (create_team (service o c) user name)
  unfolding create_team
  create_team-Preserves user name = search (keeps_rules, create_team-TeamsValid)

  pub list_teams-Preserves : (user : ℤ) → Preserves TeamsValid (list_teams (service o c) user)
  unfolding list_teams
  list_teams-Preserves user = search (keeps_rules, untouched)

  pub resolve_invitee-Preserves :
      (req : InviteRequest) → Preserves TeamsValid (resolve_invitee (service o c) req)
  unfolding resolve_invitee
  resolve_invitee-Preserves req = search (keeps_rules, untouched)

  pub list_comments-Preserves :
      (user id : ℤ) → Preserves TeamsValid (list_comments (service o c) user id)
  unfolding list_comments
  list_comments-Preserves user id = search (keeps_rules, untouched, task_for_member-Preserves)

  pub task_history-Preserves :
      (user id : ℤ) → Preserves TeamsValid (task_history (service o c) user id)
  unfolding task_history
  task_history-Preserves user id = search (keeps_rules, untouched, task_for_member-Preserves)

  pub add_comment-Preserves :
      (user id : ℤ) (content : String)
      → Preserves TeamsValid (add_comment (service o c) user id content)
  unfolding add_comment
  add_comment-Preserves user id content = search (keeps_rules, untouched, task_for_member-Preserves)

  pub hash-Preserves :
      (password : String) (f : Failure → Error)
      → Preserves TeamsValid (call (λ w. salted o c w.entropy password w) f)
  hash-Preserves password f =
      Preserves-other (λ w. salted o c w.entropy password w) f (λ w. salted_same w w.entropy)
    where
      salted_same : (w : World) (salts : List ℕ) → (salted o c salts password w).1.db ≡ w.db
      salted_same w [] = refl
      salted_same w (salt ∷ rest) = refl

  -- A call that answers from the world and leaves it as it is.
  pub answer-Preserves :
      {A : Type 0} (m : World → Result Failure A) (f : Failure → Error)
      → Preserves TeamsValid (call (λ w. (m w, w)) f)
  answer-Preserves m f = Preserves-other (λ w. (m w, w)) f (λ w. refl)

  pub register-Preserves :
      (email name password : String)
      → Preserves TeamsValid (register (service o c) email name password)
  unfolding register
  register-Preserves email name password = search (keeps_rules, untouched, hash-Preserves) depth 8

  pub login-Preserves :
      (email password : String) → Preserves TeamsValid (login (service o c) email password)
  unfolding login
  login-Preserves email password = search (keeps_rules, untouched, answer-Preserves) depth 8

  pub team_stats-Preserves :
      (user team_id : ℤ) → Preserves TeamsValid (team_stats (service o c) user team_id)
  unfolding team_stats
  team_stats-Preserves user team_id = search (keeps_rules, untouched, membership-Preserves)

  pub invalidate-Preserves :
      (team_id : ℤ) → Preserves TeamsValid (modify ((service o c).cache.invalidate team_id))
  invalidate-Preserves team_id = Preserves-modify _ (λ w. refl)

  pub create_task-Preserves :
      (user : ℤ) (req : NewTaskRequest) → Preserves TeamsValid (create_task (service o c) user req)
  unfolding create_task
  create_task-Preserves user req =
      search
        (
          keeps_rules, untouched, membership-Preserves, assignee_in_team-Preserves,
          invalidate-Preserves,
        )
        depth 10

  pub now-Preserves : Preserves TeamsValid (step (service o c).now)
  now-Preserves = Preserves-step _ (λ w. refl)

  pub save_changes-Preserves :
      (user : ℤ) (task : Task) (changes : Dict FieldChange)
      → Preserves TeamsValid (save_changes (service o c) user task changes)
  unfolding save_changes
  save_changes-Preserves user task changes =
      search
        (keeps_rules, untouched, assignee_in_team-Preserves, now-Preserves, invalidate-Preserves)
        depth 10

  pub save_if_changed-Preserves :
      (user : ℤ) (task : Task) (changes : Dict FieldChange)
      → Preserves TeamsValid (save_if_changed (service o c) user task changes)
  save_if_changed-Preserves user task [] = search keeps_rules
  save_if_changed-Preserves user task (x ∷ changes) = save_changes-Preserves user task (x ∷ changes)

  pub update_task-Preserves :
      (user id : ℤ) (patch : TaskPatch)
      → Preserves TeamsValid (update_task (service o c) user id patch)
  unfolding update_task
  update_task-Preserves user id patch =
      search (keeps_rules, task_for_member-Preserves, save_if_changed-Preserves) depth 8

  pub get_page-Preserves :
      (f : TaskFilter) → Preserves TeamsValid (step ((service o c).cache.get f))
  get_page-Preserves f = Preserves-step _ (λ w. refl)

  pub set_page-Preserves :
      (f : TaskFilter) (page : TaskPage)
      → Preserves TeamsValid (modify ((service o c).cache.set f page))
  set_page-Preserves f page = Preserves-modify _ (λ w. refl)

  pub page_or_query-Preserves :
      (f : TaskFilter) (cached : Option TaskPage)
      → Preserves TeamsValid (page_or_query (service o c) f cached)
  unfolding page_or_query
  page_or_query-Preserves f (some page) = Preserves-pure page
  page_or_query-Preserves f none = search (keeps_rules, untouched, set_page-Preserves)

  pub list_tasks-Preserves :
      (user : ℤ) (f : TaskFilter) → Preserves TeamsValid (list_tasks (service o c) user f)
  unfolding list_tasks
  list_tasks-Preserves user f =
      search (keeps_rules, membership-Preserves, get_page-Preserves, page_or_query-Preserves) depth
        8
