-- ===== src/World/TaskRows.antt =====
-- Runs of requests over the rows of tasks.
use test_api.Prelude.{ℤ, refl, Option, some, none, List, [], ◌∷◌, Dict}
use test_api.Domain.Task.{Task, TaskFilter, TaskPage, FieldChange}
use test_api.Domain.Task.Closing.{close_timestamp-IsClosedWell}
use test_api.Domain.Patch.{TaskPatch}
use test_api.Store.Tasks.Valid.{TasksValid, TasksValid-same}
use test_api.Store.Tasks.Valid.Methods.{create_task-TasksValid, update_task-TasksValid}
use test_api.Store.Steady.{Steady as SteadyMethod}
use test_api.Store.Steady.Methods.{list_tasks-Steady}
use test_api.Store.Driver.{Method}
use test_api.Domain.Errors.{Failure, Error}
use test_api.Service.Members.{membership, task_for_member, assignee_in_team}
use test_api.Service.Exec.{Exec, step, modify, call}
use test_api.Service.Tasks.{
  NewTaskRequest, create_task, save_changes, save_if_changed, page_or_query, update_task,
  list_tasks,
}
use test_api.Cache.{TaskCache}
use test_api.World.{World, Outside, Request, service, db, on_db, handle, serve}
use test_api.World.Keeps.{Preserves, keeps_rules, Preserves-pure, Preserves-step, Preserves-modify}
use test_api.World.Steady.{Steady, Steady-call}
use test_api.World.Steady.Cases
use test_api.World.Steady.Requests.{View, quiet, creates, updates, lists, view}

-- What leaves the tasks alone leaves them valid.
Steady-TasksValid : {A : Type 0} (m : Exec World A) → Steady m → Preserves TasksValid m
Steady-TasksValid m h = record { at = λ w v. TasksValid-same w.db (m w).1.db v (h.at w).db }

steady_call-TasksValid :
    {A : Type 0} (m : Method A) (f : Failure → Error)
    → SteadyMethod m
    → Preserves TasksValid (call (on_db m) f)
steady_call-TasksValid m f h = Steady-TasksValid (call (on_db m) f) (Steady-call m f h)

module _ (o : Outside) (c : TaskCache) where
  invalidate-TasksValid :
      (team_id : ℤ) → Preserves TasksValid (modify ((service o c).cache.invalidate team_id))
  invalidate-TasksValid team_id = Preserves-modify _ (λ w. refl)

  membership-TasksValid :
      (team_id user_id : ℤ) → Preserves TasksValid (membership (db o c) team_id user_id)
  membership-TasksValid team_id user_id =
      Steady-TasksValid _ (Cases.membership-Steady o c team_id user_id)

  task_for_member-TasksValid :
      (task_id user_id : ℤ) → Preserves TasksValid (task_for_member (db o c) task_id user_id)
  task_for_member-TasksValid task_id user_id =
      Steady-TasksValid _ (Cases.task_for_member-Steady o c task_id user_id)

  assignee_in_team-TasksValid :
      (team_id : ℤ) (a : Option ℤ) → Preserves TasksValid (assignee_in_team (db o c) team_id a)
  assignee_in_team-TasksValid team_id a =
      Steady-TasksValid _ (Cases.assignee_in_team-Steady o c team_id a)

  now-TasksValid : Preserves TasksValid (step (service o c).now)
  now-TasksValid = Preserves-step _ (λ w. refl)

  pub create_task-Preserves :
      (user : ℤ) (req : NewTaskRequest) → Preserves TasksValid (create_task (service o c) user req)
  unfolding create_task
  create_task-Preserves user req =
      search
        (
          keeps_rules, create_task-TasksValid, membership-TasksValid, assignee_in_team-TasksValid,
          invalidate-TasksValid,
        )
        depth 10

  save_changes-Preserves :
      (user : ℤ) (task : Task) (changes : Dict FieldChange)
      → Preserves TasksValid (save_changes (service o c) user task changes)
  unfolding save_changes
  save_changes-Preserves user task changes =
      search
        (
          keeps_rules, update_task-TasksValid, close_timestamp-IsClosedWell,
          assignee_in_team-TasksValid, now-TasksValid, invalidate-TasksValid,
        )
        depth 10

  save_if_changed-Preserves :
      (user : ℤ) (task : Task) (changes : Dict FieldChange)
      → Preserves TasksValid (save_if_changed (service o c) user task changes)
  save_if_changed-Preserves user task [] = search keeps_rules
  save_if_changed-Preserves user task (x ∷ changes) = save_changes-Preserves user task (x ∷ changes)

  pub update_task-Preserves :
      (user id : ℤ) (patch : TaskPatch)
      → Preserves TasksValid (update_task (service o c) user id patch)
  unfolding update_task
  update_task-Preserves user id patch =
      search (keeps_rules, task_for_member-TasksValid, save_if_changed-Preserves) depth 8

  get_page-TasksValid : (f : TaskFilter) → Preserves TasksValid (step ((service o c).cache.get f))
  get_page-TasksValid f = Preserves-step _ (λ w. refl)

  set_page-TasksValid :
      (f : TaskFilter) (page : TaskPage)
      → Preserves TasksValid (modify ((service o c).cache.set f page))
  set_page-TasksValid f page = Preserves-modify _ (λ w. refl)

  page_or_query-TasksValid :
      (f : TaskFilter) (cached : Option TaskPage)
      → Preserves TasksValid (page_or_query (service o c) f cached)
  unfolding page_or_query
  page_or_query-TasksValid f (some page) = Preserves-pure page
  page_or_query-TasksValid f none =
      search (keeps_rules, steady_call-TasksValid, list_tasks-Steady, set_page-TasksValid)

  pub list_tasks-Preserves :
      (user : ℤ) (f : TaskFilter) → Preserves TasksValid (list_tasks (service o c) user f)
  unfolding list_tasks
  list_tasks-Preserves user f =
      search (keeps_rules, membership-TasksValid, get_page-TasksValid, page_or_query-TasksValid)
        depth 8

  handle-TasksValid :
      (r : Request) (w : World)
      → View o c r
      → TasksValid w.db.tables w.db.next
      → TasksValid (handle o c r w).db.tables (handle o c r w).db.next
  unfolding handle
  handle-TasksValid r w (quiet _ still) v = TasksValid-same w.db (handle o c r w).db v (still w).db
  handle-TasksValid _ w (creates user req) v = (create_task-Preserves user req).at w v
  handle-TasksValid _ w (updates user id patch) v = (update_task-Preserves user id patch).at w v
  handle-TasksValid _ w (lists user f) v = (list_tasks-Preserves user f).at w v

  -- Whatever requests arrive, in whatever order, and whatever faults the database and the cache meet:
  -- if every row of tasks was valid, then so it is afterwards. Valid is: a time of closing is there
  -- exactly in a terminal status, the status is one of the four, the numbers ascend and have been
  -- given out, and no version has passed what its column holds.
  pub serve-TasksValid :
      (requests : List Request) (w : World)
      → TasksValid w.db.tables w.db.next
      → TasksValid (serve o c requests w).db.tables (serve o c requests w).db.next
  unfolding serve
  serve-TasksValid [] w v = v
  serve-TasksValid (r ∷ requests) w v =
      serve-TasksValid requests (handle o c r w) (handle-TasksValid r w (view o c r) v)
