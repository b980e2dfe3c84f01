-- ===== src/World/Told/Serving.antt =====
-- Runs of requests over the tasks and their histories.
use test_api.Prelude.{ℤ, refl, int_eq, Option, none, some, List, [], ◌∷◌}
use test_api.Domain.Task.{TaskFilter, TaskPage}
use test_api.World.Keeps.{Preserves, keeps_rules, Preserves-modify, Preserves-step}
use test_api.Store.Steady.Methods.{list_tasks-Steady}
use test_api.Store.Tasks.Told.{TasksTold}
use test_api.Service.Exec.{step, modify}
use test_api.Service.Tasks.{page_or_query, list_tasks}
use test_api.Cache.{TaskCache}
use test_api.World.{World, Outside, Request, service, handle, serve}
use test_api.World.Steady.{Steady-call}
use test_api.World.Steady.Cases
use test_api.World.Steady.Requests.{View, quiet, creates, updates, lists, view}
use test_api.Store.Tasks.Told.Rows.{TasksTold-same}
use test_api.World.Told.{
  IsWorldTold, Steady-TasksTold, update_task-Gives, Post-IsWorldTold, create_task-Preserves,
}

module _ (o : Outside) (c : TaskCache) where
  get_page-Preserves :
      (f : TaskFilter) → Preserves (TasksTold o.json) (step ((service o c).cache.get f))
  get_page-Preserves f = Preserves-step _ (λ w. refl)

  set_page-Preserves :
      (f : TaskFilter) (page : TaskPage)
      → Preserves (TasksTold o.json) (modify ((service o c).cache.set f page))
  set_page-Preserves f page = Preserves-modify _ (λ w. refl)

  page_or_query-Preserves :
      (f : TaskFilter) (cached : Option TaskPage)
      → Preserves (TasksTold o.json) (page_or_query (service o c) f cached)
  unfolding page_or_query
  page_or_query-Preserves f (some page) = search keeps_rules
  page_or_query-Preserves f none =
      search (keeps_rules, Steady-TasksTold, Steady-call, list_tasks-Steady, set_page-Preserves)
        depth 10

  list_tasks-Preserves :
      (user : ℤ) (f : TaskFilter) → Preserves (TasksTold o.json) (list_tasks (service o c) user f)
  unfolding list_tasks
  list_tasks-Preserves user f =
      search
        (
          keeps_rules, Steady-TasksTold, Cases.membership-Steady, get_page-Preserves,
          page_or_query-Preserves,
        )
        depth 10

  handle-TasksTold :
      (r : Request) (w : World) → View o c r → IsWorldTold o c w → IsWorldTold o c (handle o c r w)
  unfolding handle
  handle-TasksTold r w (quiet _ still) h =
      TasksTold-same o.json w.db (handle o c r w).db h (still w).db
  handle-TasksTold _ w (creates user req) h = (create_task-Preserves o c user req).at w h
  handle-TasksTold _ w (updates user id patch) h =
      Post-IsWorldTold o c _ _
        ((update_task-Gives o c user id patch w.db.tables.tasks).at w (h, refl, tt))
  handle-TasksTold _ w (lists user f) h = (list_tasks-Preserves user f).at w h

  -- Whatever requests arrive, in whatever order, and whatever faults the database and the cache meet:
  -- if the rows of the tasks were valid, each entry of the history had a number that has been given
  -- out to a task, and the history of each task told its row, then so it is afterwards. A history tells a row if the
  -- changes whose JSON texts are its entries, applied one after the other to a task of which nothing
  -- is known, give the title, the description, the status and the assignee of the row.
  pub serve-TasksTold :
      (requests : List Request) (w : World)
      → TasksTold o.json w.db.tables w.db.next
      → TasksTold o.json (serve o c requests w).db.tables (serve o c requests w).db.next
  unfolding serve
  serve-TasksTold [] w h = h
  serve-TasksTold (r ∷ requests) w h =
      serve-TasksTold requests (handle o c r w) (handle-TasksTold r w (view o c r) h)
