-- ===== src/World/Freshness/Serving.antt =====
-- Runs of requests over the cache and the tables.
use test_api.Prelude.{ℤ, ◌≡◌, refl, ap, ◌∙◌, List, [], ◌∷◌, All, true, Result, ok, err}
use test_api.Domain.Errors.{Error}
use test_api.Domain.Task.{Task, TaskFilter, TaskPage}
use test_api.Store.Steady.{IsAnswered}
use test_api.Store.Tasks.Valid.{TasksValid}
use test_api.Cache.{TaskCache}
use test_api.Cache.Fresh.{IsExact, page_of, empty-IsFresh}
use test_api.Service.Tasks.{list_tasks}
use test_api.World.{World, Outside, Request, service, handle, serve}
use test_api.World.Steady.Requests.{View, quiet, creates, updates, lists, view}
use test_api.World.Freshness.{IsSound, Unmoved-IsSound}
use test_api.World.Gives.{Post}
use test_api.World.Freshness.Requests.{
  IsPage, normalized, create_task-Sound, update_task-Sound, list_tasks-Gives,
}

module _ (o : Outside) (c : TaskCache) (enabled : c.enabled ≡ true)
    (exact : IsExact o.page_json) where
  page-IsSound :
      (f : TaskFilter) (ts : List Task) (r : Result Error TaskPage) (w : World)
      → Post (IsSound o c) (IsPage o c enabled f ts) r w
      → IsSound o c w
  page-IsSound f ts (ok page) w p = p.0.0
  page-IsSound f ts (err e) w s = s

  handle-IsSound :
      (r : Request) (w : World) → View o c r → IsSound o c w → IsSound o c (handle o c r w)
  unfolding handle
  handle-IsSound r w (quiet _ still) s = Unmoved-IsSound o c w (handle o c r w) (still w) s
  handle-IsSound _ w (creates user req) s = (create_task-Sound o c enabled user req).at w s
  handle-IsSound _ w (updates user id patch) s =
      (update_task-Sound o c enabled user id patch).at w s
  handle-IsSound _ w (lists user f) s =
      page-IsSound _ _ _ _
        ((list_tasks-Gives o c enabled user f w.db.tables.tasks exact).at w (s, refl))

  serve-IsSound :
      (requests : List Request) (w : World) → IsSound o c w → IsSound o c (serve o c requests w)
  unfolding serve
  serve-IsSound [] w s = s
  serve-IsSound (r ∷ requests) w s =
      serve-IsSound requests (handle o c r w) (handle-IsSound r w (view o c r) s)

  page-fresh :
      (f : TaskFilter) (ts : List Task) (r : Result Error TaskPage) (w : World) (page : TaskPage)
      → Post (IsSound o c) (IsPage o c enabled f ts) r w
      → r ≡ ok page
      → page ≡ page_of f ts
  page-fresh f ts (ok p) w page (at, same) e = let there : page ≡ p = cc in there ∙ same
  page-fresh f ts (err x) w page s e = cc

module _ (o : Outside) (c : TaskCache) where
  -- If the cache is in use and holds nothing at first, a page that has a text is read back from it,
  -- the tasks are valid, Redis works, no answer of the database is lost, and no entry expires: after
  -- any requests, in any order, some of which may meet a database that fails, the page that
  -- `ListTasks` returns is the one that its query gives on the tasks as they are then, whether it
  -- comes from the cache or not.
  pub serve-fresh :
      (requests : List Request) (w w' : World) (user : ℤ) (f : TaskFilter) (page : TaskPage)
      → c.enabled ≡ true
      → IsExact o.page_json
      → w.redis.entries ≡ []
      → w.redis.outcomes ≡ []
      → TasksValid w.db.tables w.db.next
      → All IsAnswered w.db.faults
      → list_tasks (service o c) user f (serve o c requests w) ≡ (ok page, w')
      → page ≡ page_of (normalized f) (serve o c requests w).db.tables.tasks
  serve-fresh requests w w' user f page enabled exact clear calm valid answered e =
      let start : IsSound o c w = record {
        fresh = empty-IsFresh c o.page_json w.db.tables.tasks w.redis calm clear;
        valid = valid;
        answered = answered;
      } in
      let after = serve o c requests w in
      let sound = serve-IsSound o c enabled exact requests w start in
      page-fresh o c enabled exact (normalized f) after.db.tables.tasks
        (list_tasks (service o c) user f after).0 (list_tasks (service o c) user f after).1 page
        ((list_tasks-Gives o c enabled user f after.db.tables.tasks exact).at after (sound, refl))
        (ap (λ x. x.0) e)
