-- ===== src/Http/Server/Owners.antt =====
-- The owners of teams under whatever reaches the server.
use test_api.Prelude.{sym, subst, List}
use test_api.Cache.{TaskCache}
use test_api.Http.Limiter.{Rate}
use test_api.Http.Handlers.{Bodies}
use test_api.Http.Middleware.{Server}
use test_api.Http.Server.{Event, run}
use test_api.Http.Server.Refines.{api, run-refines}
use test_api.Store.Teams.Owners.{TeamsValid}
use test_api.World.{World, Outside}
use test_api.World.Roles.{serve-TeamsValid}

-- Whatever requests and ticks reach the server, whatever they hold, and whatever faults the database
-- and the cache meet: if every team had exactly one owner, and the keys and numbers of the rows of
-- teams and members held, then so it is afterwards.
pub run-TeamsValid :
    (o : Outside) (c : TaskCache) {L : Type 0} (bodies : Bodies) (rate : Rate L) (es : List Event)
    (s : Server L World)
    → TeamsValid s.world.db.tables s.world.db.next
    → let s' = run (api o c bodies rate) es s in TeamsValid s'.world.db.tables s'.world.db.next
run-TeamsValid o c bodies rate es s v =
    let (requests, same, bounded) = run-refines o c bodies rate es s in
    subst (λ (w : World). TeamsValid w.db.tables w.db.next) (sym same)
      (serve-TeamsValid o c requests s.world v)
