-- ===== src/Http/Server/Refines.antt =====
-- What the HTTP layer does to the world, in terms of the requests of `World`. `api` is the wiring of
-- cmd/api/main.go.
use test_api.Prelude.{
  ℕ, suc, ◌≤◌, ℤ, String, ◌≡◌, refl, Bool, true, false, Option, none, some, List, [], ◌∷◌, length,
  arith, ap, ◌∙◌,
}
use test_api.Domain.Task.{Time}
use test_api.Cache.{TaskCache}
use test_api.Auth.{parse}
use test_api.World.{World, Outside, Request, serve, service}
use test_api.Http.Message.{HttpRequest, Writer, Context, header_value}
use test_api.Http.Limiter.{Rate, IpRateLimiter, allow, client_ip}
use test_api.Http.Handlers.{
  Bodies, handle_register, handle_login, handle_create_team, handle_list_teams, handle_invite,
  handle_change_role, handle_team_stats, handle_create_task, handle_list_tasks, handle_update_task,
  handle_task_history, handle_add_comment, handle_list_comments,
}
use test_api.Http.Middleware.{
  Server, Surroundings, Handler, authenticate, with_request_id, request_logger, rate_limit,
  bearer_token, let_through, limited, with_token, with_user,
}
use test_api.Http.Server.Serving.{Acts, idle, acts, Serves, serves_rules}
use test_api.Http.Server.{
  Api, Endpoint, Event, request, tick, answer, handler, guarded, dispatch, mux, serve_http, run,
  collect_tick, register, login, create_team, list_teams, invite, change_role, team_stats,
  create_task, list_tasks, update_task, task_history, add_comment, list_comments, Found, endpoint,
  other_method, nothing, find_route, routes, is_public,
}

module _ (o : Outside) (c : TaskCache) where
  module _ {L : Type 0} (bodies : Bodies) (rate : Rate L) where
    abbrev pub api : Api L World
    api = record {
      svc = service o c;
      bodies = bodies;
      parse = λ now token. parse o.jwt o.tokens token now;
      rate = rate;
    }

    answer-Serves :
        (e : Endpoint) (ctx : Context) (r : HttpRequest) → Serves o c (answer api e ctx r)
    unfolding handle_register handle_login handle_create_team handle_list_teams handle_invite
        handle_change_role handle_team_stats handle_create_task handle_list_tasks handle_update_task
        handle_task_history handle_add_comment handle_list_comments
    answer-Serves register ctx r = search serves_rules
    answer-Serves login ctx r = search serves_rules
    answer-Serves create_team ctx r = search serves_rules
    answer-Serves list_teams ctx r = search serves_rules
    answer-Serves invite ctx r = search serves_rules
    answer-Serves change_role ctx r = search serves_rules
    answer-Serves team_stats ctx r = search serves_rules
    answer-Serves create_task ctx r = search serves_rules
    answer-Serves list_tasks ctx r = search serves_rules
    answer-Serves update_task ctx r = search serves_rules
    answer-Serves task_history ctx r = search serves_rules
    answer-Serves add_comment ctx r = search serves_rules
    answer-Serves list_comments ctx r = search serves_rules

    -- A handler of the server that acts on the world as one request at most.
    record Acting (h : Handler (Server L World)) : Type 0 where
      at :
          (ctx : Context) (r : HttpRequest) (w : Writer) (s : Server L World)
          → Acts o c s.world (h ctx r w s).1.world

    handler-Acting : (e : Endpoint) → Acting (handler api e)
    handler-Acting e = record { at = λ ctx r w s. (answer-Serves e ctx r).at s.world }

    with_user-Acting :
        (id : Option ℤ) (h : Handler (Server L World)) → Acting h → Acting (with_user id h)
    with_user-Acting none h k = record { at = λ ctx r w s. idle refl }
    with_user-Acting (some id) h k = record { at = λ ctx r w s. k.at _ r w s }

    with_token-Acting :
        (parse_token : String → Option ℤ) (token : Option String) (h : Handler (Server L World))
        → Acting h
        → Acting (with_token parse_token token h)
    with_token-Acting parse_token none h k = record { at = λ ctx r w s. idle refl }
    with_token-Acting parse_token (some token) h k = record {
      at = λ ctx r w s. (with_user-Acting (parse_token token) h k).at ctx r w s;
    }

    guarded-Acting : (now : Time) (b : Bool) (e : Endpoint) → Acting (guarded api now b e)
    unfolding authenticate
    guarded-Acting now true e = handler-Acting e
    guarded-Acting now false e = record {
      at = λ ctx r w s.
          (with_token-Acting (api.parse now) (bearer_token (header_value r "Authorization"))
              (handler api e) (handler-Acting e)).at
            ctx r w s;
    }

    dispatch-Acting : (now : Time) (f : Found) → Acting (dispatch api now f)
    dispatch-Acting now (endpoint e values) = record {
      at = λ ctx r w s. (guarded-Acting now (is_public e) e).at ctx _ w s;
    }
    dispatch-Acting now other_method = record { at = λ ctx r w s. idle refl }
    dispatch-Acting now nothing = record { at = λ ctx r w s. idle refl }

    mux-Acting : (now : Time) → Acting (mux api now)
    unfolding mux
    mux-Acting now = record {
      at = λ ctx r w s. (dispatch-Acting now (find_route routes r.method r.segments)).at ctx r w s;
    }

    let_through-Acting :
        (b : Bool) (h : Handler (Server L World)) → Acting h → Acting (let_through b h)
    let_through-Acting true h k = record { at = λ ctx r w s. k.at ctx r w s }
    let_through-Acting false h k = record { at = λ ctx r w s. idle refl }

    limited-Acting :
        (l : Option (IpRateLimiter L)) (now : Time) (h : Handler (Server L World))
        → Acting h
        → Acting (limited rate now l h)
    limited-Acting none now h k = record { at = λ ctx r w s. k.at ctx r w s }
    limited-Acting (some l) now h k = record {
      at = λ ctx r w s.
          (let_through-Acting (allow rate (client_ip r.remote_addr) now l).0 h k).at ctx r w _;
    }

    serve_http-Acts :
        (env : Surroundings) (r : HttpRequest) (s : Server L World)
        → Acts o c s.world (serve_http api env r s).1.world
    unfolding serve_http with_request_id request_logger rate_limit
    serve_http-Acts env r s =
        (limited-Acting s.limiter env.now (mux api env.now) (mux-Acting env.now)).at _ r _ s

    -- How many requests a list of events holds.
    abbrev pub arrivals : List Event → ℕ
    arrivals [] = 0
    arrivals (request env r ∷ es) = suc (arrivals es)
    arrivals (tick now ∷ es) = arrivals es

    record Refined (es : List Event) (s : Server L World) : Type 0 where
      requests : List Request
      same : (run api es s).world ≡ serve o c requests s.world
      bounded : length requests ≤ arrivals es

    after-idle :
        (env : Surroundings) (r : HttpRequest) (es : List Event) (s : Server L World)
        → Acts o c s.world (serve_http api env r s).1.world
        → Refined es (serve_http api env r s).1
        → Refined (request env r ∷ es) s
    unfolding run serve
    after-idle env r es s (idle e) rest = record {
      requests = rest.requests;
      same = rest.same ∙ ap (serve o c rest.requests) e;
      bounded = omega (arith, rest.bounded);
    }
    after-idle env r es s (acts q e) rest = record {
      requests = q ∷ rest.requests;
      same = rest.same ∙ ap (serve o c rest.requests) e;
      bounded = omega (arith, rest.bounded);
    }

    refined : (es : List Event) (s : Server L World) → Refined es s
    unfolding run serve collect_tick
    refined [] s = record { requests = []; same = refl; bounded = omega arith }
    refined (request env r ∷ es) s =
        after-idle env r es s (serve_http-Acts env r s) (refined es (serve_http api env r s).1)
    refined (tick now ∷ es) s =
        let rest = refined es (collect_tick api now s) in
        record { requests = rest.requests; same = rest.same; bounded = rest.bounded }

    -- Whatever requests and ticks of the collector reach the server, its world is afterwards as if the
    -- use cases alone had been run, by at most one request of `World` for each that arrived.
    pub run-refines :
        (es : List Event) (s : Server L World)
        → (requests : List Request) × ((run api es s).world ≡ serve o c requests s.world)
          × (length requests ≤ arrivals es)
    run-refines es s = let r = refined es s in (r.requests, r.same, r.bounded)
