-- ===== src/Http/Server.antt =====
-- internal/httpapi/server.go: the routes and the chain of handlers. `serve_http` is one request, and
-- `run` a run of requests and ticks of the collector, one after the other.
pub mod Access
pub mod Answers
pub mod Owners
pub mod Refines
pub mod Routes
pub mod Serving
pub mod Sessions
use test_api.Prelude.{
  ℕ, ℤ, String, Bool, true, false, ◌||◌, ◌&&◌, ◌==◌, string_eq, Option, none, some, List, [], ◌∷◌,
  Dict, if◌then◌else◌, Result, insert, map,
}
use test_api.Domain.Errors.{Error}
use test_api.Domain.Task.{Time}
use test_api.Service.Interfaces.{Service}
use test_api.Http.Message.{HttpRequest, Payload, plain_text, Response, Writer, Context}
use test_api.Http.Handlers.{
  Bodies, Answer, respond, handle_register, handle_login, handle_create_team, handle_list_teams,
  handle_invite, handle_change_role, handle_team_stats, handle_create_task, handle_list_tasks,
  handle_update_task, handle_task_history, handle_add_comment, handle_list_comments,
}
use test_api.Http.Limiter.{Rate, IpRateLimiter, new_ip_rate_limiter, collect}
use test_api.Http.Middleware.{
  Handler, Server, Surroundings, authenticate, with_request_id, request_logger, rate_limit,
}

pub data Endpoint : Type 0 where
  register login create_team list_teams invite change_role team_stats : Endpoint
  create_task list_tasks update_task task_history add_comment list_comments : Endpoint

-- A segment of a pattern: a text, or a name in braces.
pub data Segment : Type 0 where
  text : String → Segment
  name : String → Segment

pub record Route : Type 0 where
  pub method : String
  pub pattern : List Segment
  pub endpoint : Endpoint

-- A pattern that begins with `/api/v1`.
abbrev route : String → List Segment → Endpoint → Route
route method rest endpoint = record {
  method = method;
  pattern = text "api" ∷ text "v1" ∷ rest;
  endpoint = endpoint;
}

abbrev pub routes : List Route
routes =
    route "POST" (text "register" ∷ []) register
    ∷ route "POST" (text "login" ∷ []) login
    ∷ route "POST" (text "teams" ∷ []) create_team
    ∷ route "GET" (text "teams" ∷ []) list_teams
    ∷ route "POST" (text "teams" ∷ name "team_id" ∷ text "invite" ∷ []) invite
    ∷ route "PATCH" (text "teams" ∷ name "team_id" ∷ text "members" ∷ name "user_id" ∷ [])
        change_role
    ∷ route "GET" (text "teams" ∷ name "team_id" ∷ text "stats" ∷ []) team_stats
    ∷ route "POST" (text "tasks" ∷ []) create_task
    ∷ route "GET" (text "tasks" ∷ []) list_tasks
    ∷ route "PUT" (text "tasks" ∷ name "task_id" ∷ []) update_task
    ∷ route "GET" (text "tasks" ∷ name "task_id" ∷ text "history" ∷ []) task_history
    ∷ route "POST" (text "tasks" ∷ name "task_id" ∷ text "comments" ∷ []) add_comment
    ∷ route "GET" (text "tasks" ∷ name "task_id" ∷ text "comments" ∷ []) list_comments
    ∷ []

-- `authenticate` is round every endpoint but these two.
abbrev pub is_public : Endpoint → Bool
is_public register = true
is_public login = true
is_public _ = false

abbrev pub bind : String → String → Option (Dict String) → Option (Dict String)
bind key value none = none
bind key value (some found) = some ((key, value) ∷ found)

-- The values of the names, if the path fits the pattern. A name stands for a segment that is not
-- empty.
unfoldable pub match : List Segment → List String → Option (Dict String)
match [] [] = some []
match [] (s ∷ path) = none
match (p ∷ pattern) [] = none
match (text t ∷ pattern) (s ∷ path) = let rest = match pattern path in if t == s then rest else none
match (name n ∷ pattern) (s ∷ path) =
    let rest = match pattern path in if s == "" then none else bind n s rest

-- A pattern for GET takes HEAD too.
abbrev takes : String → String → Bool
takes pattern method = pattern == method || pattern == "GET" && method == "HEAD"

-- What the mux finds: an endpoint with its values, or whether the path is known under a method
-- that is not the request's.
pub data Found : Type 0 where
  endpoint : Endpoint → Dict String → Found
  other_method : Found
  nothing : Found

abbrev passed_over : Found → Found
passed_over nothing = other_method
passed_over f = f

abbrev choose : Bool → Endpoint → Option (Dict String) → Found → Found
choose takes_method e none rest = rest
choose true e (some values) rest = endpoint e values
choose false e (some values) rest = passed_over rest

unfoldable pub find_route : List Route → String → List String → Found
unfolding match
find_route [] method path = nothing
find_route (r ∷ rs) method path =
    choose (takes r.method method) r.endpoint (match r.pattern path) (find_route rs method path)

-- `http.Error`: a text.
abbrev plain : ℕ → String → Writer → Writer
plain status message w = record w {
  sent = some (record { status = status; header = w.header; payload = plain_text message });
}

abbrev no_user_yet : Context
no_user_yet = record { user_id = none; request_id = none }

abbrev pub fresh : Writer
fresh = record { header = []; sent = none }

-- The program's side of a request: the use cases, the decoders, the tokens' `Parse`, the limiter.
pub record Api (L W : Type 0) : Type 0 where
  pub svc : Service W
  pub bodies : Bodies
  pub parse : Time → String → Option ℤ
  pub rate : Rate L

module _ {L W : Type 0} (api : Api L W) where
  abbrev pub answer : Endpoint → Context → HttpRequest → Answer W
  answer register = handle_register api.svc api.bodies
  answer login = handle_login api.svc api.bodies
  answer create_team = handle_create_team api.svc api.bodies
  answer list_teams = handle_list_teams api.svc api.bodies
  answer invite = handle_invite api.svc api.bodies
  answer change_role = handle_change_role api.svc api.bodies
  answer team_stats = handle_team_stats api.svc api.bodies
  answer create_task = handle_create_task api.svc api.bodies
  answer list_tasks = handle_list_tasks api.svc api.bodies
  answer update_task = handle_update_task api.svc api.bodies
  answer task_history = handle_task_history api.svc api.bodies
  answer add_comment = handle_add_comment api.svc api.bodies
  answer list_comments = handle_list_comments api.svc api.bodies

  -- The handler of an endpoint on the state of the server.
  abbrev pub handler : Endpoint → Handler (Server L W)
  handler e ctx r w s =
      let (result, world') = answer e ctx r s.world in
      (respond ctx result w, record s { world = world' })

  abbrev pub guarded : Time → Bool → Endpoint → Handler (Server L W)
  guarded now true e = handler e
  guarded now false e = authenticate (api.parse now) (handler e)

  abbrev pub dispatch : Time → Found → Handler (Server L W)
  dispatch now (endpoint e values) ctx r w s =
      guarded now (is_public e) e ctx (record r { path_values = values }) w s
  dispatch now other_method ctx r w s = (plain 405 "Method Not Allowed" w, s)
  dispatch now nothing ctx r w s = (plain 404 "404 page not found" w, s)

  unfoldable pub mux : Time → Handler (Server L W)
  unfolding find_route authenticate
  mux now ctx r w s = dispatch now (find_route routes r.method r.segments) ctx r w s

  -- `Handler`: the identifier, then the log, then the limiter, then the mux.
  unfoldable pub serve_http : Surroundings → HttpRequest → Server L W → Writer × Server L W
  unfolding mux with_request_id request_logger rate_limit
  serve_http env r s =
      with_request_id env (request_logger (rate_limit api.rate env.now (mux env.now))) no_user_yet r
        fresh s

  abbrev collected : Time → Option (IpRateLimiter L) → Option (IpRateLimiter L)
  collected now none = none
  collected now (some l) = some (collect now l)

  -- `Collect`, one tick of it.
  unfoldable pub collect_tick : Time → Server L W → Server L W
  unfolding collect
  collect_tick now s = record s { limiter = collected now s.limiter }

-- What arrives at the server.
pub data Event : Type 0 where
  request : Surroundings → HttpRequest → Event
  tick : Time → Event

module _ {L W : Type 0} (api : Api L W) where
  unfoldable pub run : List Event → Server L W → Server L W
  unfolding serve_http collect_tick
  run [] s = s
  run (request env r ∷ es) s = run es (serve_http api env r s).1
  run (tick now ∷ es) s = run es (collect_tick api now s)

-- `New`: twenty requests a second, and bursts of forty.
unfoldable pub new : {L W : Type 0} → W → Server L W
unfolding new_ip_rate_limiter
new w = record { world = w; limiter = some (new_ip_rate_limiter 20 40); log = [] }
