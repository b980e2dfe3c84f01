-- ===== src/Tests/Http.antt =====
-- The theorems about the HTTP server, the tokens and the configuration at concrete values.
use test_api.Prelude.{
  pos, ◌≡◌, ◌⊎◌, ◌≤◌, refl, none, some, [], ◌∷◌, ok, List, length, lookup, arith, inr, insert,
  trim_space, format_int, parse_int, parse_nat,
}
use test_api.Domain.User.{normalize_email}
use test_api.Store.Users.{credentials_by_email}
use test_api.Service.Auth.{login}
use test_api.Http.Server.Sessions.{login-authenticate}
use test_api.World.{service, serve, Request}
use test_api.Http.Message.{header_value, Response}
use test_api.Http.Json.{write_error}
use test_api.Http.Params.{path_id, query_id, query_int, task_filter_from}
use test_api.Http.Params.Bounds.{IsFilter, path_id-format, task_filter_from-IsFilter}
use test_api.Http.Json.Secrecy.{write_error_internal}
use test_api.Http.Limiter.{allow, collect, new_ip_rate_limiter}
use test_api.Http.Limiter.Buckets.{start, allowed, collect-lookup}
use test_api.Http.Middleware.{authenticate, incoming_request_id, bearer_token}
use test_api.Http.Middleware.Identifier.{incoming_request_id-bounds}
use test_api.Http.Server as Server
use test_api.Http.Server.{
  Route, text, name, handler, serve_http, run, fresh, create_team, find_route, match,
}
use test_api.Http.Server.Refines.{api, run-refines}
use test_api.Http.Server.Answers.{entry, serve_http-answers}
use test_api.Http.Server.Access.{bad_token, status_sent, serve_http-unknown}
use test_api.Auth.{issue, parse, verify}
use test_api.Auth.Issued.{IsSound, parse-issue}
use test_api.Config.{load, env, boolean, duration}
use test_api.Config.Checks.{IsUsable, load-IsUsable}
use test_api.Http.Server.Owners.{run-TeamsValid}
use test_api.Http.Server.Routes.{here, later, find_route_unique}
use test_api.Store.Teams.Owners.{TeamsValid}
use test_api.Tests.{world-TeamsValid}
use test_api.Tests.Samples.{plain_jwt, tokens, outside, cache, world}
use test_api.Tests.Requests.{
  anns_session, rate, bodies, surroundings, anns_request, bad_request, tasks_request, server,
  events, context, lost, gone, environment, hours, loaded, busy, filter,
}

run-refines_example :
    (requests : List Request) × ((run (api outside cache bodies rate) events server).world
      ≡ serve outside cache requests world)
    × (length requests ≤ 2)
run-refines_example = run-refines outside cache bodies rate events server

serve_http-answers_example :
    let (w, s') = serve_http (api outside cache bodies rate) surroundings anns_request server in
    (response : Response) × (w.sent ≡ some response)
    × (lookup "X-Request-Id" response.header ≡ some (incoming_request_id anns_request surroundings))
    × (s'.log ≡ entry (api outside cache bodies rate) surroundings anns_request response ∷ [])
serve_http-answers_example =
    serve_http-answers (api outside cache bodies rate) surroundings anns_request server

create_team_route :
    find_route Server.routes "POST" ("api" ∷ "v1" ∷ "teams" ∷ []) ≡ Server.endpoint create_team []
unfolding find_route match
create_team_route = refl

forged : bearer_token "Bearer forged" ≡ some "forged"
unfolding bearer_token trim_space
forged = refl

serve_http-unknown_example :
    let (w, s') = serve_http (api outside cache bodies rate) surroundings bad_request server in
    ((status_sent w ≡ some 401) ⊎ (status_sent w ≡ some 429)) × (s'.world ≡ world)
unfolding lookup parse
serve_http-unknown_example =
    serve_http-unknown (api outside cache bodies rate) surroundings bad_request server create_team
      [] create_team_route (λ e. cc) (λ e. cc) (bad_token "forged" forged refl)

write_error_internal_example : write_error context lost fresh ≡ write_error context gone fresh
write_error_internal_example = write_error_internal context lost gone fresh refl refl

collect-lookup_example : lookup "10.0.0.1" (collect 600000006 busy).buckets ≡ none
unfolding lookup allow insert new_ip_rate_limiter
collect-lookup_example =
    collect-lookup rate busy 600000006 "10.0.0.1"
      (allowed "10.0.0.1" 5 (new_ip_rate_limiter 20 40) busy (start 20 40 _ refl) refl)

incoming_request_id-bounds_example :
    (1 ≤ length (incoming_request_id anns_request surroundings))
    × (length (incoming_request_id anns_request surroundings) ≤ 64)
incoming_request_id-bounds_example =
    incoming_request_id-bounds anns_request surroundings
      (record { random = inr (_, refl, refl); time = omega arith })

path_id-format_example : path_id tasks_request "task_id" ≡ ok (pos 42)
unfolding format_int lookup
path_id-format_example =
    path_id-format tasks_request "task_id" (pos 42)
      (record { positive = omega arith; fits = omega arith }) refl

tasks_request_read : task_filter_from tasks_request ≡ ok filter
unfolding task_filter_from query_id query_int parse_int lookup parse_nat
tasks_request_read = refl

task_filter_from-IsFilter_example : IsFilter filter
task_filter_from-IsFilter_example =
    task_filter_from-IsFilter tasks_request filter tasks_request_read

plain_jwt-IsSound : IsSound plain_jwt
plain_jwt-IsSound = record {
  parse-signed = λ secret token subject issued expires now e early. (_, refl, ground arith);
}

parse-issue_example : parse plain_jwt tokens "42" 9 ≡ some (pos 42)
unfolding issue format_int
parse-issue_example =
    parse-issue plain_jwt tokens (pos 42) 5 9 15 "42" plain_jwt-IsSound (omega arith) (omega arith)
      refl (omega arith)

load-environment : load hours environment ≡ ok loaded
unfolding load env boolean duration lookup
load-environment = refl

load-IsUsable_example : IsUsable loaded
load-IsUsable_example = load-IsUsable hours environment loaded load-environment

anns_login :
    login (service outside cache) "ann@example.com" "secret12" world ≡ (ok anns_session, world)
unfolding login normalize_email credentials_by_email issue trim_space verify
anns_login = refl

anns_token : bearer_token (header_value anns_request "Authorization") ≡ some "1"
unfolding bearer_token trim_space lookup
anns_token = refl

login-authenticate_example :
    authenticate
      (λ token. parse plain_jwt tokens token 12)
      (handler (api outside cache bodies rate) create_team)
      context
      anns_request
      fresh
      server
    ≡ handler
        (api outside cache bodies rate)
        create_team
        (record context { user_id = some (pos 1) })
        anns_request
        fresh
        server
login-authenticate_example =
    login-authenticate outside cache "ann@example.com" "secret12" world world anns_session
      plain_jwt-IsSound anns_login (omega arith) (omega arith)
      (handler (api outside cache bodies rate) create_team) context anns_request fresh server 12
      anns_token (omega arith)

run-TeamsValid_example :
    let s' = run (api outside cache bodies rate) events server in
    TeamsValid s'.world.db.tables s'.world.db.next
run-TeamsValid_example = run-TeamsValid outside cache bodies rate events server world-TeamsValid

abbrev report_route : Route
report_route = record {
  method = "GET";
  pattern = text "api" ∷ text "v1" ∷ text "teams" ∷ name "team_id" ∷ text "stats" ∷ [];
  endpoint = Server.team_stats;
}

report_fits :
    match report_route.pattern ("api" ∷ "v1" ∷ "teams" ∷ "7" ∷ "stats" ∷ [])
    ≡ some (("team_id", "7") ∷ [])
unfolding match
report_fits = refl

find_route_unique_example :
    find_route Server.routes "HEAD" ("api" ∷ "v1" ∷ "teams" ∷ "7" ∷ "stats" ∷ [])
    ≡ Server.endpoint Server.team_stats (("team_id", "7") ∷ [])
find_route_unique_example =
    find_route_unique report_route "HEAD" ("api" ∷ "v1" ∷ "teams" ∷ "7" ∷ "stats" ∷ [])
      (("team_id", "7") ∷ [])
      (later _ _ (later _ _ (later _ _ (later _ _ (later _ _ (later _ _ (here _))))))) refl
      report_fits
