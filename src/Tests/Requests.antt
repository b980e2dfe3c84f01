-- ===== src/Tests/Requests.antt =====
-- The values of the tests of the HTTP server, the tokens and the configuration.
use test_api.Prelude.{
  ℕ, suc, zero, ℤ, pos, String, ◌==◌, string_eq, Bool, true, false, Option, none, some, [], ◌∷◌,
  List, if◌then◌else◌,
}
use test_api.Domain.Task.{Time, TaskFilter}
use test_api.Domain.Errors.{foreign, other}
use test_api.World.{World}
use test_api.Http.Message.{HttpRequest, Context}
use test_api.Http.Json.{AnyError, of_other, Decoder}
use test_api.Http.Limiter.{Rate, IpRateLimiter, allow, new_ip_rate_limiter}
use test_api.Http.Middleware.{Server, Surroundings}
use test_api.Http.Handlers.{Bodies}
use test_api.Http.Server.{Event, request, tick}
use test_api.Service.Auth.{Session}
use test_api.Config.{Config}
use test_api.Tests.Samples.{world}

-- A limiter that counts what is left of the burst.
abbrev counted : Time → ℕ → Bool × ℕ
counted now zero = (false, zero)
counted now (suc n) = (true, n)

abbrev pub rate : Rate ℕ
rate = record { new_limiter = λ rps burst. burst; allow = counted }

abbrev no_decoder : {T : Type 0} → Decoder T
no_decoder = record { decode = λ b. none; is_end = λ b. true }

-- Every body is that of a new team, and nothing else.
abbrev pub bodies : Bodies
bodies = record {
  register = no_decoder;
  login = no_decoder;
  create_team = record { decode = λ b. some (record { name = "Second" }, b); is_end = λ b. true };
  invite = no_decoder;
  change_role = no_decoder;
  create_task = no_decoder;
  patch = no_decoder;
  comment = no_decoder;
}

abbrev pub surroundings : Surroundings
surroundings = record {
  random = some (1 ∷ 2 ∷ 3 ∷ 4 ∷ 5 ∷ 6 ∷ 7 ∷ 8 ∷ 9 ∷ 10 ∷ 11 ∷ 12 ∷ 13 ∷ 14 ∷ 15 ∷ 255 ∷ []);
  unix_nano = pos 1700000000000000000;
  now = 1700000000000000;
}

-- A new team, with a token.
abbrev pub with_token : String → HttpRequest
with_token token = record {
  method = "POST";
  path = "/api/v1/teams";
  segments = "api" ∷ "v1" ∷ "teams" ∷ [];
  query = [];
  header = ("Authorization", token) ∷ [];
  body = [];
  remote_addr = "10.0.0.1:5000";
  path_values = [];
}

abbrev pub anns_request : HttpRequest
anns_request = with_token "Bearer 1"

abbrev pub bad_request : HttpRequest
bad_request = with_token "Bearer forged"

-- A list of the tasks of team 7, from the eleventh on.
abbrev pub tasks_request : HttpRequest
tasks_request = record anns_request {
  method = "GET";
  path = "/api/v1/tasks";
  segments = "api" ∷ "v1" ∷ "tasks" ∷ [];
  query = ("team_id", "7") ∷ ("offset", "10") ∷ [];
  path_values = ("task_id", "42") ∷ [];
}

abbrev pub server : Server ℕ World
server = record {
  world = world;
  limiter = some (record { rps = 20; burst = 40; buckets = [] });
  log = [];
}

abbrev pub events : List Event
events =
    request surroundings anns_request
    ∷ tick 1700000900000000
    ∷ request surroundings bad_request
    ∷ []

abbrev pub context : Context
context = record { user_id = none; request_id = some (49 ∷ []) }

abbrev pub lost : AnyError
lost = of_other (foreign (other "connection lost"))

abbrev pub gone : AnyError
gone = of_other (foreign (other "server has gone away"))

abbrev pub environment : List (String × String)
environment =
    ("MYSQL_DSN", "app@/app")
    ∷ ("JWT_SECRET", "0123456789abcdef0123456789abcdef")
    ∷ ("JWT_TTL", "1h")
    ∷ []

abbrev pub hours : String → Option ℤ
hours s = if s == "1h" then some (pos 3600000000000) else none

-- What `Load` makes of it.
abbrev pub loaded : Config
loaded = record {
  http_addr = ":8080";
  mysql_dsn = "app@/app";
  auto_migrate = true;
  redis_addr = "127.0.0.1:6379";
  cache_ttl = pos 300000000000;
  jwt_secret = "0123456789abcdef0123456789abcdef";
  jwt_ttl = pos 3600000000000;
}

-- A limiter after a first request.
abbrev pub busy : IpRateLimiter ℕ
busy = (allow rate "10.0.0.1" 5 (new_ip_rate_limiter 20 40)).1

abbrev pub filter : TaskFilter
filter = record {
  team_id = pos 7;
  status = none;
  assignee_id = none;
  limit = pos 20;
  offset = pos 10;
}

-- What Ann gets when she logs in.
abbrev pub anns_session : Session
anns_session = record {
  token = "1";
  expires_at = 19;
  user = record { id = pos 1; email = "ann@example.com"; name = "Ann"; created_at = 1 };
}
