-- ===== src/Lib.antt =====
-- Verification of the team and task service: an HTTP API over MySQL and Redis, in Go. Users found
-- teams, invite members, and keep tasks with a history of changes and comments.
--
-- The parts, and the files that model them:
--   internal/domain    models and rules, which call nothing of the program. Domain/Task, Domain/Patch
--                      (`Diff`, `Apply`), Domain/Rules (validation, `AuthorizeTaskUpdate`),
--                      Domain/Team, Domain/Role, Domain/User, Domain/Comment, Domain/Errors,
--                      Domain/Optional and Domain/Stats are its files, and each function has its
--                      name in snake_case. `TaskPatch.Validate` is `validate` of Domain/Rules.
--   internal/service   the use cases. Service/Interfaces has the interfaces of service.go as records
--                      of operations on a world `W` that every call may change; Service/Exec is a use
--                      case, which changes the world and returns a value or a `*domain.Error`.
--                      Service/Auth, Service/Teams and Service/Tasks have one function per method,
--                      Service/Members the lookups that they share.
--   internal/store     the queries. Store/Schema has the tables of migrations/*.up.sql as lists of
--                      rows, Store/Driver the database with its transactions and its faults, and
--                      Store/Users, Store/Teams, Store/Tasks, Store/Comments and Store/Stats one
--                      function per method, made of one function per SQL statement. Store/Tasks/Valid and
--                      Store/Tasks/Told are the invariants of tasks and of their histories.
--   internal/cache     Cache: the pages of task lists in Redis, by generations. Cache/Keys and Cache/Fresh
--                      are about its keys and about what is stored under them; World/Freshness joins
--                      the cache with the tables.
--   cmd/api/main.go    Start: the process from the configuration to the running server, and its end on
--                      a signal, with Store/Opening for `Open`, `Close` and `Migrate` of store.go.
--                      World: the service over the store and the cache, the requests that
--                      internal/httpapi hands to it, and a run of requests, one after the other.
--   internal/auth      Auth: the hasher and the tokens, over bcrypt and JWT.
--   internal/config    Config: the configuration that is read from the environment.
--   internal/httpapi   Http: Http/Message has the requests and answers of net/http, Http/Params the
--                      parameters of paths and queries (`pathID`, `taskFilterFrom`), Http/Json the
--                      bodies and the answer to an error (`decodeJSON`, `writeError`), Http/Limiter the
--                      buckets of ratelimit.go, Http/Middleware the wrappers of middleware.go and
--                      `rateLimit`, Http/Handlers the thirteen handlers, and Http/Server the routes, the
--                      chain and a run of requests and ticks of the collector.
--
-- Numbers. An `int64` is an integer without bound: ids come from the database, and the only sums are
-- the counters of the database and the version, whose bound as INT UNSIGNED is written out.
-- `ParseInt` and `Atoi` refuse what has not 64 bits. `len` and `count` are a string's bytes and runes.
-- The fuel of `format_digits` is one more than the number, and a number has fewer digits than that.
-- Nothing else needs fuel: every loop is over a list.
--
-- Faults. The database carries a list of what will happen to the driver's calls to come: one works,
-- fails without effect, or has its effect and loses the answer; Redis carries the same for its
-- commands. A fault while the rows of a query are read counts as one of the query.
-- A cancelled context is such a fault. Theorems quantify over these lists, or ask for the empty one.
-- `CreateTeam`, `CreateTask` and `UpdateTask` begin a transaction, and `or_rollback` stands at each call
-- after which the source rolls back; `in_transaction` says whether one is open.
--
-- Outside the program, and so parameters: encoding/json on changes, pages and bodies, the collation that
-- compares emails, bcrypt, JWT, golang.org/x/time/rate, `time.ParseDuration`, `strings.ToLower` and
-- `mail.ParseAddress`, AVG, the order of names and the JSON texts of the report, and, at the start,
-- database/sql, golang-migrate and the client of Redis. The clock of the database stands still over a
-- run of requests; those that reach the HTTP server carry times of their own. Keys of Redis do not
-- expire here.
--
-- Requests are served one after the other: the mutex of the limiter and the isolation of the database
-- make each step of them whole, and no interleaving inside of a request is modelled.
--
-- Not modelled: what net/http does before a handler (the cleaning of a path and its redirects, the
-- parsing of a request), its `Allow` header and the headers of its own texts, the bytes of a JSON
-- answer, and of cmd/api/main.go the logger, the signals, the timeouts and a server that cannot listen.
-- `Error` keeps a message as a format with its arguments. The handlers' answers are values
-- (`Payload`), which `respond` hands to `writeJSON`.
pub mod Prelude
pub mod Domain
pub mod Service
pub mod Store
pub mod Cache
pub mod World
pub mod Auth
pub mod Config
pub mod Http
pub mod Start
pub mod Tests
