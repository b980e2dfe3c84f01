-- ===== src/Start.antt =====
-- cmd/api/main.go: the start of the process, up to the point where it serves, and its end on a signal.
pub mod Checks
use test_api.Prelude.{ℕ, ℤ, String, Bool, true, false, Option, some, Result, ok, err, ◌*◌}
use test_api.Domain.Errors.{Failure}
use test_api.Service.Exec.{Call}
use test_api.Store.Opening.{Connections, Migrations, open_store, migrate as migrate_store, close}
use test_api.Cache.{TaskCache, new_task_cache}
use test_api.Auth.{Tokens, new_tokens}
use test_api.Config.{Config, LoadError, Environment, load}

-- `redis.NewClient`, `Ping` and `Close`; `R` is a `*redis.Client`, which `NewClient` never gives as nil.
pub record RedisClients (W R : Type 0) : Type 0 where
  pub new_client : String → W → R × W
  pub ping : R → W → Result String Unit × W
  pub close : R → W → Result String Unit × W

-- What `main` logs before it ends the process with 1.
pub data StartError : Type 0 where
  config : LoadError → StartError
  migrate : Failure → StartError
  mysql : Failure → StartError

-- What the server runs with; `is_cached` is whether Redis has answered, of which `main` only warns.
pub record Running (H R : Type 0) : Type 0 where
  pub db : H
  pub rdb : R
  pub is_cached : Bool
  pub tokens : Tokens
  pub task_cache : TaskCache
  pub http_addr : String

pub data Outcome (H R : Type 0) : Type 0 where
  exits : StartError → Outcome H R
  serves : Running H R → Outcome H R

abbrev answers : Result String Unit → Bool
answers (ok _) = true
answers (err _) = false

module _ {W H Source Driver Migrator R : Type 0} (c : Connections W H)
    (m : Migrations W H Source Driver Migrator) (redis : RedisClients W R)
    (parse_duration : String → Option ℤ) where
  abbrev pub running : Config → H → R → Result String Unit → Running H R
  running cfg db rdb answer = record {
    db = db;
    rdb = rdb;
    is_cached = answers answer;
    tokens = new_tokens cfg.jwt_secret cfg.jwt_ttl;
    task_cache = new_task_cache (some rdb) cfg.cache_ttl;
    http_addr = cfg.http_addr;
  }

  abbrev pub after_open : Config → Result Failure H → W → Outcome H R × W
  after_open cfg (err e) w = (exits (mysql e), w)
  after_open cfg (ok db) w =
      let (rdb, w₁) = redis.new_client cfg.redis_addr w in
      let (answer, w₂) = redis.ping rdb w₁ in (serves (running cfg db rdb answer), w₂)

  abbrev pub after_migrate : Config → Result Failure Unit → W → Outcome H R × W
  after_migrate cfg (err e) w = (exits (migrate e), w)
  after_migrate cfg (ok _) w = let (r, w') = open_store c cfg.mysql_dsn w in after_open cfg r w'

  -- `if cfg.AutoMigrate { … }`
  abbrev pub migrate_if : Bool → String → Call W Unit
  migrate_if true dsn w = migrate_store c m dsn w
  migrate_if false dsn w = (ok tt, w)

  abbrev pub after_load : Result LoadError Config → W → Outcome H R × W
  after_load (err e) w = (exits (config e), w)
  after_load (ok cfg) w =
      let (r, w') = migrate_if cfg.auto_migrate cfg.mysql_dsn w in after_migrate cfg r w'

  -- `main` up to the server's start. The environment is the one after `godotenv.Load`.
  unfoldable pub start : Environment → W → Outcome H R × W
  unfolding load migrate_store open_store new_task_cache new_tokens
  start e w = after_load (load parse_duration e) w

  -- `main` after the signal: `Shutdown`, then the deferred calls.
  unfoldable pub stop : (W → Result String Unit × W) → Running H R → W → W
  stop shutdown p w =
      let (_, w₁) = shutdown w in let (_, w₂) = redis.close p.rdb w₁ in (close c p.db w₂).1
