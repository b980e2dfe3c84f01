-- ===== src/Start/Checks.antt =====
-- What the program of cmd/api/main.go starts with, and what it leaves open.
use test_api.Prelude.{
  ℤ, String, len, ◌≡◌, ◌≤◌, refl, ◌∙◌, Bool, true, false, Option, List, ◌∷◌, Result, ok, err, arith,
}
use test_api.Domain.Errors.{Failure}
use test_api.Store.Opening.{Connections, Migrations, open_store}
use test_api.Store.Opening.Handles.{Laws, migrate-same, open_store-OpenAfter, OpenAfter}
use test_api.Cache.{new_task_cache}
use test_api.Auth.{new_tokens}
use test_api.Config.{Config, LoadError, Environment, load}
use test_api.Config.Checks.{IsUsable, load-IsUsable}
use test_api.Start.{
  RedisClients, Running, Outcome, exits, serves, after_open, after_migrate, migrate_if, after_load,
  start, stop,
}

module _ {W H Source Driver Migrator R : Type 0} (c : Connections W H)
    (m : Migrations W H Source Driver Migrator) (redis : RedisClients W R)
    (shutdown : W → Result String Unit × W) (l : Laws c m) where
  -- Redis and the server open and close no database.
  pub record Elsewhere : Type 0 where
    pub new_client : (addr : String) (w : W) → l.handles (redis.new_client addr w).1 ≡ l.handles w
    pub ping : (r : R) (w : W) → l.handles (redis.ping r w).1 ≡ l.handles w
    pub close : (r : R) (w : W) → l.handles (redis.close r w).1 ≡ l.handles w
    pub ending : (w : W) → l.handles (shutdown w).1 ≡ l.handles w

  -- Either nothing is left open, or the server runs with a cache that is in use, a secret that is long
  -- enough, and one more open database, which its end closes.
  abbrev pub IsStarted : (String → Option ℤ) → Outcome H R → List H → W → Type 0
  IsStarted parse_duration (exits e) before w = l.handles w ≡ before
  IsStarted parse_duration (serves p) before w =
      (l.handles w ≡ p.db ∷ before)
      × (p.task_cache.enabled ≡ true)
      × (32 ≤ len p.tokens.secret)
      × (l.handles (stop c m redis parse_duration shutdown p w) ≡ before)

  module _ (parse_duration : String → Option ℤ) (elsewhere : Elsewhere) where
    stop-handles :
        (p : Running H R) (w : W) (before : List H)
        → l.handles w ≡ p.db ∷ before
        → l.handles (stop c m redis parse_duration shutdown p w) ≡ before
    unfolding stop
    stop-handles p w before e =
        l.close p.db _ before (elsewhere.close p.rdb _ ∙ elsewhere.ending w ∙ e)

    opened-IsStarted :
        (cfg : Config) (r : Result Failure H) (w : W) (before : List H)
        → IsUsable cfg
        → OpenAfter c m l r before w
        → let (s, w') = after_open c m redis parse_duration cfg r w in
          IsStarted parse_duration s before w'
    unfolding new_task_cache new_tokens
    opened-IsStarted cfg (err e) w before usable same = same
    opened-IsStarted cfg (ok db) w before usable one_more =
        let after = elsewhere.ping _ _ ∙ elsewhere.new_client cfg.redis_addr w ∙ one_more in
        (after, ground (arith, usable.cache_ttl), usable.jwt_secret, stop-handles _ _ before after)

    migrated-IsStarted :
        (cfg : Config) (r : Result Failure Unit) (w : W) (before : List H)
        → IsUsable cfg
        → l.handles w ≡ before
        → let (s, w') = after_migrate c m redis parse_duration cfg r w in
          IsStarted parse_duration s before w'
    migrated-IsStarted cfg (err e) w before usable same = same
    migrated-IsStarted cfg (ok u) w before usable same =
        let (r, w') = open_store c cfg.mysql_dsn w in
        opened-IsStarted cfg r w' before usable
          (rw⁻¹ same (open_store-OpenAfter c m l cfg.mysql_dsn w))

    migrate_if-same :
        (asked : Bool) (dsn : String) (w : W)
        → l.handles (migrate_if c m redis parse_duration asked dsn w).1 ≡ l.handles w
    migrate_if-same true dsn w = migrate-same c m l dsn w
    migrate_if-same false dsn w = refl

    loaded-IsStarted :
        (e : Environment) (r : Result LoadError Config) (w : W)
        → load parse_duration e ≡ r
        → let (s, w') = after_load c m redis parse_duration r w in
          IsStarted parse_duration s (l.handles w) w'
    loaded-IsStarted e (err x) w loaded = refl
    loaded-IsStarted e (ok cfg) w loaded =
        let (r, w') = migrate_if c m redis parse_duration cfg.auto_migrate cfg.mysql_dsn w in
        migrated-IsStarted cfg r w' (l.handles w) (load-IsUsable parse_duration e cfg loaded)
          (migrate_if-same cfg.auto_migrate cfg.mysql_dsn w)

    -- Where `sql.Open` and `Close` alone change which databases are open: whatever the environment is,
    -- and whatever fails, `main` either exits with nothing left open that was not open before, or
    -- serves with a cache that is in use and a secret of at least 32 bytes, on one more open database,
    -- and leaves nothing open when it ends.
    pub start-IsStarted :
        (e : Environment) (w : W)
        → let (s, w') = start c m redis parse_duration e w in
          IsStarted parse_duration s (l.handles w) w'
    unfolding start
    start-IsStarted e w = loaded-IsStarted e (load parse_duration e) w refl
