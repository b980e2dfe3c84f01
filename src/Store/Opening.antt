-- ===== src/Store/Opening.antt =====
-- internal/store/store.go: `Open`, `Close` and `Migrate`. database/sql with the driver of MySQL, and
-- golang-migrate with its sources and drivers, are parameters; `W` is the process and what it reaches.
pub mod Handles
use test_api.Prelude.{String, Bool, true, Result, ok, err}
use test_api.Domain.Errors.{Failure, foreign, wrap, other}
use test_api.Service.Exec.{Call}

-- What the code sets of `mysql.Config`, and the rest of it as a text.
pub record DsnConfig : Type 0 where
  pub parse_time : Bool
  pub is_utc : Bool
  pub multi_statements : Bool
  pub rest : String

-- `mysql.ParseDSN`, `FormatDSN`, `sql.Open`, `PingContext` and `Close`; `H` is a `*sql.DB`.
pub record Connections (W H : Type 0) : Type 0 where
  pub parse_dsn : String → Result String DsnConfig
  pub format_dsn : DsnConfig → String
  pub open_db : String → W → Result String H × W
  pub ping : H → W → Result String Unit × W
  pub close : H → W → Result String Unit × W

-- What `Up` reports: `migrate.ErrNoChange`, or anything else.
pub data UpError : Type 0 where
  no_change : UpError
  failed : String → UpError

-- `iofs.New` on the embedded files, `migratemysql.WithInstance`, `migrate.NewWithInstance` and `Up`,
-- with the values that they hand on.
pub record Migrations (W H Source Driver Migrator : Type 0) : Type 0 where
  pub new_source : W → Result String Source × W
  pub with_instance : H → W → Result String Driver × W
  pub new_with_instance : Source → Driver → W → Result String Migrator × W
  pub up : Migrator → W → Result UpError Unit × W

-- `fmt.Errorf("…: %w", err)` on an error of another package.
abbrev pub because : String → String → Failure
because op why = wrap op (foreign (other why))

module _ {W A B : Type 0} where
  abbrev pub tried : String → Result String A → (A → Call W B) → Call W B
  tried op (ok a) k w = k a w
  tried op (err why) k w = (err (because op why), w)

  -- `a, err := …; if err != nil { return fmt.Errorf("op: %w", err) }`, and what follows.
  abbrev pub attempt : String → (W → Result String A × W) → (A → Call W B) → Call W B
  attempt op m k w = let (r, w') = m w in tried op r k w'

abbrev pub known : {W A : Type 0} → Result String A → W → Result String A × W
known r w = (r, w)

module _ {W H : Type 0} (c : Connections W H) where
  abbrev pub after_ping : H → Result String Unit → Call W H
  after_ping db (ok _) w = (ok db, w)
  after_ping db (err why) w = (err (because "ping mysql" why), (c.close db w).1)

  -- A database that does not answer is closed again.
  abbrev pub ping_or_close : H → Call W H
  ping_or_close db w = let (r, w') = c.ping db w in after_ping db r w'

  -- `Open`
  unfoldable pub open_store : String → Call W H
  open_store dsn = attempt "parse MYSQL_DSN" (known (c.parse_dsn dsn)) λ cfg.
      attempt "open mysql"
        (c.open_db (c.format_dsn (record cfg { parse_time = true; is_utc = true }))) ping_or_close

  -- `Close`
  abbrev pub close : H → W → Result String Unit × W
  close = c.close

  -- `defer db.Close()`
  abbrev pub closing : {A : Type 0} → H → Call W A → Call W A
  closing db m w = let (r, w') = m w in (r, (c.close db w').1)

  module _ {Source Driver Migrator : Type 0} (m : Migrations W H Source Driver Migrator) where
    -- `err != nil && !errors.Is(err, migrate.ErrNoChange)`
    abbrev pub applied : Result UpError Unit → Result Failure Unit
    applied (ok u) = ok u
    applied (err no_change) = ok tt
    applied (err (failed why)) = err (because "apply migrations" why)

    abbrev pub apply : Migrator → Call W Unit
    apply migrator w = let (r, w') = m.up migrator w in (applied r, w')

    -- `Migrate` from `PingContext` on.
    unfoldable pub migrate_on : H → Call W Unit
    migrate_on db = attempt "ping mysql for migrations" (c.ping db) λ _.
        attempt "read migrations" m.new_source λ source.
          attempt "migration driver" (m.with_instance db)
            λ driver. attempt "migrator" (m.new_with_instance source driver) apply

    -- `Migrate`
    unfoldable pub migrate : String → Call W Unit
    unfolding migrate_on
    migrate dsn = attempt "parse MYSQL_DSN" (known (c.parse_dsn dsn)) λ cfg.
        attempt "open mysql for migrations"
          (c.open_db (c.format_dsn (record cfg { parse_time = true; multi_statements = true })))
          λ db. closing db (migrate_on db)
