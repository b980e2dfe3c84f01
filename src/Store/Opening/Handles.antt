-- ===== src/Store/Opening/Handles.antt =====
-- What `Open` and `Migrate` of internal/store/store.go leave open.
use test_api.Prelude.{String, true, ◌≡◌, refl, ◌∙◌, List, ◌∷◌, Result, ok, err}
use test_api.Domain.Errors.{Failure}
use test_api.Service.Exec.{Call}
use test_api.Store.Opening.{
  DsnConfig, Connections, Migrations, attempt, tried, open_store, after_ping, closing, migrate_on,
  migrate, apply,
}

-- The databases that are open, the latest first: `sql.Open` adds one if it succeeds, `Close` of the
-- latest takes it away, and nothing else changes them.
pub record Laws {W H Source Driver Migrator : Type 0} (c : Connections W H)
    (m : Migrations W H Source Driver Migrator) : Type 0 where
  pub handles : W → List H
  pub open_ok :
      (dsn : String) (w w' : W) (h : H) → c.open_db dsn w ≡ (ok h, w') → handles w' ≡ h ∷ handles w
  pub open_err :
      (dsn : String) (w w' : W) (why : String)
      → c.open_db dsn w ≡ (err why, w')
      → handles w' ≡ handles w
  pub ping : (h : H) (w : W) → handles (c.ping h w).1 ≡ handles w
  pub close :
      (h : H) (w : W) (rest : List H) → handles w ≡ h ∷ rest → handles (c.close h w).1 ≡ rest
  pub new_source : (w : W) → handles (m.new_source w).1 ≡ handles w
  pub with_instance : (h : H) (w : W) → handles (m.with_instance h w).1 ≡ handles w
  pub new_with_instance :
      (s : Source) (d : Driver) (w : W) → handles (m.new_with_instance s d w).1 ≡ handles w
  pub up : (x : Migrator) (w : W) → handles (m.up x w).1 ≡ handles w

module _ {W H Source Driver Migrator : Type 0} (c : Connections W H)
    (m : Migrations W H Source Driver Migrator) (l : Laws c m) where
  -- A call that leaves open what was open.
  record Same {A : Type 0} (k : Call W A) : Type 0 where
    at : (w : W) → l.handles (k w).1 ≡ l.handles w

  tried-Same :
      {A B : Type 0} (op : String) (r : Result String A) (k : A → Call W B) (w : W)
      → ((a : A) → Same (k a))
      → l.handles (tried op r k w).1 ≡ l.handles w
  tried-Same op (ok a) k w h = (h a).at w
  tried-Same op (err why) k w h = refl

  attempt-Same :
      {A B : Type 0} (op : String) (call : W → Result String A × W) (k : A → Call W B)
      → ((w : W) → l.handles (call w).1 ≡ l.handles w)
      → ((a : A) → Same (k a))
      → Same (attempt op call k)
  attempt-Same op call k h g = record { at = λ w. tried-Same op (call w).0 k (call w).1 g ∙ h w }

  apply-Same : (x : Migrator) → Same (apply c m x)
  apply-Same x = record { at = l.up x }

  migrate_on-Same : (db : H) → Same (migrate_on c m db)
  unfolding migrate_on
  migrate_on-Same db = attempt-Same _ (c.ping db) _ (l.ping db) λ _.
      attempt-Same _ m.new_source _ l.new_source λ source.
        attempt-Same _ (m.with_instance db) _ (l.with_instance db) λ driver.
          attempt-Same _ (m.new_with_instance source driver) _ (l.new_with_instance source driver)
            apply-Same

  -- A call on a database that was opened just before it, and is closed after it.
  closing-closed :
      {A : Type 0} (db : H) (k : Call W A) (w : W) (rest : List H)
      → Same k
      → l.handles w ≡ db ∷ rest
      → l.handles (closing c db k w).1 ≡ rest
  closing-closed db k w rest h e = l.close db (k w).1 rest (h.at w ∙ e)

  migrated :
      (op dsn : String) (w : W) (r : Result String H × W)
      → c.open_db dsn w ≡ r
      → l.handles (tried op r.0 (λ db. closing c db (migrate_on c m db)) r.1).1 ≡ l.handles w
  migrated op dsn w (ok db, w') e =
      closing-closed db (migrate_on c m db) w' (l.handles w) (migrate_on-Same db)
        (l.open_ok dsn w w' db e)
  migrated op dsn w (err why, w') e = l.open_err dsn w w' why e

  parsed-same :
      (r : Result String DsnConfig) (k : DsnConfig → Call W Unit) (w : W)
      → ((cfg : DsnConfig) → l.handles (k cfg w).1 ≡ l.handles w)
      → l.handles (tried "parse MYSQL_DSN" r k w).1 ≡ l.handles w
  parsed-same (ok cfg) k w h = h cfg
  parsed-same (err why) k w h = refl

  pub migrate-same : (dsn : String) (w : W) → l.handles (migrate c m dsn w).1 ≡ l.handles w
  unfolding migrate
  migrate-same dsn w = parsed-same (c.parse_dsn dsn) _ w λ cfg.
      migrated "open mysql for migrations"
        (c.format_dsn (record cfg { parse_time = true; multi_statements = true })) w _ refl

  -- What is open after `Open`: one more on success.
  abbrev pub OpenAfter : Result Failure H → List H → W → Type 0
  OpenAfter (ok db) before w = l.handles w ≡ db ∷ before
  OpenAfter (err e) before w = l.handles w ≡ before

  pinged :
      (db : H) (r : Result String Unit) (before : List H) (w : W)
      → l.handles w ≡ db ∷ before
      → OpenAfter (after_ping c db r w).0 before (after_ping c db r w).1
  pinged db (ok u) before w e = e
  pinged db (err why) before w e = l.close db w before e

  opened :
      (op dsn : String) (w : W) (r : Result String H × W)
      → c.open_db dsn w ≡ r
      → let (s, w') = tried op r.0 (λ db w. after_ping c db (c.ping db w).0 (c.ping db w).1) r.1 in
        OpenAfter s (l.handles w) w'
  opened op dsn w (ok db, w') e =
      pinged db (c.ping db w').0 (l.handles w) (c.ping db w').1
        (l.ping db w' ∙ l.open_ok dsn w w' db e)
  opened op dsn w (err why, w') e = l.open_err dsn w w' why e

  parsed :
      (r : Result String DsnConfig) (k : DsnConfig → Call W H) (w : W)
      → ((cfg : DsnConfig) → OpenAfter (k cfg w).0 (l.handles w) (k cfg w).1)
      → let (s, w') = tried "parse MYSQL_DSN" r k w in OpenAfter s (l.handles w) w'
  parsed (ok cfg) k w h = h cfg
  parsed (err why) k w h = refl

  pub open_store-OpenAfter :
      (dsn : String) (w : W) → OpenAfter (open_store c dsn w).0 (l.handles w) (open_store c dsn w).1
  unfolding open_store
  open_store-OpenAfter dsn w = parsed (c.parse_dsn dsn) _ w λ cfg.
      opened "open mysql" (c.format_dsn (record cfg { parse_time = true; is_utc = true })) w _ refl
