-- ===== src/Config/Checks.antt =====
-- What `Load` lets through.
use test_api.Prelude.{
  ℤ, pos, ◌≡◌, ◌≢◌, ◌≤◌, ◌≤ℤ◌, String, len, Option, Bool, true, false, ◌==◌, string_eq, ltb, leb_ℤ,
  Result, ok, ◌>>◌, >>=-ok, raise_if, arith, subst, refl, eq_iff,
}
use test_api.Config.{
  Config, LoadError, Environment, env, duration, boolean, load, required, too_short, not_positive,
}

-- A configuration that the program can start with.
pub record IsUsable (c : Config) : Type 0 where
  pub mysql_dsn : c.mysql_dsn ≢ ""
  pub jwt_secret : 32 ≤ len c.jwt_secret
  pub jwt_ttl : pos 1 ≤ℤ c.jwt_ttl
  pub cache_ttl : pos 1 ≤ℤ c.cache_ttl

raise_if-ok {ℓ} :
    {E A : Type ℓ} (b : Bool) (e : E) (k : Result E A) (a : A)
    → (raise_if b e >> k) ≡ ok a
    → (b ≡ false) × (k ≡ ok a)
raise_if-ok true e k a h = cc
raise_if-ok false e k a h = (refl, h)

ok-IsUsable :
    (d c : Config)
    → (d.mysql_dsn == "") ≡ false
    → ltb (len d.jwt_secret) 32 ≡ false
    → leb_ℤ d.jwt_ttl (pos 0) ≡ false
    → leb_ℤ d.cache_ttl (pos 0) ≡ false
    → ◌≡◌ {A = Result LoadError Config} (ok d) (ok c)
    → IsUsable c
ok-IsUsable d c h₁ h₂ h₃ h₄ e =
    let same : d ≡ c = cc in
    subst IsUsable same (record {
      mysql_dsn = λ blank. ground (arith, h₁, (eq_iff d.mysql_dsn "").1 blank);
      jwt_secret = ground arith;
      jwt_ttl = ground arith;
      cache_ttl = ground arith;
    })

-- A configuration that is loaded names a database, has a secret of at least 32 bytes, and durations
-- above 0.
pub load-IsUsable :
    (parse_duration : String → Option ℤ) (e : Environment) (c : Config)
    → load parse_duration e ≡ ok c
    → IsUsable c
unfolding load
load-IsUsable parse_duration e c h =
    let (jwt_ttl, e₁, h₁) = >>=-ok (duration parse_duration e "JWT_TTL" _) _ c h in
    let (cache_ttl, e₂, h₂) = >>=-ok (duration parse_duration e "CACHE_TASK_LIST_TTL" _) _ c h₁ in
    let (named, h₃) = raise_if-ok _ (required "MYSQL_DSN") _ c h₂ in
    let (long, h₄) = raise_if-ok _ (too_short "JWT_SECRET") _ c h₃ in
    let (lasting, h₅) = raise_if-ok _ (not_positive "JWT_TTL") _ c h₄ in
    let (kept, h₆) = raise_if-ok _ (not_positive "CACHE_TASK_LIST_TTL") _ c h₅ in
    ok-IsUsable
      (record {
        http_addr = env e "HTTP_ADDR" ":8080";
        mysql_dsn = env e "MYSQL_DSN" "";
        auto_migrate = boolean e "MYSQL_AUTO_MIGRATE" true;
        redis_addr = env e "REDIS_ADDR" "127.0.0.1:6379";
        cache_ttl = cache_ttl;
        jwt_secret = env e "JWT_SECRET" "";
        jwt_ttl = jwt_ttl;
      })
      c named long lasting kept h₆
