-- ===== src/Config.antt =====
-- internal/config/config.go. The environment is a table; `parse_duration` stands for
-- `time.ParseDuration`, in nanoseconds, with `none` for an error.
pub mod Checks
use test_api.Prelude.{
  ℕ, ◌*◌, ℤ, pos, String, len, Bool, true, false, ◌||◌, ◌==◌, string_eq, Option, none, some, ltb,
  leb_ℤ, if◌then◌else◌, Dict, lookup, Result, ok, err, ◌>>=◌, ◌>>◌, raise_if,
}

pub record Config : Type 0 where
  pub http_addr : String
  pub mysql_dsn : String
  pub auto_migrate : Bool
  pub redis_addr : String
  pub cache_ttl : ℤ
  pub jwt_secret : String
  pub jwt_ttl : ℤ

-- What `Load` complains of.
pub data LoadError : Type 0 where
  bad_duration : String → LoadError
  required : String → LoadError
  too_short not_positive : String → LoadError

abbrev pub Environment : Type 0
Environment = Dict String

abbrev value_or : Option String → String → String
value_or none fallback = fallback
value_or (some v) fallback = if v == "" then fallback else v

unfoldable pub env : Environment → String → String → String
unfolding lookup
env e key fallback = value_or (lookup key e) fallback

-- `strconv.ParseBool`
unfoldable pub parse_bool : String → Option Bool
parse_bool s =
    if s == "1" || s == "t" || s == "T" || s == "true" || s == "TRUE" || s == "True"
    then some true
    else if s == "0" || s == "f" || s == "F" || s == "false" || s == "FALSE" || s == "False"
    then some false
    else none

abbrev bool_or : Option Bool → Bool → Bool
bool_or none fallback = fallback
bool_or (some b) fallback = b

abbrev raw_or : Option String → Bool → Bool
raw_or none fallback = fallback
raw_or (some raw) fallback = if raw == "" then fallback else bool_or (parse_bool raw) fallback

unfoldable pub boolean : Environment → String → Bool → Bool
unfolding lookup parse_bool
boolean e key fallback = raw_or (lookup key e) fallback

-- A second, in nanoseconds.
abbrev second : ℕ
second = 1000000000

abbrev parsed : String → Option ℤ → Result LoadError ℤ
parsed key none = err (bad_duration key)
parsed key (some d) = ok d

module _ (parse_duration : String → Option ℤ) where
  -- `if raw := env(key, ""); raw != "" { … }`
  unfoldable pub duration : Environment → String → ℤ → Result LoadError ℤ
  unfolding env
  duration e key fallback =
      let raw = env e key "" in if raw == "" then ok fallback else parsed key (parse_duration raw)

  unfoldable pub load : Environment → Result LoadError Config
  unfolding env boolean duration
  load e = do
    jwt_ttl ← duration e "JWT_TTL" (pos (24 * 3600 * second))
    cache_ttl ← duration e "CACHE_TASK_LIST_TTL" (pos (5 * 60 * second))
    let mysql_dsn = env e "MYSQL_DSN" ""
    let jwt_secret = env e "JWT_SECRET" ""
    raise_if (mysql_dsn == "") (required "MYSQL_DSN")
    raise_if (ltb (len jwt_secret) 32) (too_short "JWT_SECRET")
    raise_if (leb_ℤ jwt_ttl (pos 0)) (not_positive "JWT_TTL")
    raise_if (leb_ℤ cache_ttl (pos 0)) (not_positive "CACHE_TASK_LIST_TTL")
    ok (record {
      http_addr = env e "HTTP_ADDR" ":8080";
      mysql_dsn = mysql_dsn;
      auto_migrate = boolean e "MYSQL_AUTO_MIGRATE" true;
      redis_addr = env e "REDIS_ADDR" "127.0.0.1:6379";
      cache_ttl = cache_ttl;
      jwt_secret = jwt_secret;
      jwt_ttl = jwt_ttl;
    })
