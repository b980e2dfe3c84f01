-- ===== src/Auth.antt =====
-- internal/auth/auth.go. `Bcrypt` and `Jwt` stand for golang.org/x/crypto/bcrypt and
-- github.com/golang-jwt/jwt; what they are trusted for is in Issued.
pub mod Issued
use Prim.Native.Nat.{◌/◌}
use test_api.Prelude.{
  pos_part, ℕ, ℤ, pos, ◌+◌, String, Bool, Option, none, some, Result, ok, err, leb_ℤ, if◌then◌else◌,
  format_int, parse_int,
}
use test_api.Domain.Errors.{Failure, foreign, other}
use test_api.Domain.Task.{Time}

-- Hashing takes a salt from crypto/rand.
pub record Bcrypt : Type 0 where
  pub generate_from_password : ℕ → String → Result Failure String
  pub compare_hash_and_password : String → String → Bool

-- `Hasher`
unfoldable pub hash : Bcrypt → ℕ → String → Result Failure String
hash b salt password = b.generate_from_password salt password

unfoldable pub verify : Bcrypt → String → String → Bool
verify b stored password = b.compare_hash_and_password stored password

-- `jwt.RegisteredClaims`, of which these are set.
pub record Claims : Type 0 where
  pub subject : String
  pub issued_at : Time
  pub expires_at : Time

-- `NewNumericDate`, signing with HS256, and `ParseWithClaims` that takes HS256 alone: the claims at
-- a time, if signature and dates hold.
pub record Jwt : Type 0 where
  pub new_numeric_date : Time → Time
  pub signed_string : String → Claims → Result Failure String
  pub parse_with_claims : String → String → Time → Option Claims

pub record Tokens : Type 0 where
  pub secret : String
  pub ttl : Time

-- `NewTokens`: a duration is in nanoseconds, and an instant in microseconds. `Load` lets only a
-- positive one through.
unfoldable pub new_tokens : String → ℤ → Tokens
new_tokens secret ttl = record { secret = secret; ttl = pos_part ttl / 1000 }

abbrev signed : Result Failure String → Time → Result Failure (String × Time)
signed (err e) exp = err e
signed (ok s) exp = ok (s, exp)

abbrev user_of : Option ℤ → Option ℤ
user_of none = none
user_of (some id) = if leb_ℤ id (pos 0) then none else some id

abbrev subject_of : Option Claims → Option ℤ
subject_of none = none
subject_of (some claims) = user_of (parse_int claims.subject)

module _ (jwt : Jwt) (t : Tokens) where
  unfoldable pub issue : ℤ → Time → Result Failure (String × Time)
  unfolding format_int
  issue user_id now =
      let exp = now + t.ttl in
      signed
        (jwt.signed_string t.secret (record {
          subject = format_int user_id;
          issued_at = jwt.new_numeric_date now;
          expires_at = jwt.new_numeric_date exp;
        }))
        exp

  -- `none` is `ErrInvalidToken`.
  unfoldable pub parse : String → Time → Option ℤ
  unfolding parse_int
  parse token now = subject_of (jwt.parse_with_claims t.secret token now)
