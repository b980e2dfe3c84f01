-- ===== src/Auth/Issued.antt =====
-- A token names the user that it was issued to.
use test_api.Prelude.{
  ℤ, pos, String, ◌≡◌, ◌<◌, ◌+◌, ◌≤ℤ◌, ap, ◌∙◌, some, Result, ok, err, IsInt64,
  parse_int-format_int, format_int, arith,
}
use test_api.Domain.Errors.{Failure}
use test_api.Domain.Task.{Time}
use test_api.Auth.{Jwt, Tokens, Claims, issue, parse, user_of, signed}

abbrev dated : Jwt → String → Time → Time → Claims
dated jwt subject issued expires = record {
  subject = subject;
  issued_at = jwt.new_numeric_date issued;
  expires_at = jwt.new_numeric_date expires;
}

-- What is signed with a secret is parsed with it, before the date on which it expires, as claims
-- with the subject that was signed.
pub record IsSound (jwt : Jwt) : Type 0 where
  pub parse-signed :
      (secret token subject : String) (issued expires now : Time)
      → jwt.signed_string secret (dated jwt subject issued expires) ≡ ok token
      → now < jwt.new_numeric_date expires
      → (claims : Claims) × (jwt.parse_with_claims secret token now ≡ some claims)
        × (claims.subject ≡ subject)

signed-token :
    (r : Result Failure String) (exp expires : Time) (token : String)
    → signed r exp ≡ ok (token, expires)
    → (r ≡ ok token) × (exp ≡ expires)
signed-token (err f) exp expires token h = cc
signed-token (ok s) exp expires token h = (cc, cc)

user_of-positive : (id : ℤ) → pos 1 ≤ℤ id → user_of (some id) ≡ some id
user_of-positive id positive = ground arith

-- A token that is issued to a user is read back as that user's, until the date that it carries as
-- its expiry.
pub parse-issue :
    (jwt : Jwt) (t : Tokens) (user_id : ℤ) (issued now expires : Time) (token : String)
    → IsSound jwt
    → pos 1 ≤ℤ user_id
    → IsInt64 user_id
    → issue jwt t user_id issued ≡ ok (token, expires)
    → now < jwt.new_numeric_date expires
    → parse jwt t token now ≡ some user_id
unfolding issue parse
parse-issue jwt t user_id issued now expires token sound positive fits e early =
    let pair = signed-token _ _ _ _ e in
    let early' : now < jwt.new_numeric_date (issued + t.ttl) = rw pair.1 early in
    let (claims, parsed, same) =
      sound.parse-signed t.secret token (format_int user_id) issued (issued + t.ttl) now pair.0
        early' in
    rw (parsed, same)
      (ap user_of (parse_int-format_int user_id fits) ∙ user_of-positive user_id positive)
