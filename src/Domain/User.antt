-- ===== src/Domain/User.antt =====
-- internal/domain/user.go. `Mail` stands for the standard library's Unicode lower case and for the
-- address parser of net/mail.
use test_api.Prelude.{
  ℤ, String, count, len, Bool, not, [], ◌==◌, string_eq, ltb, trim_space, Result, ok, ◌>>◌,
  raise_if,
}
use test_api.Domain.Errors.{Error, invalid}
use test_api.Domain.Task.{Time}
use test_api.Domain.Rules.{Check}

pub record User : Type 0 where
  pub id : ℤ
  pub email : String
  pub name : String
  pub created_at : Time

pub record Credentials : Type 0 where
  pub user : User
  pub password_hash : String

-- `strings.ToLower`, and whether `mail.ParseAddress` accepts.
pub record Mail : Type 0 where
  pub to_lower : String → String
  pub is_address : String → Bool

unfoldable pub normalize_email : Mail → String → Result Error String
normalize_email mail raw = do
  let email = mail.to_lower (trim_space raw)
  raise_if (email == "") (invalid "email must not be empty" [])
  raise_if (not (mail.is_address email)) (invalid "email is not a valid address" [])
  ok email

unfoldable pub normalize_name : String → Result Error String
normalize_name raw = do
  let name = trim_space raw
  raise_if (name == "") (invalid "name must not be empty" [])
  raise_if (ltb 255 (count name)) (invalid "name is too long" [])
  ok name

unfoldable pub validate_password : String → Check
validate_password password = do
  raise_if (ltb (len password) 8) (invalid "password must be at least 8 characters" [])
  raise_if (ltb 72 (len password)) (invalid "password is too long" [])
