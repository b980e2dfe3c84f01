-- ===== src/Service/Auth.antt =====
-- internal/service/auth.go
pub mod Refusal
use test_api.Prelude.{String, not, [], if◌then◌else◌, raise_if}
use test_api.Domain.Errors.{is, err_already_exists, err_not_found, conflict, internal, unauthorized}
use test_api.Domain.Task.{Time}
use test_api.Domain.User.{User, normalize_email, normalize_name, validate_password}
use test_api.Service.Exec.{Exec, pure, lift, call, replace_error, ◌>>=◌, ◌>>◌}
use test_api.Service.Interfaces.{Service}

pub record Session : Type 0 where
  pub token : String
  pub expires_at : Time
  pub user : User

module _ {W : Type 0} (s : Service W) where
  unfoldable pub register : String → String → String → Exec W User
  unfolding is
  register raw_email raw_name password = do
    email ← lift (normalize_email s.mail raw_email)
    name ← lift (normalize_name raw_name)
    lift (validate_password password)
    hash ← call (s.hasher.hash password) λ e. internal e "hash password" []
    user ← call (s.db.create_user email name hash) λ e.
        if is e err_already_exists
        then conflict "a user with this email already exists" []
        else internal e "create user" []
    pure user

  unfoldable pub login : String → String → Exec W Session
  unfolding is
  login raw_email password = do
    let refused = unauthorized "invalid email or password" []
    email ← replace_error refused (lift (normalize_email s.mail raw_email))
    creds ←
        call (s.db.credentials_by_email email)
          λ e. if is e err_not_found then refused else internal e "load credentials" []
    lift (raise_if (not (s.hasher.verify creds.password_hash password)) refused)
    issued ← call (s.tokens.issue creds.user.id) λ e. internal e "issue token" []
    pure (record { token = issued.0; expires_at = issued.1; user = creds.user })
