-- ===== src/Service/Auth/Refusal.antt =====
-- A refused login does not tell why.
use test_api.Prelude.{String, ◌≡◌, true, false, [], ok, err, arith}
use test_api.Domain.Errors.{Error, Failure, is, err_not_found, unauthorized}
use test_api.Domain.User.{Credentials, normalize_email}
use test_api.Service.Interfaces.{Service}
use test_api.Service.Auth.{login}

-- Why a login is refused: the address has no normal form, nobody has registered with it, or the
-- password is another.
pub data IsRefused {W : Type 0} (s : Service W) (email password : String) (w : W) : Type 0 where
  malformed : (e : Error) → normalize_email s.mail email ≡ err e → IsRefused s email password w
  unknown :
      (address : String) (e : Failure) (w' : W)
      → normalize_email s.mail email ≡ ok address
      → s.db.credentials_by_email address w ≡ (err e, w')
      → is e err_not_found ≡ true
      → IsRefused s email password w
  wrong_password :
      (address : String) (creds : Credentials) (w' : W)
      → normalize_email s.mail email ≡ ok address
      → s.db.credentials_by_email address w ≡ (ok creds, w')
      → s.hasher.verify creds.password_hash password ≡ false
      → IsRefused s email password w

-- A malformed address, one that nobody has registered with and a wrong password are answered by the
-- same error.
pub login_refused :
    {W : Type 0} (s : Service W) (email password : String) (w : W)
    → IsRefused s email password w
    → (login s email password w).0 ≡ err (unauthorized "invalid email or password" [])
unfolding login
login_refused s email password w (malformed e p) = rw p
login_refused s email password w (unknown address e w' p q r) = ground arith
login_refused s email password w (wrong_password address creds w' p q r) = ground arith
