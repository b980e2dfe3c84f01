-- ===== src/Http/Server/Sessions.antt =====
-- From a login to the requests under its token.
use test_api.Prelude.{pos, String, ◌≡◌, ◌<◌, ◌≤ℤ◌, refl, subst, some, Result, ok, err, IsInt64}
use test_api.Auth.{issue, parse}
use test_api.Auth.Issued.{IsSound, parse-issue}
use test_api.Cache.{TaskCache}
use test_api.Domain.Errors.{Error, Failure}
use test_api.Domain.Task.{Time}
use test_api.Domain.User.{User}
use test_api.Http.Message.{HttpRequest, Writer, Context, header_value}
use test_api.Http.Middleware.{Handler, authenticate, bearer_token}
use test_api.Service.Auth.{Session, login}
use test_api.Service.Exec.{Exec, continue, ◌>>=◌, pure, call, or_error}
use test_api.World.{World, Outside, service}

-- A predicate on the value, if there is no error.
abbrev OnOk : {A : Type 0} → (A → Type 0) → Result Error A → Type 0
OnOk P (ok a) = P a
OnOk P (err e) = Unit

record Gives {W A : Type 0} (P : A → Type 0) (m : Exec W A) : Type 0 where
  at : (w : W) → OnOk P (m w).0

Gives-bind :
    {W A B : Type 0} (P : B → Type 0) (m : Exec W A) (f : A → Exec W B)
    → ((a : A) → Gives P (f a))
    → Gives P (m >>= f)
Gives-bind {W} {A} {B} P m f h = record { at = λ w. continued (m w).0 (m w).1 }
  where
    continued : (r : Result Error A) (v : W) → OnOk P (continue r f v).0
    continued (ok a) v = (h a).at v
    continued (err e) v = tt

module _ (o : Outside) (c : TaskCache) where
  -- The token of a session has been issued to its user.
  abbrev IsIssued : Session → Type 0
  IsIssued session =
      (issued : Time) × (issue o.jwt o.tokens session.user.id issued
        ≡ ok (session.token, session.expires_at))

  session-IsIssued :
      (user : User) (e : Failure → Error)
      → Gives {W = World} IsIssued (
          call (λ (w : World). (issue o.jwt o.tokens user.id w.db.clock, w)) e >>= λ issued.
          pure (record { token = issued.0; expires_at = issued.1; user = user }))
  session-IsIssued user e = record { at = λ w. of_answer w w.db.clock _ refl }
    where
      of_answer :
          (w : World) (now : Time) (r : Result Failure (String × Time))
          → issue o.jwt o.tokens user.id now ≡ r
          → OnOk IsIssued
              (continue
                (or_error r e)
                (λ issued. pure (record { token = issued.0; expires_at = issued.1; user = user }))
                w).0
      of_answer w now (ok (token, expires)) h = (now, h)
      of_answer w now (err f) h = tt

  login-Gives : (email password : String) → Gives IsIssued (login (service o c) email password)
  unfolding login
  login-Gives email password = search (Gives-bind, session-IsIssued) depth 8

  -- Whoever logs in gets a token under which every request is handled as this user's, until the
  -- date that the token carries as its expiry.
  pub login-authenticate :
      (email password : String) (w w' : World) (session : Session)
      → IsSound o.jwt
      → login (service o c) email password w ≡ (ok session, w')
      → pos 1 ≤ℤ session.user.id
      → IsInt64 session.user.id
      → {S : Type 0} (next : Handler S) (ctx : Context) (r : HttpRequest) (out : Writer) (s : S)
        (now : Time)
      → bearer_token (header_value r "Authorization") ≡ some session.token
      → now < o.jwt.new_numeric_date session.expires_at
      → authenticate (λ token. parse o.jwt o.tokens token now) next ctx r out s
        ≡ next (record ctx { user_id = some session.user.id }) r out s
  unfolding authenticate
  login-authenticate email password w w' session sound e positive fits next ctx r out s now sent
        early =
      let (issued, by) =
        subst (λ (t : Result Error Session × World). OnOk IsIssued t.0) e
          ((login-Gives email password).at w) in
      rw
        (
          sent,
          parse-issue o.jwt o.tokens session.user.id issued now session.expires_at session.token
              sound positive fits by early,
        )
        refl
