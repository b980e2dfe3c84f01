-- ===== src/Domain/Errors.antt =====
-- internal/domain/errors.go: the error values of the program.
use test_api.Prelude.{ℕ, ℤ, String, Bool, true, false, Option, none, some, List}

-- `Code`; the constants are the only values that the program makes.
pub data Code : Type 0 where
  code_validation code_unauthorized code_forbidden code_not_found : Code
  code_conflict code_rate_limited code_internal : Code

-- The four sentinel errors that the store reports.
pub data Sentinel : Type 0 where
  err_not_found err_already_exists err_unknown_id err_version_conflict : Sentinel

-- An error of another package, as far as the program tells these apart: `sql.ErrNoRows`, a
-- `*mysql.MySQLError` with its number, or any other.
pub data Foreign : Type 0 where
  no_rows : Foreign
  mysql : ℕ → Foreign
  other : String → Foreign

-- An `error` of the store: a sentinel, one of another package, or one wrapped by
-- `fmt.Errorf("%s: %w", op, err)`.
pub data Failure : Type 0 where
  sentinel : Sentinel → Failure
  foreign : Foreign → Failure
  wrap : String → Failure → Failure

abbrev pub same_sentinel : Sentinel → Sentinel → Bool
same_sentinel err_not_found err_not_found = true
same_sentinel err_already_exists err_already_exists = true
same_sentinel err_unknown_id err_unknown_id = true
same_sentinel err_version_conflict err_version_conflict = true
same_sentinel _ _ = false

-- `errors.Is(err, s)`
unfoldable pub is : Failure → Sentinel → Bool
is (sentinel t) s = same_sentinel t s
is (foreign _) s = false
is (wrap _ e) s = is e s

-- An argument of a format, and a message as its format and arguments, before `fmt.Sprintf`.
pub data Arg : Type 0 where
  int : ℤ → Arg
  text : String → Arg

pub record Message : Type 0 where
  pub format : String
  pub args : List Arg

pub record Error : Type 0 where
  pub code : Code
  pub message : Message
  pub cause : Option Failure

abbrev pub coded : Code → String → List Arg → Error
coded c f args = record { code = c; message = record { format = f; args = args }; cause = none }

abbrev pub invalid : String → List Arg → Error
invalid = coded code_validation

abbrev pub unauthorized : String → List Arg → Error
unauthorized = coded code_unauthorized

abbrev pub forbidden : String → List Arg → Error
forbidden = coded code_forbidden

abbrev pub not_found : String → List Arg → Error
not_found = coded code_not_found

abbrev pub conflict : String → List Arg → Error
conflict = coded code_conflict

abbrev pub rate_limited : String → List Arg → Error
rate_limited = coded code_rate_limited

abbrev pub internal : Failure → String → List Arg → Error
internal e f args = record {
  code = code_internal;
  message = record { format = f; args = args };
  cause = some e;
}
