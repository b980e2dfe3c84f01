-- ===== src/Store/Users.antt =====
-- internal/store/user.go. `same_text` is the comparison of the column's collation,
-- utf8mb4_0900_ai_ci, which is the server's.
use test_api.Prelude.{
  ℤ, pos, suc, String, count, Bool, ◌||◌, ◌==◌, int_eq, [], ◌∷◌, ◌++◌, ltb, if◌then◌else◌, any,
  find, ok, err,
}
use test_api.Domain.Errors.{mysql}
use test_api.Domain.User.{User, Credentials}
use test_api.Store.Schema.{UserRow}
use test_api.Store.Driver.{
  found, Statement, Method, query, classify, no_rows_error, ◌>>=◌, pure, run,
}

abbrev pub row_user : UserRow → User
row_user u = record { id = u.id; email = u.email; name = u.name; created_at = u.created_at }

abbrev pub row_credentials : UserRow → Credentials
row_credentials u = record { user = row_user u; password_hash = u.password_hash }

-- `SELECT … FROM users WHERE id = ?`
abbrev pub select_user : ℤ → Statement UserRow
select_user id d = found (find (λ u. u.id == id) d.tables.users) d

unfoldable pub user_by_id : ℤ → Method User
unfolding run find no_rows_error
user_by_id id = do u ← query (select_user id) no_rows_error "select user"; pure (row_user u)

module _ (same_text : String → String → Bool) where
  -- `SELECT … FROM users WHERE email = ?`
  abbrev pub select_user_by_email : String → Statement UserRow
  select_user_by_email email d = found (find (λ u. same_text u.email email) d.tables.users) d

  -- `INSERT INTO users`, with its last insert id: a value that is too long is refused, and so is
  -- a second row with the same email (`uq_users_email`).
  unfoldable pub insert_user : String → String → String → Statement ℤ
  unfolding any
  insert_user email hash name d =
      let id = pos d.next.users in
      let d' = record d { next = record d.next { users = suc d.next.users } } in
      if ltb 255 (count email) || ltb 60 (count hash) || ltb 255 (count name)
      then (err (mysql 1406), d)
      else if any (λ u. same_text u.email email) d.tables.users
      then (err (mysql 1062), d')
      else (
        ok id,
        record d' {
          tables = record d.tables {
            users =
                d.tables.users
                ++ record {
                  id = id;
                  email = email;
                  password_hash = hash;
                  name = name;
                  created_at = d.clock;
                }
                  ∷ [];
          };
        },
      )

  unfoldable pub create_user : String → String → String → Method User
  unfolding run insert_user classify user_by_id
  create_user email name hash = do
    id ← query (insert_user email hash name) classify "insert user"
    user_by_id id

  unfoldable pub user_by_email : String → Method User
  unfolding run find no_rows_error
  user_by_email email = do
    u ← query (select_user_by_email email) no_rows_error "select user by email"
    pure (row_user u)

  unfoldable pub credentials_by_email : String → Method Credentials
  unfolding run find no_rows_error
  credentials_by_email email = do
    u ← query (select_user_by_email email) no_rows_error "select credentials"
    pure (row_credentials u)
