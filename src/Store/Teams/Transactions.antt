-- ===== src/Store/Teams/Transactions.antt =====
-- `CreateTeam` of internal/store/team.go as one body in a transaction.
use test_api.Prelude.{ℤ, ◌≡◌, refl, String}
use mathlib.Core.Path.{fun_ext}
use test_api.Domain.Role.{role_owner}
use test_api.Domain.Team.{Team}
use test_api.Store.Driver.{Method, query, classify, no_rows_error, ◌>>=◌, ◌>>◌, pure}
use test_api.Store.Driver.Transactions.{transaction, or_rollback-closing, begin-transaction}
use test_api.Store.Teams.{insert_team, insert_member, select_team, row_team, create_team}

-- The statements of `CreateTeam` from each one on.
abbrev pub read_team : ℤ → Method Team
read_team id =
    query (select_team id) no_rows_error "select team" >>= λ t. pure (row_team role_owner t)

abbrev pub add_founder : ℤ → ℤ → Method Team
add_founder created_by id =
    query (insert_member id created_by role_owner) classify "insert team owner" >> read_team id

abbrev pub founding : String → ℤ → Method Team
founding name created_by =
    query (insert_team name created_by) classify "insert team" >>= add_founder created_by

pub create_team-transaction :
    (name : String) (created_by : ℤ)
    → create_team name created_by ≡ transaction (founding name created_by)
unfolding create_team
create_team-transaction name created_by = fun_ext (
    begin-transaction _ (founding name created_by) λ tx.
      or_rollback-closing tx (query (insert_team name created_by) classify "insert team") _ _ λ id.
        or_rollback-closing tx
          (query (insert_member id created_by role_owner) classify "insert team owner") _ _
          λ _.
            or_rollback-closing tx (query (select_team id) no_rows_error "select team") _
              (λ t. pure (row_team role_owner t)) λ _ d. refl)
