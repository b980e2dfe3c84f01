-- ===== src/Store/Teams.antt =====
-- internal/store/team.go
pub mod Owners
pub mod Founding
pub mod Lookup
pub mod Transactions
pub mod Untouched
use test_api.Prelude.{
  ℕ, ℤ, pos, suc, String, count, not, ◌||◌, ◌&&◌, ◌==◌, int_eq, string_eq, nat_eq, Option, some,
  none, List, [], ◌∷◌, ◌++◌, ltb, if◌then◌else◌, any, find, order_asc, ok, err,
}
use test_api.Domain.Errors.{mysql}
use test_api.Domain.Role.{Role, role_owner, valid}
use test_api.Domain.Team.{Team, TeamMember}
use test_api.Store.Schema.{
  in_role_column, Tables, TeamRow, MemberRow, UserRow, has_user, has_team, is_member,
}
use test_api.Store.Driver.{
  found, Statement, Method, query, plain, classify, no_rows_error, begin, or_rollback, commit,
  ◌>>=◌, ◌>>◌, pure, run,
}

-- `INSERT INTO teams`, with its last insert id.
unfoldable pub insert_team : String → ℤ → Statement ℤ
unfolding any
insert_team name created_by d =
    let id = pos d.next.teams in
    let d' = record d { next = record d.next { teams = suc d.next.teams } } in
    if ltb 255 (count name)
    then (err (mysql 1406), d)
    else if not (has_user d.tables created_by)
    then (err (mysql 1452), d')
    else (
      ok id,
      record d' {
        tables = record d.tables {
          teams =
              d.tables.teams
              ++ record { id = id; name = name; created_by = created_by; created_at = d.clock }
                ∷ [];
        };
      },
    )

-- `INSERT INTO team_members`: the role must be one of the column's, the pair of team and user new
-- (the primary key), and both must exist.
unfoldable pub insert_member : ℤ → ℤ → Role → Statement Unit
unfolding any
insert_member team_id user_id role d =
    if not (in_role_column role)
    then (err (mysql 1265), d)
    else if any (is_member team_id user_id) d.tables.team_members
    then (err (mysql 1062), d)
    else if not (has_team d.tables team_id) || not (has_user d.tables user_id)
    then (err (mysql 1452), d)
    else (
      ok tt,
      record d {
        tables = record d.tables {
          team_members =
              d.tables.team_members
              ++ record { team_id = team_id; user_id = user_id; role = role } ∷ [];
        };
      },
    )

abbrev pub row_team : Role → TeamRow → Team
row_team role t = record {
  id = t.id;
  name = t.name;
  created_by = t.created_by;
  created_at = t.created_at;
  role = role;
}

-- `SELECT … FROM teams WHERE id = ?`; the role is still empty.
abbrev pub select_team : ℤ → Statement TeamRow
select_team id d = found (find (λ t. t.id == id) d.tables.teams) d

unfoldable pub create_team : String → ℤ → Method Team
unfolding begin insert_team insert_member find classify no_rows_error
create_team name created_by = do
  tx ← begin
  id ← or_rollback tx (query (insert_team name created_by) classify "insert team")
  or_rollback tx (query (insert_member id created_by role_owner) classify "insert team owner")
  t ← or_rollback tx (query (select_team id) no_rows_error "select team")
  commit tx
  pure (row_team role_owner t)

unfoldable pub add_member : ℤ → ℤ → Role → Method Unit
unfolding run insert_member classify
add_member team_id user_id role =
    query (insert_member team_id user_id role) classify "insert team member"

-- The rows after `SET role = ?`.
unfoldable pub set_role : ℤ → ℤ → Role → List MemberRow → List MemberRow
set_role team_id user_id role [] = []
set_role team_id user_id role (m ∷ ms) =
    (if is_member team_id user_id m then record m { role = role } else m)
    ∷ set_role team_id user_id role ms

-- `RowsAffected` counts the rows that the update has changed.
unfoldable pub changed_roles : ℤ → ℤ → Role → List MemberRow → ℕ
changed_roles team_id user_id role [] = 0
changed_roles team_id user_id role (m ∷ ms) =
    let rest = changed_roles team_id user_id role ms in
    if is_member team_id user_id m then (if m.role == role then rest else suc rest) else rest

-- `UPDATE team_members SET role = ? WHERE team_id = ? AND user_id = ?`, with the rows affected.
unfoldable pub update_role : ℤ → ℤ → Role → Statement ℕ
unfolding any set_role changed_roles
update_role team_id user_id role d =
    let ms = d.tables.team_members in
    if not (in_role_column role) && any (is_member team_id user_id) ms
    then (err (mysql 1265), d)
    else (
      ok (changed_roles team_id user_id role ms),
      record d { tables = record d.tables { team_members = set_role team_id user_id role ms } },
    )

-- The row of `team_members` and that of its user, joined.
abbrev pub join_user : Tables → MemberRow → Option UserRow → Option TeamMember
join_user t m none = none
join_user t m (some u) = some (record {
  team_id = m.team_id;
  user_id = m.user_id;
  role = m.role;
  email = u.email;
  name = u.name;
})

abbrev pub join_member : Tables → Option MemberRow → Option TeamMember
join_member t none = none
join_member t (some m) = join_user t m (find (λ u. u.id == m.user_id) t.users)

abbrev pub select_membership : ℤ → ℤ → Statement TeamMember
select_membership team_id user_id d =
    found (join_member d.tables (find (is_member team_id user_id) d.tables.team_members)) d

unfoldable pub membership : ℤ → ℤ → Method TeamMember
unfolding run find no_rows_error
membership team_id user_id =
    query (select_membership team_id user_id) no_rows_error "select membership"

unfoldable pub update_member_role : ℤ → ℤ → Role → Method Unit
unfolding run update_role classify membership
update_member_role team_id user_id role = do
  affected ← query (update_role team_id user_id role) classify "update member role"
  if affected == 0 then (do membership team_id user_id; pure tt) else pure tt

-- The teams of a user's memberships, joined.
unfoldable pub joined_teams : List TeamRow → ℤ → List MemberRow → List Team
unfolding find
joined_teams teams user_id [] = []
joined_teams teams user_id (m ∷ ms) =
    let rest = joined_teams teams user_id ms in
    if m.user_id == user_id
    then (elim (find (λ t. t.id == m.team_id) teams) [
      | none ↦ rest
      | some t ↦ row_team m.role t ∷ rest
    ])
    else rest

unfoldable pub teams_for_user : ℤ → Method (List Team)
unfolding run joined_teams order_asc
teams_for_user user_id =
    query
      (λ d.
        (ok (order_asc (λ t. t.id) (joined_teams d.tables.teams user_id d.tables.team_members)), d))
      plain "select teams"
