-- ===== src/Store/Teams/Lookup.antt =====
-- What a successful `Membership` of internal/store/team.go tells of the table.
use test_api.Prelude.{
  ℤ, ◌≡◌, ◌≢◌, refl, false, inl, inr, Bool-cases, Option, some, none, List, [], ◌∷◌, ◌==◌, int_eq,
  int_beq_iff, find, any, arith, ok, err, Result, Option-cases, String,
}
use test_api.Domain.Errors.{Failure, Foreign}
use test_api.Domain.Role.{role_owner}
use test_api.Domain.Team.{TeamMember}
use test_api.Store.Schema.{Tables, MemberRow, UserRow, is_member}
use test_api.Store.Driver.{
  Database, Fault, works, fails, is_lost, found, run, query, sort_error, no_rows_error,
}
use test_api.Store.Teams.{membership, select_membership, join_member}
use test_api.Store.Teams.Owners.{IsKeyed, NotOwnerAt}

-- The row that a member was read from.
pub record IsRead (t : Tables) (team_id user_id : ℤ) (m : TeamMember) : Type 0 where
  pub row : MemberRow
  pub user : UserRow
  pub found_row : find (is_member team_id user_id) t.team_members ≡ some row
  pub found_user : find (λ u. u.id == row.user_id) t.users ≡ some user
  pub same : m ≡ record {
    team_id = row.team_id;
    user_id = row.user_id;
    role = row.role;
    email = user.email;
    name = user.name;
  }

-- What a membership query tells about the database that it was put to.
abbrev pub Tells : Tables → ℤ → ℤ → Result Failure TeamMember → Type 0
Tells t team_id user_id (ok m) = IsRead t team_id user_id m
Tells t team_id user_id (err e) = Unit

join_member-IsRead :
    (t : Tables) (team_id user_id : ℤ) (m : TeamMember)
    → join_member t (find (is_member team_id user_id) t.team_members) ≡ some m
    → IsRead t team_id user_id m
join_member-IsRead t team_id user_id m e =
    elim (Option-cases (find (is_member team_id user_id) t.team_members)) [
      | inl missing ↦ absurd (ground arith)
      | inr (row, found_row) ↦ elim (Option-cases (find (λ u. u.id == row.user_id) t.users)) [
        | inl unknown ↦ absurd (ground arith)
        | inr (user, found_user) ↦ record {
          row = row;
          user = user;
          found_row = found_row;
          found_user = found_user;
          same = ground arith;
        }
      ]
    ]

found-Tells :
    (o : Option TeamMember) (d : Database) (f : Foreign → String → Failure) (op : String)
    {t : Tables} {team_id user_id : ℤ}
    → ((m : TeamMember) → o ≡ some m → IsRead t team_id user_id m)
    → Tells t team_id user_id (sort_error (found o d).0 f op)
found-Tells none d f op k = tt
found-Tells (some m) d f op k = k m refl

module _ (team_id user_id : ℤ) where
  -- The query changes no table and no counter.
  pub membership_reads :
      (d : Database)
      → ((membership team_id user_id d).1.tables ≡ d.tables)
        × ((membership team_id user_id d).1.next ≡ d.next)
  unfolding membership
  membership_reads d = ground arith

  run-Tells :
      (d : Database) (fs : List Fault)
      → d.faults ≡ fs
      → Tells d.tables team_id user_id
          (query (select_membership team_id user_id) no_rows_error "select membership" d).0
  unfolding run
  run-Tells d [] e =
      rw (e, run) (found-Tells _ d no_rows_error _ (join_member-IsRead d.tables team_id user_id))
  run-Tells d (works ∷ rest) e =
      rw (e, run)
        (found-Tells _ (record d { faults = rest }) no_rows_error _
          (join_member-IsRead d.tables team_id user_id))
  run-Tells d (fails why ∷ rest) e = rw (e, run) tt
  run-Tells d (is_lost why ∷ rest) e = rw (e, run) tt

  -- A member that it returns is in the table.
  pub membership-Tells :
      (d : Database) → Tells d.tables team_id user_id (membership team_id user_id d).0
  unfolding membership
  membership-Tells d = run-Tells d d.faults refl

any-NotOwnerAt :
    (team_id user_id : ℤ) (ms : List MemberRow)
    → any (is_member team_id user_id) ms ≡ false
    → NotOwnerAt team_id user_id ms
unfolding any
any-NotOwnerAt team_id user_id [] h = tt
any-NotOwnerAt team_id user_id (x ∷ ms) h = ground (arith, any-NotOwnerAt team_id user_id ms)

-- By the primary key, the row that is found is the only one.
pub find-NotOwnerAt :
    (team_id user_id : ℤ) (ms : List MemberRow) (m : MemberRow)
    → IsKeyed ms
    → find (is_member team_id user_id) ms ≡ some m
    → m.role ≢ role_owner
    → NotOwnerAt team_id user_id ms
unfolding find
find-NotOwnerAt team_id user_id [] m k e other = tt
find-NotOwnerAt team_id user_id (x ∷ ms) m k e other =
    elim (Bool-cases (is_member team_id user_id x)) [
      | inr different ↦ ground (arith, find-NotOwnerAt team_id user_id ms m k.1)
      | inl same ↦ ground (
        arith,
        any-NotOwnerAt team_id user_id ms,
        int_beq_iff x.team_id team_id,
        int_beq_iff x.user_id user_id,
      )
    ]
