-- ===== src/Store/Teams/Founding.antt =====
-- The invariant of teams across `CreateTeam` and `UpdateMemberRole` of internal/store/team.go.
use test_api.Prelude.{
  All-append, All-imp, All-zip, Option, some, none, ℕ, suc, ◌≤◌, ℤ, pos, String, ◌≡◌, ◌≢◌, refl,
  false, List, [], ◌∷◌, ◌++◌, nat_eq, int_eq, int_beq_iff, inl, inr, Bool-cases, ltb, count, any,
  All, arith,
}
use test_api.Domain.Role.{Role, role_owner}
use test_api.Store.Schema.{Tables, Counters, TeamRow, MemberRow, is_member, has_user}
use test_api.Store.Driver.{Database, query, pure, classify, no_rows_error, found}
use test_api.Store.Driver.Keeps.{
  Keeps, KeepsStatement, store_rules, Ends, query-Ends, bind-Ends, Keeps-transaction,
}
use test_api.Store.Teams.{
  insert_team, insert_member, select_team, row_team, create_team, update_role, membership,
  update_member_role, set_role,
}
use test_api.Store.Teams.Transactions.{read_team, add_founder, founding, create_team-transaction}
use test_api.Store.Teams.Owners.{
  TeamsValid, TeamsValid-Grows, HasOneOwner, owners, IsKeyed, ◌<ℤ◌, owners-append, owners-below,
  IsKeyed-append, NotOwnerAt, set_role-TeamsValid,
}

-- Between the two inserts: the last team, under the number `id`, has no member yet.
pub record Founded (id : ℤ) (t : Tables) (n : Counters) : Type 0 where
  pub number : ℕ
  pub older : List TeamRow
  pub newest : TeamRow
  pub teams : t.teams ≡ older ++ newest ∷ []
  pub same : newest.id ≡ pos number
  pub same_id : id ≡ pos number
  pub bound : suc number ≤ n.teams
  pub one_owner : All (HasOneOwner t.team_members) older
  pub older_below : All (λ r. r.id <ℤ number) older
  pub members_below : All (λ m. m.team_id <ℤ number) t.team_members
  pub keyed : IsKeyed t.team_members

insert_team-Founded :
    (name : String) (created_by : ℤ) (d : Database)
    → TeamsValid d.tables d.next
    → Ends Founded d.next (insert_team name created_by d)
unfolding insert_team
insert_team-Founded name created_by d v = elim (Bool-cases (ltb 255 (count name))) [
  | inl long ↦ rw long (omega arith)
  | inr short ↦ rw short (elim (Bool-cases (has_user d.tables created_by)) [
    | inr missing ↦ rw missing (omega arith)
    | inl known ↦ rw known (
      record {
        number = d.next.teams;
        older = d.tables.teams;
        newest = record {
          id = pos d.next.teams;
          name = name;
          created_by = created_by;
          created_at = d.clock;
        };
        teams = refl;
        same = refl;
        same_id = refl;
        bound = omega arith;
        one_owner = v.one_owner;
        older_below = v.teams_below;
        members_below = v.members_below;
        keyed = v.keyed;
      },
      omega arith,
    )
  ])
]

module _ (number : ℕ) (user_id : ℤ) where
  abbrev founder : MemberRow
  founder = record { team_id = pos number; user_id = user_id; role = role_owner }

  not-is_member :
      (ms : List MemberRow)
      → All (λ m. m.team_id <ℤ number) ms
      → any (is_member (pos number) user_id) ms ≡ false
  unfolding any
  not-is_member [] h = refl
  not-is_member (m ∷ ms) h =
      ground (arith, not-is_member ms h.1, int_beq_iff m.team_id (pos number))

  older_owner :
      (ms : List MemberRow) (r : TeamRow)
      → HasOneOwner ms r
      → r.id <ℤ number
      → HasOneOwner (ms ++ founder ∷ []) r
  older_owner ms r h below =
      ground (arith, owners-append r.id ms founder, int_beq_iff (pos number) r.id)

  founder_owner :
      (ms : List MemberRow)
      → All (λ m. m.team_id <ℤ number) ms
      → owners (pos number) (ms ++ founder ∷ []) ≡ 1
  founder_owner ms h = ground (
    arith,
    owners-append (pos number) ms founder,
    owners-below number ms h,
    int_beq_iff (pos number) (pos number),
  )

Founded-TeamsValid :
    (id user_id : ℤ) (t : Tables) (n : Counters)
    → Founded id t n
    → TeamsValid
        (record t {
          team_members =
              t.team_members ++ record { team_id = id; user_id = user_id; role = role_owner } ∷ [];
        })
        n
Founded-TeamsValid id user_id t n f =
    let member = founder f.number user_id in
    let ms = t.team_members in
    rw f.same_id (record {
      one_owner = rw f.teams (
          All-append (HasOneOwner (ms ++ member ∷ [])) f.older f.newest
            (All-zip _ _ _ f.older (older_owner f.number user_id ms) f.one_owner f.older_below)
            (rw f.same (founder_owner f.number user_id ms f.members_below)));
      teams_below = rw f.teams (
          All-append _ f.older f.newest
            (All-imp _ _ f.older (λ r h. omega (arith, f.bound)) f.older_below)
            (rw f.same (omega (arith, f.bound))));
      members_below =
          All-append _ ms member (All-imp _ _ ms (λ m h. omega (arith, f.bound)) f.members_below)
            (omega (arith, f.bound));
      keyed = IsKeyed-append ms member f.keyed (not-is_member f.number user_id ms f.members_below);
    })

insert_member-Founded :
    (id user_id : ℤ) (d : Database)
    → Founded id d.tables d.next
    → Ends (λ _. TeamsValid) d.next (insert_member id user_id role_owner d)
unfolding insert_member
insert_member-Founded id user_id d f =
    ground (arith, Founded-TeamsValid id user_id d.tables d.next f)

found-Ends :
    {A : Type 0} (o : Option A) (d : Database)
    → TeamsValid d.tables d.next
    → Ends (λ _. TeamsValid) d.next (found o d)
found-Ends none d v = omega arith
found-Ends (some a) d v = (v, omega arith)

abbrev Valid : {A : Type 0} → A → Tables → Counters → Type 0
Valid _ = TeamsValid

read_team-Ends :
    (id : ℤ) (d : Database) → TeamsValid d.tables d.next → Ends Valid d.next (read_team id d)
read_team-Ends id d v =
    bind-Ends Valid Valid (query (select_team id) no_rows_error "select team")
      (λ t. pure (row_team role_owner t)) d
      (query-Ends Valid (select_team id) no_rows_error "select team" d
        (λ rest. found-Ends _ (record d { faults = rest }) v))
      (λ t d' v'. (v', omega arith))

add_founder-Ends :
    (created_by id : ℤ) (d : Database)
    → Founded id d.tables d.next
    → Ends Valid d.next (add_founder created_by id d)
add_founder-Ends created_by id d f =
    bind-Ends Valid Valid
      (query (insert_member id created_by role_owner) classify "insert team owner")
      (λ _. read_team id) d
      (query-Ends Valid (insert_member id created_by role_owner) classify "insert team owner" d
        (λ rest. insert_member-Founded id created_by (record d { faults = rest }) f))
      (λ _. read_team-Ends id)

-- A new team has one owner, the user who creates it.
pub create_team-TeamsValid :
    (name : String) (created_by : ℤ) → Keeps TeamsValid (create_team name created_by)
create_team-TeamsValid name created_by = rw (create_team-transaction name created_by) (
    Keeps-transaction TeamsValid-Grows (founding name created_by) λ d v.
      bind-Ends Founded Valid (query (insert_team name created_by) classify "insert team")
        (add_founder created_by) d
        (query-Ends Founded (insert_team name created_by) classify "insert team" d
          (λ rest. insert_team-Founded name created_by (record d { faults = rest }) v))
        (add_founder-Ends created_by))

-- What holds while a member who is not the owner gets another role.
abbrev pub Demotable : ℤ → ℤ → Tables → Counters → Type 0
Demotable team_id user_id t n = TeamsValid t n × NotOwnerAt team_id user_id t.team_members

module _ (team_id user_id : ℤ) (role : Role) (other : role ≢ role_owner) where
  set_role-NotOwnerAt :
      (ms : List MemberRow)
      → NotOwnerAt team_id user_id ms
      → NotOwnerAt team_id user_id (set_role team_id user_id role ms)
  unfolding set_role
  set_role-NotOwnerAt [] h = tt
  set_role-NotOwnerAt (m ∷ ms) h = elim (Bool-cases (is_member team_id user_id m)) [
    | inl same ↦ rw same (λ _. other, set_role-NotOwnerAt ms h.1)
    | inr different ↦ rw different (h.0, set_role-NotOwnerAt ms h.1)
  ]

  update_role-Demotable :
      KeepsStatement (Demotable team_id user_id) (update_role team_id user_id role)
  unfolding update_role
  update_role-Demotable = record {
    at = λ d p. ground (
      arith,
      set_role-TeamsValid team_id user_id role d.tables d.next other p.1 p.0,
      set_role-NotOwnerAt d.tables.team_members p.1,
    );
  }

  membership-Demotable : Keeps (Demotable team_id user_id) (membership team_id user_id)
  unfolding membership
  membership-Demotable = search store_rules

  -- A change of the role of a member who is not the owner, to a role that is not the owner's.
  pub update_member_role-Demotable :
      Keeps (Demotable team_id user_id) (update_member_role team_id user_id role)
  unfolding update_member_role
  update_member_role-Demotable = search (store_rules, update_role-Demotable, membership-Demotable)
