-- ===== src/Domain/Team/Authorization.antt =====
-- Who may invite, change roles and see the report: internal/domain/team_rules.go.
use test_api.Prelude.{◌≡◌, ◌≢◌, ◌↔◌, ◌⊎◌, true, ok, arith, eq_iff}
use test_api.Domain.Role.{Role, role_owner, role_admin, role_member, assignable}
use test_api.Domain.Rules.{Actor}
use test_api.Domain.Rules.Authorization.{IsManager}
use test_api.Domain.Team.{
  TeamMember, authorize_invite, authorize_role_change, authorize_stats_access,
}

abbrev pub IsAssignable : Role → Type 0
IsAssignable r = (r ≡ role_admin) ⊎ (r ≡ role_member)

pub assignable_iff : (r : Role) → (assignable r ≡ true) ↔ IsAssignable r
unfolding assignable
assignable_iff r = ground (arith, eq_iff r "admin", eq_iff r "member")

-- An invitation is allowed exactly to owners and admins, and for the roles admin and member.
pub authorize_invite_iff :
    (actor : Actor) (role : Role)
    → (authorize_invite actor role ≡ ok tt) ↔ (IsManager actor.role × IsAssignable role)
unfolding authorize_invite
authorize_invite_iff actor role = ground (
  arith,
  eq_iff actor.role "owner",
  eq_iff actor.role "admin",
  eq_iff role "admin",
  eq_iff role "member",
)

-- A change of a role is allowed exactly to the owner, for a member who is not the owner, and to
-- the role admin or member.
pub authorize_role_change_iff :
    (actor : Actor) (target : TeamMember) (role : Role)
    → (authorize_role_change actor target role ≡ ok tt)
      ↔ ((actor.role ≡ role_owner) × (target.role ≢ role_owner) × IsAssignable role)
unfolding authorize_role_change
authorize_role_change_iff actor target role = ground (
  arith,
  eq_iff actor.role "owner",
  eq_iff target.role "owner",
  eq_iff role "admin",
  eq_iff role "member",
)

-- The report is open exactly to owners and admins.
pub authorize_stats_access_iff :
    (actor : Actor) → (authorize_stats_access actor ≡ ok tt) ↔ IsManager actor.role
unfolding authorize_stats_access
authorize_stats_access_iff actor =
    ground (arith, eq_iff actor.role "owner", eq_iff actor.role "admin")
