-- ===== src/Domain/Team.antt =====
-- internal/domain/team.go and internal/domain/team_rules.go.
pub mod Authorization
use test_api.Prelude.{
  ℤ, String, count, not, [], ◌∷◌, ◌==◌, ◌!=◌, string_eq, ltb, trim_space, Result, ok, ◌>>◌,
  raise_if,
}
use test_api.Domain.Errors.{Error, text, invalid, forbidden}
use test_api.Domain.Role.{Role, role_owner, assignable, can_manage_members, can_view_stats}
use test_api.Domain.Task.{Time}
use test_api.Domain.Rules.{Actor, Check}

pub record Team : Type 0 where
  pub id : ℤ
  pub name : String
  pub created_by : ℤ
  pub created_at : Time
  pub role : Role

pub record TeamMember : Type 0 where
  pub team_id : ℤ
  pub user_id : ℤ
  pub role : Role
  pub email : String
  pub name : String

unfoldable pub normalize_team_name : String → Result Error String
normalize_team_name raw = do
  let name = trim_space raw
  raise_if (name == "") (invalid "name must not be empty" [])
  raise_if (ltb 255 (count name)) (invalid "name is too long" [])
  ok name

unfoldable pub authorize_invite : Actor → Role → Check
unfolding can_manage_members assignable
authorize_invite actor role = do
  raise_if (not (can_manage_members actor.role))
      (forbidden "only the team owner or an admin may invite members" [])
  raise_if (not (assignable role))
      (invalid "role %q cannot be assigned through an invite" (text role ∷ []))

unfoldable pub authorize_role_change : Actor → TeamMember → Role → Check
unfolding assignable
authorize_role_change actor target new_role = do
  raise_if (actor.role != role_owner) (forbidden "only the team owner may change member roles" [])
  raise_if (target.role == role_owner) (forbidden "the team owner's role cannot be changed" [])
  raise_if (not (assignable new_role)) (invalid "role %q cannot be assigned" (text new_role ∷ []))

unfoldable pub authorize_stats_access : Actor → Check
unfolding can_view_stats
authorize_stats_access actor =
    raise_if (not (can_view_stats actor.role))
      (forbidden "only the team owner or an admin may view team analytics" [])
