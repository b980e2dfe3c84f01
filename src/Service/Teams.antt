-- ===== src/Service/Teams.antt =====
-- internal/service/teams.go
use test_api.Prelude.{
  ℤ, pos, String, Bool, not, ◌&&◌, ◌!=◌, ◌==◌, string_eq, List, [], ◌∷◌, ltb_ℤ, if◌then◌else◌,
  raise_if, trim_space,
}
use test_api.Domain.Errors.{
  is, err_already_exists, err_not_found, err_unknown_id, int, text, conflict, internal,
  unauthorized, not_found, invalid,
}
use test_api.Domain.Role.{Role, role_member, valid}
use test_api.Domain.Team.{
  Team, TeamMember, normalize_team_name, authorize_invite, authorize_role_change,
  authorize_stats_access,
}
use test_api.Domain.Stats.{TeamStats}
use test_api.Domain.User.{User, normalize_email}
use test_api.Service.Exec.{Exec, pure, lift, call, ◌>>=◌, ◌>>◌}
use test_api.Service.Interfaces.{Service}
use test_api.Service.Members.{membership}

pub record InviteRequest : Type 0 where
  pub email : String
  pub user_id : ℤ
  pub role : Role

-- The role that an invitation asks for: `member` if it names none.
abbrev pub invited_role : InviteRequest → Role
invited_role req = if req.role == "" then role_member else req.role

abbrev pub has_id : InviteRequest → Bool
has_id req = ltb_ℤ (pos 0) req.user_id

abbrev pub has_email : InviteRequest → Bool
has_email req = trim_space req.email != ""

module _ {W : Type 0} (s : Service W) where
  unfoldable pub create_team : ℤ → String → Exec W Team
  unfolding is
  create_team user_id raw_name = do
    team_name ← lift (normalize_team_name raw_name)
    call (s.db.create_team team_name user_id) λ e.
        if is e err_unknown_id
        then unauthorized "authenticated user no longer exists" []
        else internal e "create team" []

  unfoldable pub list_teams : ℤ → Exec W (List Team)
  list_teams user_id = call (s.db.teams_for_user user_id) λ e. internal e "list teams" []

  unfoldable pub resolve_invitee : InviteRequest → Exec W User
  unfolding is
  resolve_invitee req =
      if has_id req
      then call (s.db.user_by_id req.user_id) (λ e.
        if is e err_not_found
        then not_found "user %d not found" (int req.user_id ∷ [])
        else internal e "load invite" [])
      else do
        email ← lift (normalize_email s.mail req.email)
        call (s.db.user_by_email email) λ e.
            if is e err_not_found
            then not_found "no user registered with this email" []
            else internal e "load invite" []

  unfoldable pub invite_member : ℤ → ℤ → InviteRequest → Exec W TeamMember
  unfolding valid membership authorize_invite resolve_invitee is
  invite_member actor_id team_id req = do
    let role = invited_role req
    lift (raise_if (not (valid role)) (invalid "unknown role %q" (text role ∷ [])))
    lift (
        raise_if (not (has_id req) && not (has_email req))
          (invalid "user_id or email is required" []))
    lift (raise_if (has_id req && has_email req) (invalid "provide user_id or email, not both" []))
    actor ← membership s.db team_id actor_id
    lift (authorize_invite actor role)
    invitee ← resolve_invitee (record req { role = role })
    call (s.db.add_member team_id invitee.id role) λ e.
        if is e err_already_exists
        then conflict "user %d is already member of team %d" (int invitee.id ∷ int team_id ∷ [])
        else internal e "add team member" []
    pure (record {
      team_id = team_id;
      user_id = invitee.id;
      role = role;
      email = invitee.email;
      name = invitee.name;
    })

  unfoldable pub change_member_role : ℤ → ℤ → ℤ → Role → Exec W TeamMember
  unfolding valid membership authorize_role_change is
  change_member_role actor_id team_id target_id role = do
    lift (raise_if (not (valid role)) (invalid "unknown role %q" (text role ∷ [])))
    actor ← membership s.db team_id actor_id
    target ← call (s.db.membership team_id target_id) λ e.
        if is e err_not_found
        then not_found "user %d is not a member of team %d" (int target_id ∷ int team_id ∷ [])
        else internal e "load target membership" []
    lift (authorize_role_change actor target role)
    call (s.db.update_member_role team_id target_id role) λ e. internal e "update member role" []
    pure (record target { role = role })

  unfoldable pub team_stats : ℤ → ℤ → Exec W TeamStats
  unfolding membership authorize_stats_access
  team_stats actor_id team_id = do
    actor ← membership s.db team_id actor_id
    lift (authorize_stats_access actor)
    call (s.db.team_stats team_id) λ e. internal e "build team stats" []
