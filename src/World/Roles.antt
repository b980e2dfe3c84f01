-- ===== src/World/Roles.antt =====
-- Invitations and changes of roles leave every team its one owner, and so does every run.
use test_api.Prelude.{
  ℤ, ◌≡◌, ◌≢◌, sym, List, [], ◌∷◌, Result, ok, err, arith, eq_iff, ap, Result-cases, inl, inr,
}
use test_api.Domain.Errors.{Error, Failure, internal}
use test_api.Domain.Role.{Role, role_owner}
use test_api.Domain.Rules.{Actor}
use test_api.Domain.Team.{TeamMember, authorize_invite, authorize_role_change}
use test_api.Domain.Team.Authorization.{
  authorize_invite_iff, authorize_role_change_iff, IsAssignable,
}
use test_api.Store.Driver.{Database}
use test_api.Store.Teams as StoreTeams
use test_api.Store.Teams.{update_member_role}
use test_api.Store.Teams.Owners.{TeamsValid, add_member-TeamsValid}
use test_api.Store.Teams.Founding.{Demotable, update_member_role-Demotable}
use test_api.Store.Teams.Lookup.{Tells, IsRead, membership_reads, membership-Tells, find-NotOwnerAt}
use test_api.Service.Exec.{Exec, call, lift, pure, or_error, continue, ◌>>=◌, ◌>>◌}
use test_api.Service.Teams.{InviteRequest, invite_member, change_member_role}
use test_api.Cache.{TaskCache}
use test_api.World as Program
use test_api.World.{World, Outside, service, db, on_db, handle, serve, Request}
use test_api.World.Keeps.{Preserves, keeps_rules, Preserves-bind_lift}
use test_api.World.Owners

IsAssignable-ne-owner : (r : Role) → IsAssignable r → r ≢ role_owner
IsAssignable-ne-owner r h = ground (arith, eq_iff "admin" "owner", eq_iff "member" "owner")

invited-ne-owner :
    (actor : Actor) (role : Role) → authorize_invite actor role ≡ ok tt → role ≢ role_owner
invited-ne-owner actor role h = IsAssignable-ne-owner role ((authorize_invite_iff actor role).0 h).1

module _ (o : Outside) (c : TaskCache) where
  invite_member-Preserves :
      (user team_id : ℤ) (req : InviteRequest)
      → Preserves TeamsValid (invite_member (service o c) user team_id req)
  unfolding invite_member
  invite_member-Preserves user team_id req =
      search
        (
          keeps_rules, Preserves-bind_lift, Owners.membership-Preserves,
          Owners.resolve_invitee-Preserves, add_member-TeamsValid, invited-ne-owner,
        )
        depth 12

  module _ (user team_id target_id : ℤ) (role : Role) where
    -- What follows the rule.
    abbrev store_role : TeamMember → Exec World TeamMember
    store_role target = do
      call ((db o c).update_member_role team_id target_id role)
          λ e. internal e "update member role" []
      pure (record target { role = role })

    -- What follows the lookup of the target.
    abbrev change : Actor → TeamMember → Exec World TeamMember
    change actor target = do lift (authorize_role_change actor target role); store_role target

    store_role-Demotable :
        (target : TeamMember)
        → role ≢ role_owner
        → Preserves (Demotable team_id target_id) (store_role target)
    store_role-Demotable target other = search (keeps_rules, update_member_role-Demotable)

    change-TeamsValid :
        (actor : Actor) (target : TeamMember) (w : World)
        → TeamsValid w.db.tables w.db.next
        → IsRead w.db.tables team_id target_id target
        → TeamsValid (change actor target w).1.db.tables (change actor target w).1.db.next
    change-TeamsValid actor target w v r =
        elim (Result-cases (authorize_role_change actor target role)) [
          | inr (e, refused) ↦ rw refused v
          | inl (_, allowed) ↦
              let (_, not_owner, assignable) =
                (authorize_role_change_iff actor target role).0 allowed in
              let other : r.row.role ≢ role_owner =
                rw (ap (λ (m : TeamMember). m.role) (sym r.same)) not_owner in
              let demotable =
                find-NotOwnerAt team_id target_id w.db.tables.team_members r.row v.keyed r.found_row
                  other in
              rw allowed (
                ((store_role-Demotable target (IsAssignable-ne-owner role assignable)).at w
                  (v, demotable)).0)
        ]

    -- The answer to the lookup of the target, at the database `d` that it leaves.
    looked_up-TeamsValid :
        (actor : Actor) (r : Result Failure TeamMember) (f : Failure → Error) (w : World)
        (d : Database)
        → TeamsValid w.db.tables w.db.next
        → d.tables ≡ w.db.tables
        → d.next ≡ w.db.next
        → Tells w.db.tables team_id target_id r
        → let w' = (continue (or_error r f) (change actor) (record w { db = d })).1 in
          TeamsValid w'.db.tables w'.db.next
    looked_up-TeamsValid actor (err e) f w d v t n tells = rw (t, n) v
    looked_up-TeamsValid actor (ok m) f w d v t n tells =
        change-TeamsValid actor m (record w { db = d }) (rw (t, n) v) (rw t tells)

    find_target-Preserves :
        (actor : Actor) (f : Failure → Error)
        → Preserves TeamsValid (call ((db o c).membership team_id target_id) f >>= change actor)
    find_target-Preserves actor f = record {
      at = λ w v.
          let (t, n) = membership_reads team_id target_id w.db in
          let (r, d) = StoreTeams.membership team_id target_id w.db in
          looked_up-TeamsValid actor r f w d v t n (membership-Tells team_id target_id w.db);
    }

    change_member_role-Preserves :
        Preserves TeamsValid (change_member_role (service o c) user team_id target_id role)
    unfolding change_member_role
    change_member_role-Preserves =
        search (keeps_rules, Owners.membership-Preserves, find_target-Preserves) depth 8

  handle-TeamsValid :
      (r : Request) (w : World)
      → TeamsValid w.db.tables w.db.next
      → TeamsValid (handle o c r w).db.tables (handle o c r w).db.next
  unfolding handle
  handle-TeamsValid (Program.register email name password) w v =
      (Owners.register-Preserves o c email name password).at w v
  handle-TeamsValid (Program.login email password) w v =
      (Owners.login-Preserves o c email password).at w v
  handle-TeamsValid (Program.create_team user name) w v =
      (Owners.create_team-Preserves o c user name).at w v
  handle-TeamsValid (Program.list_teams user) w v = (Owners.list_teams-Preserves o c user).at w v
  handle-TeamsValid (Program.team_stats user team_id) w v =
      (Owners.team_stats-Preserves o c user team_id).at w v
  handle-TeamsValid (Program.create_task user req) w v =
      (Owners.create_task-Preserves o c user req).at w v
  handle-TeamsValid (Program.update_task user id patch) w v =
      (Owners.update_task-Preserves o c user id patch).at w v
  handle-TeamsValid (Program.list_tasks user f) w v =
      (Owners.list_tasks-Preserves o c user f).at w v
  handle-TeamsValid (Program.task_history user id) w v =
      (Owners.task_history-Preserves o c user id).at w v
  handle-TeamsValid (Program.add_comment user id content) w v =
      (Owners.add_comment-Preserves o c user id content).at w v
  handle-TeamsValid (Program.list_comments user id) w v =
      (Owners.list_comments-Preserves o c user id).at w v
  handle-TeamsValid (Program.invite_member user team_id req) w v =
      (invite_member-Preserves user team_id req).at w v
  handle-TeamsValid (Program.change_member_role user team_id target role) w v =
      (change_member_role-Preserves user team_id target role).at w v

  -- Whatever requests arrive, in whatever order, and whatever faults the database and the cache meet:
  -- if every team had exactly one owner, and the keys and numbers of the rows of teams and members held,
  -- then so it is afterwards.
  pub serve-TeamsValid :
      (requests : List Request) (w : World)
      → TeamsValid w.db.tables w.db.next
      → TeamsValid (serve o c requests w).db.tables (serve o c requests w).db.next
  unfolding serve
  serve-TeamsValid [] w v = v
  serve-TeamsValid (r ∷ requests) w v =
      serve-TeamsValid requests (handle o c r w) (handle-TeamsValid r w v)
