-- ===== src/Tests/Rules.antt =====
-- The theorems about the rules of internal/domain at concrete values.
use test_api.Prelude.{
  ◌≡◌, none, some, [], ok, ◌↔◌, ◌⊎◌, if◌then◌else◌, ◌≤◌, ◌≢◌, count, trim_space, arith,
}
use test_api.Domain.Role.{role_owner, role_admin, role_member}
use test_api.Domain.Task.{terminal, close_timestamp, status_todo, status_done, status_cancelled}
use test_api.Domain.Task.Closing.{IsClosedWell, close_timestamp-IsClosedWell, close_timestamp_lem}
use test_api.Domain.Patch.{diff, apply}
use test_api.Domain.Patch.Update.{patched, undo, apply-diff, diff-apply-diff, apply-undo-diff}
use test_api.Domain.Rules.{validate, validate_new_task, validate_comment, authorize_task_update}
use test_api.Domain.Rules.Limits.{
  IsAcceptable, IsTitle, IsDescription, IsStatus, validate_iff, validate_new_task_iff,
  validate_comment_iff,
}
use test_api.Domain.Rules.Authorization.{IsManager, MayUpdate, authorize-diff_iff}
use test_api.Domain.Team.{authorize_invite, authorize_role_change, authorize_stats_access}
use test_api.Domain.Team.Authorization.{
  IsAssignable, authorize_invite_iff, authorize_role_change_iff, authorize_stats_access_iff,
}
use test_api.Tests.Samples.{task, patch, ann, bob, done}

authorize-diff_iff_example :
    (authorize_task_update ann task (diff task patch) ≡ ok tt)
    ↔ MayUpdate ann task (diff task patch)
authorize-diff_iff_example = authorize-diff_iff ann task patch

apply-diff_example : apply task (diff task patch) ≡ patched task patch
apply-diff_example = apply-diff task patch

diff-apply-diff_example : diff (apply task (diff task patch)) patch ≡ []
diff-apply-diff_example = diff-apply-diff task patch

apply-undo-diff_example : apply (apply task (diff task patch)) (undo (diff task patch)) ≡ task
apply-undo-diff_example = apply-undo-diff task patch

validate_iff_example : (validate patch ≡ ok tt) ↔ IsAcceptable patch
validate_iff_example = validate_iff patch

validate_new_task_iff_example :
    (validate_new_task " Report " "" status_todo ≡ ok tt)
    ↔ (IsTitle " Report " × IsDescription "" × ((status_todo ≡ "") ⊎ IsStatus status_todo))
validate_new_task_iff_example = validate_new_task_iff " Report " "" status_todo

validate_comment_iff_example :
    (validate_comment " Hello" ≡ ok tt) ↔ ((trim_space " Hello" ≢ "") × (count " Hello" ≤ 5000))
validate_comment_iff_example = validate_comment_iff " Hello"

authorize_role_change_iff_example :
    (authorize_role_change ann bob role_admin ≡ ok tt)
    ↔ ((ann.role ≡ role_owner) × (bob.role ≢ role_owner) × IsAssignable role_admin)
authorize_role_change_iff_example = authorize_role_change_iff ann bob role_admin

authorize_invite_iff_example :
    (authorize_invite ann role_member ≡ ok tt) ↔ (IsManager ann.role × IsAssignable role_member)
authorize_invite_iff_example = authorize_invite_iff ann role_member

authorize_stats_access_iff_example : (authorize_stats_access ann ≡ ok tt) ↔ IsManager ann.role
authorize_stats_access_iff_example = authorize_stats_access_iff ann

done-IsClosedWell : IsClosedWell done.status done.closed_at
unfolding terminal
done-IsClosedWell = ground arith

close_timestamp_lem_example : close_timestamp done status_cancelled 12 ≡ (
    if terminal status_cancelled then (if terminal status_done then some 9 else some 12) else none)
close_timestamp_lem_example = close_timestamp_lem done status_cancelled 12 done-IsClosedWell

close_timestamp-IsClosedWell_example : IsClosedWell status_done (close_timestamp task status_done 9)
close_timestamp-IsClosedWell_example = close_timestamp-IsClosedWell task status_done 9
