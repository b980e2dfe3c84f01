-- ===== src/Service/Tasks/Hiding.antt =====
-- A task of a foreign team looks as if it did not exist.
use test_api.Prelude.{ℤ, ◌≡◌, true, [], ◌∷◌, ok, err, String, arith}
use test_api.Domain.Errors.{Error, Failure, is, err_not_found, not_found, int}
use test_api.Domain.Task.{Task}
use test_api.Domain.Patch.{TaskPatch}
use test_api.Domain.Rules.{validate, validate_comment}
use test_api.Service.Interfaces.{Service, Db}
use test_api.Service.Members.{task_for_member}
use test_api.Service.Tasks.{update_task, task_history, add_comment, list_comments}

-- There is no such task, or there is one and the actor's membership of its team cannot be found.
pub data IsHidden {W : Type 0} (db : Db W) (task_id actor_id : ℤ) (w : W) : Type 0 where
  missing :
      (e : Failure) (w' : W)
      → db.task_by_id task_id w ≡ (err e, w')
      → is e err_not_found ≡ true
      → IsHidden db task_id actor_id w
  foreign :
      (t : Task) (w' : W) (e : Failure) (w'' : W)
      → db.task_by_id task_id w ≡ (ok t, w')
      → db.membership t.team_id actor_id w' ≡ (err e, w'')
      → IsHidden db task_id actor_id w

abbrev pub no_task : ℤ → Error
no_task task_id = not_found "task %d not found" (int task_id ∷ [])

task_for_member-hidden :
    {W : Type 0} (db : Db W) (task_id actor_id : ℤ) (w : W)
    → IsHidden db task_id actor_id w
    → (task_for_member db task_id actor_id w).0 ≡ err (no_task task_id)
unfolding task_for_member
task_for_member-hidden db task_id actor_id w (missing e w' p q) = ground arith
task_for_member-hidden db task_id actor_id w (foreign t w' e w'' p q) = ground arith

module _ {W : Type 0} (s : Service W) (actor_id task_id : ℤ) (w : W)
    (h : IsHidden s.db task_id actor_id w) where
  -- If there is no such task, or the actor's membership of its team cannot be found, then history,
  -- comments and, for input that passes its validation, a new comment and an update all answer with
  -- the same error: that there is no such task.
  pub hidden_alike :
      (patch : TaskPatch) (content : String)
      → validate patch ≡ ok tt
      → validate_comment content ≡ ok tt
      → ((task_history s actor_id task_id w).0 ≡ err (no_task task_id))
        × ((list_comments s actor_id task_id w).0 ≡ err (no_task task_id))
        × ((add_comment s actor_id task_id content w).0 ≡ err (no_task task_id))
        × ((update_task s actor_id task_id patch w).0 ≡ err (no_task task_id))
  unfolding task_history list_comments add_comment update_task
  hidden_alike patch content p c = ground (arith, task_for_member-hidden s.db task_id actor_id w h)
