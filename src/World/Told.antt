-- ===== src/World/Told.antt =====
-- `CreateTask` and `UpdateTask` of internal/service/task.go, over the tasks and their histories.
pub mod Serving
use test_api.Prelude.{
  ℤ, ◌≡◌, refl, sym, ap, ◌∙◌, subst, ◌==◌, int_eq, int_beq_iff, Bool-cases, inl, inr, ◌⊎◌, Option,
  none, some, Option-cases, List, [], ◌∷◌, All, All-imp, Dict, Result, ok, err, find, arith,
  pos_part, raise_if,
}
use test_api.Domain.Errors.{Error, Failure, other, no_rows}
use test_api.Domain.Task.{
  Task, TaskUpdate, TaskFilter, TaskPage, FieldChange, close_timestamp, Time,
}
use test_api.Domain.Task.Closing.{close_timestamp-IsClosedWell}
use test_api.Domain.Patch.{TaskPatch, apply, diff}
use test_api.Domain.Rules.{Actor, validate, authorize_task_update}
use test_api.Store.Driver.{Database, Fault, works, fails, is_lost, run, no_rows_error}
use test_api.Store.Steady.{SameTasks}
use test_api.World.Keeps.{Preserves, keeps_rules, Preserves-modify, Preserves-step}
use test_api.Store.Steady.Methods.{list_tasks-Steady, task_by_id-Steady}
use test_api.Store.Tasks.{Json, update_task as write_task, task_by_id}
use test_api.Store.Tasks.Valid.{Ascends, TasksValid-same}
use test_api.Store.Tasks.Told.{TasksTold}
use test_api.Store.Tasks.Told.Keeping.{Fits}
use test_api.Store.Tasks.Told.Methods.{create_task-TasksTold}
use test_api.Store.Tasks.Told.Updates.{update_task-TasksTold}
use test_api.Service.Members.{task_for_member}
use test_api.Service.Exec.{Exec, pure, call, step, modify}
use test_api.Service.Tasks.{
  is_stale, NewTaskRequest, create_task, save_changes, save_if_changed, page_or_query, update_task,
  list_tasks,
}
use test_api.Cache.{TaskCache}
use test_api.World.{World, Outside, Request, service, db, on_db, handle, serve}
use test_api.World.Gives.{Post, Gives, Gives-pure, Gives-bind, Gives-check}
use test_api.World.Steady.{Steady, Steady-call, Steady-replace}
use test_api.World.Steady.Cases
use test_api.World.Steady.Requests.{View, quiet, creates, updates, lists, view}
use test_api.Store.Tasks.Told.Rows.{unique_row, found_number, task_by_id-rows, TasksTold-same}

module _ (o : Outside) (c : TaskCache) where
  abbrev pub IsWorldTold : World → Type 0
  IsWorldTold w = TasksTold o.json w.db.tables w.db.next

  pub Steady-TasksTold : {A : Type 0} (m : Exec World A) → Steady m → Preserves (TasksTold o.json) m
  Steady-TasksTold m h = record { at = λ w t. TasksTold-same o.json w.db (m w).1.db t (h.at w).db }

  pub create_task-Preserves :
      (user : ℤ) (req : NewTaskRequest)
      → Preserves (TasksTold o.json) (create_task (service o c) user req)
  unfolding create_task
  create_task-Preserves user req =
      search
        (
          keeps_rules, create_task-TasksTold, Steady-TasksTold, Cases.membership-Steady,
          Cases.assignee_in_team-Steady, invalidate-Preserves,
        )
        depth 12
    where
      invalidate-Preserves :
          (team_id : ℤ)
          → Preserves (TasksTold o.json) (modify ((service o c).cache.invalidate team_id))
      invalidate-Preserves team_id = Preserves-modify _ (λ w. refl)

  -- The tasks are `ts`, of which `K` is known.
  abbrev IsAt : List Task → Type 0 → World → Type 0
  IsAt ts K w = IsWorldTold w × (w.db.tables.tasks ≡ ts) × K

  Post-IsAt :
      {A : Type 0} (ts : List Task) (K : Type 0) (r : Result Error A) (w : World)
      → IsAt ts K w
      → Post IsWorldTold (λ (_ : A). IsAt ts K) r w
  Post-IsAt ts K (ok a) w h = h
  Post-IsAt ts K (err e) w h = h.0

  Gives-Steady :
      {A : Type 0} (ts : List Task) (K : Type 0) (m : Exec World A)
      → Steady m
      → Gives IsWorldTold (IsAt ts K) m (λ _. IsAt ts K)
  Gives-Steady ts K m h = record {
    at = λ w (t, e, k).
        let same = (h.at w).db in
        Post-IsAt ts K (m w).0 (m w).1
          (TasksTold-same o.json w.db (m w).1.db t same, same.tasks ∙ e, k);
  }

  abbrev IsRow : ℤ → List Task → Task → Type 0
  IsRow id ts task = find (λ (t : Task). t.id == id) ts ≡ some task

  task_by_id-Gives :
      (id : ℤ) (ts : List Task) (f : Failure → Error)
      → Gives IsWorldTold
          (IsAt ts Unit)
          (call (on_db (task_by_id id)) f)
          (λ t. IsAt ts (IsRow id ts t))
  task_by_id-Gives id ts f = record {
    at = λ w (t, e, _).
        let same = ((task_by_id-Steady id).at w.db) in
        let told = TasksTold-same o.json w.db (task_by_id id w.db).1 t same in
        elim (task_by_id-rows id w.db w.db.faults refl) [
          | inl (task, found, there) ↦
              rw found (told, same.tasks ∙ e, subst (λ us. IsRow id us task) e there)
          | inr (x, failed) ↦ rw failed told
        ];
  }

  task_for_member-Gives :
      (id user : ℤ) (ts : List Task)
      → Gives IsWorldTold
          (IsAt ts Unit)
          (task_for_member (db o c) id user)
          (λ both. IsAt ts (IsRow id ts both.0))
  unfolding task_for_member
  task_for_member-Gives id user ts =
      Gives-bind IsWorldTold (IsAt ts Unit) (λ task. IsAt ts (IsRow id ts task)) _ _ _
        (task_by_id-Gives id ts _)
        λ task.
          Gives-bind IsWorldTold (IsAt ts (IsRow id ts task)) (λ _. IsAt ts (IsRow id ts task)) _ _
            _
            (Gives-Steady ts (IsRow id ts task) _
              (Steady-replace _ _ (Cases.membership-Steady o c task.team_id user)))
            λ actor. record { at = λ w h. h }

  -- The update that a row's changes are written with.
  abbrev update_of : Task → Dict FieldChange → Time → TaskUpdate
  update_of task changes now =
      let next = apply task changes in
      record {
        title = next.title;
        description = next.description;
        status = next.status;
        assignee_id = next.assignee_id;
        closed_at = close_timestamp task next.status now;
      }

  row-Fits :
      (id : ℤ) (ts : List Task) (task : Task) (changes : Dict FieldChange) (closing : Time)
      → Ascends ts
      → IsRow id ts task
      → Fits task.id task.version (update_of task changes closing) changes ts
  row-Fits id ts task changes closing ascending row =
      let number : task.id ≡ id = found_number id ts task row in
      All-imp (λ u. u.id ≡ id → u ≡ task) _ ts
        (λ u same now hit.
          let it : u ≡ task = same (ground (arith, number, int_beq_iff u.id task.id)) in
          rw it (record { title = refl; description = refl; status = refl; assignee = refl }))
        (unique_row id ts task ascending row)

  invalidate-Gives :
      (team_id : ℤ)
      → Gives IsWorldTold IsWorldTold
          (modify ((service o c).cache.invalidate team_id))
          (λ _. IsWorldTold)
  invalidate-Gives team_id = record { at = λ w h. h }

  Post-told :
      {A : Type 0} (r : Result Error A) (w : World)
      → IsWorldTold w
      → Post IsWorldTold (λ (_ : A). IsWorldTold) r w
  Post-told (ok a) w h = h
  Post-told (err e) w h = h

  written-Gives :
      (user id : ℤ) (task : Task) (changes : Dict FieldChange) (now : Time) (ts : List Task)
      (f : Failure → Error)
      → let m = write_task o.json task.id task.version (update_of task changes now) user changes in
        Gives IsWorldTold (IsAt ts (IsRow id ts task)) (call (on_db m) f) (λ _. IsWorldTold)
  written-Gives user id task changes now ts f = record {
    at = λ w (told, e, row).
        let m = write_task o.json task.id task.version (update_of task changes now) user changes in
        let fits =
          row-Fits id w.db.tables.tasks task changes now told.valid.ascending
            (subst (λ us. IsRow id us task) (sym e) row) in
        Post-told (call (on_db m) f w).0 (call (on_db m) f w).1
          (update_task-TasksTold o.json task.id task.version (update_of task changes now) changes
            user w.db (close_timestamp-IsClosedWell task (apply task changes).status now) fits
            told).inv;
  }

  save_changes-Gives :
      (user id : ℤ) (task : Task) (changes : Dict FieldChange) (ts : List Task)
      → Gives IsWorldTold
          (IsAt ts (IsRow id ts task))
          (save_changes (service o c) user task changes)
          (λ _. IsWorldTold)
  unfolding save_changes
  save_changes-Gives user id task changes ts =
      Gives-bind IsWorldTold (IsAt ts (IsRow id ts task)) (λ _. IsAt ts (IsRow id ts task)) _ _ _
        (Gives-Steady ts (IsRow id ts task) _ (Cases.assignee_in_team-Steady o c task.team_id _))
        λ _.
          Gives-bind IsWorldTold (IsAt ts (IsRow id ts task)) (λ _. IsAt ts (IsRow id ts task)) _ _
            _ (Gives-Steady ts (IsRow id ts task) _ (Cases.now-Steady o c))
            λ now.
              Gives-bind IsWorldTold (IsAt ts (IsRow id ts task)) (λ _. IsWorldTold) _ _ _
                (written-Gives user id task changes now ts _)
                λ (saved : Task).
                  Gives-bind IsWorldTold IsWorldTold (λ _. IsWorldTold) (λ _. IsWorldTold) _
                    (λ _. pure saved) (invalidate-Gives saved.team_id)
                    λ _. Gives-pure IsWorldTold IsWorldTold saved

  save_if_changed-Gives :
      (user id : ℤ) (task : Task) (changes : Dict FieldChange) (ts : List Task)
      → Gives IsWorldTold
          (IsAt ts (IsRow id ts task))
          (save_if_changed (service o c) user task changes)
          (λ _. IsWorldTold)
  save_if_changed-Gives user id task [] ts = record { at = λ w h. h.0 }
  save_if_changed-Gives user id task (x ∷ changes) ts =
      save_changes-Gives user id task (x ∷ changes) ts

  pub update_task-Gives :
      (user id : ℤ) (patch : TaskPatch) (ts : List Task)
      → Gives IsWorldTold
          (IsAt ts Unit)
          (update_task (service o c) user id patch)
          (λ _. IsWorldTold)
  unfolding update_task
  update_task-Gives user id patch ts =
      Gives-check IsWorldTold (IsAt ts Unit) (λ _. IsWorldTold) (validate patch) _ (λ w h. h.0)
        λ _ _.
          Gives-bind IsWorldTold (IsAt ts Unit) (λ both. IsAt ts (IsRow id ts both.0))
            (λ _. IsWorldTold) _ _ (task_for_member-Gives id user ts)
            λ (both : Task × Actor).
              Gives-check IsWorldTold (IsAt ts (IsRow id ts both.0)) (λ _. IsWorldTold)
                (raise_if (is_stale patch.version both.0.version) _) _ (λ w h. h.0)
                λ _ _.
                  Gives-check IsWorldTold (IsAt ts (IsRow id ts both.0)) (λ _. IsWorldTold)
                    (authorize_task_update both.1 both.0 (diff both.0 patch)) _ (λ w h. h.0)
                    λ _ _. save_if_changed-Gives user id both.0 (diff both.0 patch) ts

  pub Post-IsWorldTold :
      {A : Type 0} (r : Result Error A) (w : World)
      → Post IsWorldTold (λ (_ : A). IsWorldTold) r w
      → IsWorldTold w
  Post-IsWorldTold (ok a) w h = h
  Post-IsWorldTold (err e) w h = h
