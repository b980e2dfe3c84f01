-- ===== src/Store/Tasks/Valid/Methods.antt =====
-- `CreateTask` and `UpdateTask` of internal/store/task.go over valid rows.
use test_api.Prelude.{
  suc, ℤ, pos, pos_part, ◌≡◌, ◌≤◌, refl, not, ◌||◌, ◌==◌, int_eq, Bool-cases, inl, inr, Option,
  none, some, [], ◌∷◌, ◌++◌, All-append, All-imp, arith, find, Dict, Option-cases, String,
}
use test_api.Domain.Task.{Task, NewTask, TaskUpdate, Time, Status, FieldChange, valid}
use test_api.Domain.Task.Closing.{IsClosedWell}
use test_api.Store.Schema.{in_status_column, has_team, has_user, has_user_or_null}
use test_api.Store.Driver.{Database}
use test_api.Store.Driver.Keeps.{
  Keeps, KeepsStatement, Holds, Holds-refl, Grows, Keeps-transaction, Keeps-Ends, store_rules,
}
use test_api.Store.Tasks.Transactions.{
  create_task_body, update_task_body, create_task-transaction, update_task-transaction,
}
use test_api.Store.Tasks.{
  Json, fits_task, insert_task, insert_history, insert_history_row, update_task_row, is_version,
  max_version, create_task, update_task, encoded, closed_now,
}
use test_api.Store.Tasks.Valid.{
  IsTaskValid, TasksValid, IsTaskValid-mono, Ascends-append, update_rows-valid, update_rows-Ascends,
  TasksValid-Grows,
}

-- Whatever else changes, the tasks are those that they were.
moved :
    (d d' : Database)
    → TasksValid d.tables d.next
    → d'.tables.tasks ≡ d.tables.tasks
    → Grows d.next d'.next
    → Holds TasksValid d.next d'
moved d d' v e g =
    let w = TasksValid-Grows d.tables d.next d'.next v g in
    record {
      inv = record { rows = rw e w.rows; ascending = rw e w.ascending; counted = w.counted };
      grows = g;
    }

inserted :
    (d : Database) (t : Task)
    → TasksValid d.tables d.next
    → t.id ≡ pos d.next.tasks
    → IsTaskValid (suc d.next.tasks) t
    → let n' = record d.next { tasks = suc d.next.tasks } in
      TasksValid (record d.tables { tasks = d.tables.tasks ++ t ∷ [] }) n'
inserted d t v e h = record {
  rows =
      All-append _ d.tables.tasks t
        (All-imp _ _ d.tables.tasks (IsTaskValid-mono d.next.tasks (suc d.next.tasks) (omega arith))
          v.rows)
        h;
  ascending =
      Ascends-append d.tables.tasks t
        (All-imp _ (λ u. suc (pos_part u.id) ≤ pos_part t.id) d.tables.tasks (λ u k. rw e k.below)
          v.rows)
        v.ascending;
  counted = omega arith;
}

-- The column holds the statuses of the domain.
in_status_column-valid : (s : String) → in_status_column s ≡ valid s
unfolding valid
in_status_column-valid s = refl

pub insert_task-TasksValid :
    (new : NewTask) (closed_at : Option Time)
    → IsClosedWell new.status closed_at
    → KeepsStatement TasksValid (insert_task new closed_at)
unfolding insert_task
insert_task-TasksValid new closed_at closed = record {
  at = λ d v. elim (Bool-cases (fits_task new.title new.description new.status)) [
    | inr unfit ↦ rw unfit (Holds-refl d v)
    | inl fit ↦
        elim (Bool-cases (
          not (has_team d.tables new.team_id)
          || not (has_user d.tables new.created_by)
          || not (has_user_or_null d.tables new.assignee_id))) [
            | inl unknown ↦ rw (fit, unknown) (moved d _ v refl (ground arith))
            | inr known ↦
                rw (fit, known)
                  (record {
                    inv = inserted d _ v refl (record {
                      closed_well = closed;
                      status = ground (arith, in_status_column-valid new.status);
                      above = omega (arith, v.counted);
                      below = omega arith;
                      version_above = omega arith;
                      version_below = omega arith;
                    });
                    grows = ground arith;
                  })
          ]
  ];
}

pub update_task_row-TasksValid :
    (id version : ℤ) (upd : TaskUpdate)
    → IsClosedWell upd.status upd.closed_at
    → KeepsStatement TasksValid (update_task_row id version upd)
unfolding update_task_row
update_task_row-TasksValid id version upd closed = record {
  at = λ d v. elim (Option-cases (find (is_version id version) d.tables.tasks)) [
    | inl missing ↦ rw (missing, update_task_row) (Holds-refl d v)
    | inr (t, there) ↦ elim (Bool-cases (fits_task upd.title upd.description upd.status)) [
      | inr unfit ↦ rw (there, update_task_row, unfit) (Holds-refl d v)
      | inl fit ↦ elim (Bool-cases (has_user_or_null d.tables upd.assignee_id)) [
        | inr unknown ↦ rw (there, update_task_row, fit, unknown) (Holds-refl d v)
        | inl known ↦ elim (Bool-cases (version == max_version)) [
          | inl full ↦ rw (there, update_task_row, fit, known, full) (Holds-refl d v)
          | inr small ↦
              rw (there, update_task_row, fit, known, small)
                (record {
                  inv = record {
                    rows =
                        update_rows-valid d.next.tasks id version upd d.clock d.tables.tasks closed
                          (ground (arith, in_status_column-valid upd.status)) small v.rows;
                    ascending =
                        update_rows-Ascends d.next.tasks id version upd d.clock d.tables.tasks
                          v.ascending;
                    counted = v.counted;
                  };
                  grows = ground arith;
                })
        ]
      ]
    ]
  ];
}

insert_history_row-TasksValid :
    (task_id changed_by : ℤ) (payload : String)
    → KeepsStatement TasksValid (insert_history_row task_id changed_by payload)
unfolding insert_history_row
insert_history_row-TasksValid task_id changed_by payload = record {
  at = λ d v. moved d _ v (ground arith) (ground arith);
}

encoded-TasksValid : (payload : Option String) → Keeps TasksValid (encoded payload)
encoded-TasksValid none = search store_rules
encoded-TasksValid (some s) = search store_rules

insert_history-TasksValid :
    (json : Json) (task_id changed_by : ℤ) (changes : Dict FieldChange)
    → Keeps TasksValid (insert_history json task_id changed_by changes)
unfolding insert_history
insert_history-TasksValid json task_id changed_by changes =
    search (store_rules, encoded-TasksValid, insert_history_row-TasksValid)

pub closed_now-IsClosedWell : (s : Status) (d : Database) → IsClosedWell s (closed_now s d)
closed_now-IsClosedWell s d = ground arith

create_task_body-TasksValid :
    (json : Json) (new : NewTask) (closed_at : Option Time)
    → IsClosedWell new.status closed_at
    → Keeps TasksValid (create_task_body json new closed_at)
create_task_body-TasksValid json new closed_at closed =
    search (store_rules, insert_task-TasksValid, insert_history-TasksValid) depth 8

pub create_task-TasksValid : (json : Json) (new : NewTask) → Keeps TasksValid (create_task json new)
create_task-TasksValid json new = rw (create_task-transaction json new) (
    Keeps-transaction TasksValid-Grows _ λ d.
      Keeps-Ends _
        (create_task_body-TasksValid json new (closed_now new.status d)
          (closed_now-IsClosedWell new.status d))
        d)

update_task_body-TasksValid :
    (json : Json) (id version : ℤ) (upd : TaskUpdate) (changed_by : ℤ) (changes : Dict FieldChange)
    → IsClosedWell upd.status upd.closed_at
    → Keeps TasksValid (update_task_body json id version upd changed_by changes)
update_task_body-TasksValid json id version upd changed_by changes closed =
    search (store_rules, update_task_row-TasksValid, insert_history-TasksValid) depth 8

-- An update whose time of closing fits its status.
pub update_task-TasksValid :
    (json : Json) (id version : ℤ) (upd : TaskUpdate) (changed_by : ℤ) (changes : Dict FieldChange)
    → IsClosedWell upd.status upd.closed_at
    → Keeps TasksValid (update_task json id version upd changed_by changes)
update_task-TasksValid json id version upd changed_by changes closed =
    rw (update_task-transaction json id version upd changed_by changes) (
      Keeps-transaction TasksValid-Grows _
        (Keeps-Ends _ (update_task_body-TasksValid json id version upd changed_by changes closed)))
