-- ===== src/Store/Tasks/Writes/Updates.antt =====
-- The transaction of `UpdateTask`.
use test_api.Prelude.{
  ℕ, ℤ, ◌≡◌, sym, ap, ◌∙◌, false, ◌==◌, nat_eq, int_eq, Bool-cases, inl, inr, some, List, find,
  subst, arith, Dict, Option-cases,
}
use test_api.Domain.Task.{Task, TaskUpdate, FieldChange, Time}
use test_api.Store.Driver.{Database, sort_error, classify}
use test_api.Store.Schema.{has_user_or_null}
use test_api.Store.Tasks.Transactions.{update_task_body, update_task-transaction}
use test_api.Store.Tasks.{
  Json, update_task, update_task_row, update_rows, check_affected, fits_task, is_version,
  max_version,
}
use test_api.Store.Tasks.Valid.{Ascends}
use test_api.Store.Tasks.Elsewhere.{SameElsewhere, update_rows-SameElsewhere}
use test_api.Store.Tasks.Writes.{
  Answers, Answers-query, Gives-bind, Gives-query, IsAt, ChangesTeam, Writes, Writes-transaction,
  On, Post,
}
use test_api.Store.Tasks.Writes.Bodies.{Answers-Steady}
use test_api.Store.Tasks.Writes.Bodies.{
  found-any, insert_history-Answers, insert_history-Gives, check_affected-Steady,
  update_task_row-answers, answers_rules,
}

module _ (json : Json) where
  update_task_body-Answers :
      (id version : ℤ) (upd : TaskUpdate) (changed_by : ℤ) (changes : Dict FieldChange)
      → Answers (update_task_body json id version upd changed_by changes)
  update_task_body-Answers id version upd changed_by changes =
      search (answers_rules, insert_history-Answers) depth 10

-- The tasks after an update, if a row is affected.
record Affected (id version : ℤ) (upd : TaskUpdate) (ts after : List Task) : Type 0 where
  now : Time
  changed : after ≡ update_rows id version upd now ts
  ascending : Ascends ts

abbrev IfAffected : ℤ → ℤ → TaskUpdate → List Task → ℕ → List Task → Type 0
IfAffected id version upd ts affected after =
    (affected == 0) ≡ false → Affected id version upd ts after

module _ (id version : ℤ) (upd : TaskUpdate) where
  update_task_row-Post :
      (ts : List Task) (d : Database)
      → IsAt ts d
      → Post
          (IfAffected id version upd ts)
          (sort_error (update_task_row id version upd d).0 classify "update task")
          (update_task_row id version upd d).1.tables.tasks
  unfolding update_task_row
  update_task_row-Post ts d (e, v) =
      elim (Option-cases (find (is_version id version) d.tables.tasks)) [
        | inl missing ↦ rw (missing, update_task_row) λ absent. absurd (ground arith)
        | inr (t, there) ↦ elim (Bool-cases (fits_task upd.title upd.description upd.status)) [
          | inr unfit ↦ rw (there, update_task_row, unfit) tt
          | inl fit ↦ elim (Bool-cases (has_user_or_null d.tables upd.assignee_id)) [
            | inr unknown ↦ rw (there, update_task_row, fit, unknown) tt
            | inl known ↦ elim (Bool-cases (version == max_version)) [
              | inl full ↦ rw (there, update_task_row, fit, known, full) tt
              | inr small ↦
                  rw (there, update_task_row, fit, known, small)
                    λ _. record {
                      now = d.clock;
                      changed = ap (update_rows id version upd d.clock) e;
                      ascending = subst Ascends e v.ascending;
                    }
            ]
          ]
        ]
      ]

  check_affected-Post :
      (ts : List Task) (affected : ℕ) (d : Database)
      → IfAffected id version upd ts affected d.tables.tasks
      → Post
          (λ (_ : Unit). Affected id version upd ts)
          (check_affected id affected d).0
          (check_affected id affected d).1.tables.tasks
  check_affected-Post ts affected d h = elim (Bool-cases (affected == 0)) [
    | inl none_affected ↦ rw none_affected tt
    | inr some_affected ↦ rw some_affected (h some_affected)
  ]

  select_task-updated :
      (ts : List Task) (d : Database) (t : Task)
      → Affected id version upd ts d.tables.tasks
      → find (λ (t : Task). t.id == id) d.tables.tasks ≡ some t
      → SameElsewhere t.team_id ts d.tables.tasks
  select_task-updated ts d t a e = rw a.changed (
      update_rows-SameElsewhere id version upd a.now ts t a.ascending
        (ap (find (λ t. t.id == id)) (sym a.changed) ∙ e))

  module _ (json : Json) (changed_by : ℤ) (changes : Dict FieldChange) where
    update_task_body-ChangesTeam :
        ChangesTeam (update_task_body json id version upd changed_by changes)
    update_task_body-ChangesTeam ts =
        Gives-bind (IsAt ts) (IfAffected id version upd ts) _ _ _
          (Answers-query _ _ _ (update_task_row-answers id version upd))
          (Gives-query (IsAt ts) (IfAffected id version upd ts) _ _ _ (λ d fs p. p)
            (update_task_row-Post ts))
          λ affected.
            Gives-bind _ (λ _. Affected id version upd ts) _ _ _
              (Answers-Steady _ (check_affected-Steady id affected))
              (record { at = λ d h. check_affected-Post ts affected d })
              λ _.
                Gives-bind _ (λ _. Affected id version upd ts) _ _ _
                  (insert_history-Answers json _ _ _)
                  (insert_history-Gives json _ _ _ (Affected id version upd ts))
                  λ _.
                    Gives-query (On (Affected id version upd ts)) _ _ _ _ (λ d fs p. p)
                      λ d a.
                        found-any (λ t. SameElsewhere t.team_id ts) _ d
                          λ t e. select_task-updated ts d t a e

    pub update_task-Writes : Writes (update_task json id version upd changed_by changes)
    update_task-Writes = rw (update_task-transaction json id version upd changed_by changes) (
        Writes-transaction _ (update_task_body-Answers json id version upd changed_by changes)
          update_task_body-ChangesTeam)
