-- ===== src/Domain/Rules/Authorization.antt =====
-- Who may change what of a task: `AuthorizeTaskUpdate` of internal/domain/task_rules.go.
use test_api.Prelude.{
  ℤ, String, ◌≡◌, refl, ◌↔◌, ◌⊎◌, inl, inr, true, Option, none, some, List, [], ◌∷◌, ap, Bool-cases,
  int_eq, arith, eq_iff, int_beq_iff, ok, Dict, All, ◌==◌, string_eq,
}
use test_api.Domain.Role.{Role, role_owner, role_admin, can_edit_any_task}
use test_api.Domain.Task.{Task, FieldChange, field_status}
use test_api.Domain.Patch.{TaskPatch, diff}
use test_api.Domain.Rules.{
  Actor, contains, require_fields, creator_fields, assignee_fields, authorize_task_update,
  is_assignee,
}

pub require_fields_iff :
    (changes : Dict FieldChange) (allowed : List String) (reason : String)
    → (require_fields changes allowed reason ≡ ok tt)
      ↔ All (λ e. contains allowed e.0 ≡ true) changes
unfolding require_fields
require_fields_iff [] allowed reason = (λ _. tt, λ _. refl)
require_fields_iff ((f, c) ∷ changes) allowed reason =
    ground (arith, require_fields_iff changes allowed reason)

abbrev pub OnlyStatus : Dict FieldChange → Type 0
OnlyStatus = All (λ e. e.0 ≡ field_status)

abbrev pub IsManager : Role → Type 0
IsManager r = (r ≡ role_owner) ⊎ (r ≡ role_admin)

pub can_edit_any_task_iff : (r : Role) → (can_edit_any_task r ≡ true) ↔ IsManager r
unfolding can_edit_any_task
can_edit_any_task_iff r = ground (arith, eq_iff r "owner", eq_iff r "admin")

diff-creator_fields :
    (t : Task) (p : TaskPatch) → All (λ e. contains creator_fields e.0 ≡ true) (diff t p)
unfolding diff contains
diff-creator_fields t p = ground arith

contains-assignee_fields :
    (changes : Dict FieldChange)
    → All (λ e. contains assignee_fields e.0 ≡ true) changes ↔ OnlyStatus changes
unfolding contains
contains-assignee_fields [] = (λ _. tt, λ _. tt)
contains-assignee_fields ((f, c) ∷ changes) =
    ground (arith, contains-assignee_fields changes, eq_iff "status" f)

is_assignee-eq : (a : Option ℤ) (user : ℤ) → is_assignee a user ≡ true → a ≡ some user
is_assignee-eq none user h = cc
is_assignee-eq (some a) user h = ap some ((int_beq_iff a user).0 h)

-- Why an actor may make the changes to the task.
pub data MayUpdate (actor : Actor) (t : Task) (changes : Dict FieldChange) : Type 0 where
  unchanged : changes ≡ [] → MayUpdate actor t changes
  manager : IsManager actor.role → MayUpdate actor t changes
  creator : t.created_by ≡ actor.user_id → MayUpdate actor t changes
  assignee : t.assignee_id ≡ some actor.user_id → OnlyStatus changes → MayUpdate actor t changes

module _ (actor : Actor) (t : Task) where
  authorize-MayUpdate :
      (changes : Dict FieldChange)
      → authorize_task_update actor t changes ≡ ok tt
      → MayUpdate actor t changes
  unfolding authorize_task_update
  authorize-MayUpdate [] h = unchanged refl
  authorize-MayUpdate (c ∷ changes) h = elim (Bool-cases (can_edit_any_task actor.role)) [
    | inl edits ↦ manager ((can_edit_any_task_iff actor.role).0 edits)
    | inr other ↦ elim (Bool-cases (t.created_by == actor.user_id)) [
      | inl mine ↦ creator ((int_beq_iff _ _).0 mine)
      | inr foreign ↦ elim (Bool-cases (is_assignee t.assignee_id actor.user_id)) [
        | inl assigned ↦ assignee (is_assignee-eq t.assignee_id actor.user_id assigned) (
            (contains-assignee_fields (c ∷ changes)).0 (
              (require_fields_iff (c ∷ changes) assignee_fields _).0
                (rw (other, foreign, assigned, authorize_task_update) at h)))
        | inr stranger ↦ ground arith
      ]
    ]
  ]

  MayUpdate-authorize :
      (changes : Dict FieldChange)
      → All (λ e. contains creator_fields e.0 ≡ true) changes
      → MayUpdate actor t changes
      → authorize_task_update actor t changes ≡ ok tt
  unfolding authorize_task_update
  MayUpdate-authorize [] fields may = refl
  MayUpdate-authorize (c ∷ changes) fields (unchanged e) = cc
  MayUpdate-authorize (c ∷ changes) fields (manager m) = rw ((can_edit_any_task_iff actor.role).1 m)
  MayUpdate-authorize (c ∷ changes) fields (creator e) = ground (
    arith,
    require_fields_iff (c ∷ changes) creator_fields
        "task creators can change title, description, status and assignee only",
    int_beq_iff t.created_by actor.user_id,
  )
  MayUpdate-authorize (c ∷ changes) fields (assignee e only) = ground (
    arith,
    require_fields_iff (c ∷ changes) creator_fields
        "task creators can change title, description, status and assignee only",
    require_fields_iff (c ∷ changes) assignee_fields
        "assignees can change status only and cannot reassign task",
    contains-assignee_fields (c ∷ changes),
    int_beq_iff actor.user_id actor.user_id,
  )

-- The changes that a patch makes to a task are allowed exactly when there are none, the actor is
-- an owner or an admin of the team, the actor created the task, or the task is assigned to the
-- actor and nothing but its status changes.
pub authorize-diff_iff :
    (actor : Actor) (t : Task) (p : TaskPatch)
    → (authorize_task_update actor t (diff t p) ≡ ok tt) ↔ MayUpdate actor t (diff t p)
authorize-diff_iff actor t p = (
  authorize-MayUpdate actor t (diff t p),
  MayUpdate-authorize actor t (diff t p) (diff-creator_fields t p),
)
