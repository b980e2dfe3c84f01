-- ===== src/Domain/Patch.antt =====
-- internal/domain/task_patch.go: a partial update of a task, the changes that it makes, and their
-- application. Validation is in `Rules`, beside the rules for a new task.
pub mod Update
use test_api.Prelude.{
  ℤ, String, Bool, true, false, not, ◌&&◌, Option, none, some, [], ◌==◌, ◌!=◌, string_eq, int_eq,
  if◌then◌else◌, Dict, insert, lookup, trim_space,
}
use test_api.Domain.Optional.{Optional}
use test_api.Domain.Task.{
  Task, Status, Any, str, status, id, FieldChange, change, field_title, field_description,
  field_status, field_assignee,
}

pub record TaskPatch : Type 0 where
  pub title : Optional String
  pub description : Optional String
  pub status : Optional Status
  pub assignee_id : Optional ℤ
  pub version : Option ℤ

unfoldable pub empty : TaskPatch → Bool
empty p = not p.title.set && not p.description.set && not p.status.set && not p.assignee_id.set

abbrev pub same_assignee : Option ℤ → Option ℤ → Bool
same_assignee none none = true
same_assignee (some a) (some b) = a == b
same_assignee none (some b) = false
same_assignee (some a) none = false

-- The steps of `Diff`, each on the map that the steps before it have filled.
abbrev pub diff_title : Task → TaskPatch → Dict FieldChange → Dict FieldChange
diff_title task patch changes =
    let next = trim_space patch.title.value in
    if patch.title.set && next != task.title
    then insert field_title (change (str task.title) (str next)) changes
    else changes

abbrev pub diff_description : Task → TaskPatch → Dict FieldChange → Dict FieldChange
diff_description task patch changes =
    if patch.description.set && patch.description.value != task.description
    then insert field_description (change (str task.description) (str patch.description.value))
        changes
    else changes

abbrev pub diff_status : Task → TaskPatch → Dict FieldChange → Dict FieldChange
diff_status task patch changes =
    if patch.status.set && patch.status.value != task.status
    then insert field_status (change (status task.status) (status patch.status.value)) changes
    else changes

-- The pointer that `assignee_id` of a patch stands for: nil for null.
abbrev pub next_assignee : TaskPatch → Option ℤ
next_assignee patch = if patch.assignee_id.valid then some patch.assignee_id.value else none

abbrev pub diff_assignee : Task → TaskPatch → Dict FieldChange → Dict FieldChange
diff_assignee task patch changes =
    let next = next_assignee patch in
    if patch.assignee_id.set && not (same_assignee task.assignee_id next)
    then insert field_assignee (change (id task.assignee_id) (id next)) changes
    else changes

unfoldable pub diff : Task → TaskPatch → Dict FieldChange
unfolding insert
diff task patch =
    diff_assignee task patch
      (diff_status task patch (diff_description task patch (diff_title task patch [])))

-- `c.To.(string)` and the like: the zero value where the dynamic type is another.
abbrev pub as_string : Any → String
as_string (str s) = s
as_string _ = ""

abbrev pub as_status : Any → Status
as_status (status s) = s
as_status _ = ""

abbrev pub as_id : Any → Option ℤ
as_id (id a) = a
as_id _ = none

-- The steps of `Apply`.
abbrev pub apply_title : Option FieldChange → Task → Task
apply_title none task = task
apply_title (some c) task = record task { title = as_string c.to }

abbrev pub apply_description : Option FieldChange → Task → Task
apply_description none task = task
apply_description (some c) task = record task { description = as_string c.to }

abbrev pub apply_status : Option FieldChange → Task → Task
apply_status none task = task
apply_status (some c) task = record task { status = as_status c.to }

abbrev pub apply_assignee : Option FieldChange → Task → Task
apply_assignee none task = task
apply_assignee (some c) task = record task { assignee_id = as_id c.to }

unfoldable pub apply : Task → Dict FieldChange → Task
unfolding lookup
apply task changes = apply_assignee (lookup field_assignee changes) (
    apply_status (lookup field_status changes) (
      apply_description (lookup field_description changes)
        (apply_title (lookup field_title changes) task)))
