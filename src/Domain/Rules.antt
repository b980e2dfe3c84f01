-- ===== src/Domain/Rules.antt =====
-- internal/domain/task_rules.go, the validation of task_patch.go, and internal/domain/comment.go.
pub mod Limits
pub mod Authorization
use test_api.Prelude.{
  ℕ, ℤ, pos, String, count, Bool, false, not, ◌&&◌, ◌||◌, Option, none, some, List, [], ◌∷◌, ◌==◌,
  ◌!=◌, string_eq, int_eq, ltb, leb_ℤ, if◌then◌else◌, Dict, trim_space, Result, ok, err, ◌>>◌,
  raise_if, when,
}
use test_api.Domain.Errors.{Error, int, text, invalid, forbidden}
use test_api.Domain.Role.{Role, can_edit_any_task}
use test_api.Domain.Task.{
  Task, Status, valid, FieldChange, field_title, field_description, field_status, field_assignee,
}
use test_api.Domain.Patch.{TaskPatch}

abbrev pub max_title_len : ℕ
max_title_len = 255

abbrev pub max_description_len : ℕ
max_description_len = 10000

abbrev pub max_comment_len : ℕ
max_comment_len = 5000

abbrev pub creator_fields : List String
creator_fields = field_title ∷ field_description ∷ field_status ∷ field_assignee ∷ []

abbrev pub assignee_fields : List String
assignee_fields = field_status ∷ []

-- An error or nil.
abbrev pub Check : Type 0
Check = Result Error Unit

unfoldable pub validate_title : String → Check
validate_title title = do
  let trimmed = trim_space title
  raise_if (trimmed == "") (invalid "title must not be empty" [])
  raise_if (ltb max_title_len (count trimmed))
      (invalid "title must be at most %d characters" (int (pos max_title_len) ∷ []))

abbrev check_description : String → Check
check_description description =
    raise_if (ltb max_description_len (count description))
      (invalid "description must be at most %d characters" (int (pos max_description_len) ∷ []))

unfoldable pub validate_new_task : String → String → Status → Check
unfolding validate_title valid
validate_new_task title description status = do
  validate_title title
  check_description description
  raise_if (status != "" && not (valid status)) (invalid "unknown status %q" (text status ∷ []))

-- The blocks of `TaskPatch.Validate`, one for each field of the patch.
unfoldable pub check_title_field : TaskPatch → Check
unfolding validate_title
check_title_field p = when p.title.set do
  raise_if (not p.title.valid) (invalid "title cannot be null" [])
  validate_title p.title.value

unfoldable pub check_description_field : TaskPatch → Check
check_description_field p = when p.description.set do
  raise_if (not p.description.valid) (invalid "description cannot be null" [])
  check_description p.description.value

unfoldable pub check_status_field : TaskPatch → Check
unfolding valid
check_status_field p = when p.status.set do
  raise_if (not p.status.valid) (invalid "status cannot be null" [])
  raise_if (not (valid p.status.value)) (invalid "unknown status %q" (text p.status.value ∷ []))

unfoldable pub check_assignee_field : TaskPatch → Check
check_assignee_field p =
    raise_if (p.assignee_id.set && p.assignee_id.valid && leb_ℤ p.assignee_id.value (pos 0))
      (invalid "assignee_id must be a positive integer" [])

unfoldable pub check_version_field : Option ℤ → Check
check_version_field none = ok tt
check_version_field (some v) =
    raise_if (leb_ℤ v (pos 0)) (invalid "version must be a positive integer" [])

-- `TaskPatch.Validate`
unfoldable pub validate : TaskPatch → Check
validate p = do
  check_title_field p
  check_description_field p
  check_status_field p
  check_assignee_field p
  check_version_field p.version

unfoldable pub validate_comment : String → Check
validate_comment content = do
  raise_if (trim_space content == "") (invalid "content must not be empty" [])
  raise_if (ltb max_comment_len (count content))
      (invalid "content must be at most %d characters" (int (pos max_comment_len) ∷ []))

pub record Actor : Type 0 where
  pub user_id : ℤ
  pub role : Role

-- `slices.Contains`
unfoldable pub contains : List String → String → Bool
contains [] s = false
contains (x ∷ xs) s = x == s || contains xs s

unfoldable pub require_fields : Dict FieldChange → List String → String → Check
unfolding contains
require_fields [] allowed reason = ok tt
require_fields ((field, _) ∷ changes) allowed reason = do
  raise_if (not (contains allowed field))
      (forbidden "%s (rejected field %q)" (text reason ∷ text field ∷ []))
  require_fields changes allowed reason

abbrev is_assignee : Option ℤ → ℤ → Bool
is_assignee none user = false
is_assignee (some a) user = a == user

unfoldable pub authorize_task_update : Actor → Task → Dict FieldChange → Check
unfolding require_fields can_edit_any_task
authorize_task_update actor task [] = ok tt
authorize_task_update actor task (c ∷ changes) =
    if can_edit_any_task actor.role
    then ok tt
    else if task.created_by == actor.user_id
    then require_fields (c ∷ changes) creator_fields
        "task creators can change title, description, status and assignee only"
    else if is_assignee task.assignee_id actor.user_id
    then require_fields (c ∷ changes) assignee_fields
        "assignees can change status only and cannot reassign task"
    else err (forbidden "only task creator, its assignee or a team admin can edit this task" [])
