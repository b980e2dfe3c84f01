-- ===== src/Domain/Rules/Limits.antt =====
-- What the validation of internal/domain accepts, as bounds on the fields.
use test_api.Prelude.{
  refl, >>-eq-ok_iff, ◌≤◌, ℤ, pos, ◌≤ℤ◌, String, count, ◌≡◌, ◌≢◌, ◌↔◌, ◌⊎◌, true, Option, none,
  some, arith, eq_iff, trim_space, ok,
}
use test_api.Domain.Task.{
  Status, valid, status_todo, status_in_progress, status_done, status_cancelled,
}
use test_api.Domain.Patch.{TaskPatch}
use test_api.Domain.Rules.{
  validate_title, validate_new_task, validate, validate_comment, check_title_field,
  check_description_field, check_status_field, check_assignee_field, check_version_field,
}

abbrev pub IsStatus : Status → Type 0
IsStatus s =
    (s ≡ status_todo) ⊎ (s ≡ status_in_progress) ⊎ (s ≡ status_done) ⊎ (s ≡ status_cancelled)

pub valid_iff : (s : Status) → (valid s ≡ true) ↔ IsStatus s
unfolding valid
valid_iff s =
    ground (arith, eq_iff s "todo", eq_iff s "in_progress", eq_iff s "done", eq_iff s "cancelled")

-- What is left of a title without the spaces round it is not empty, and fits the column.
abbrev pub IsTitle : String → Type 0
IsTitle s = (trim_space s ≢ "") × (count (trim_space s) ≤ 255)

abbrev pub IsDescription : String → Type 0
IsDescription s = count s ≤ 10000

pub validate_title_iff : (s : String) → (validate_title s ≡ ok tt) ↔ IsTitle s
unfolding validate_title
validate_title_iff s = ground (arith, eq_iff (trim_space s) "")

-- A new task is accepted exactly when its title and its description fit and its status is one of
-- the four, or empty.
pub validate_new_task_iff :
    (title description : String) (status : Status)
    → (validate_new_task title description status ≡ ok tt)
      ↔ (IsTitle title × IsDescription description × ((status ≡ "") ⊎ IsStatus status))
unfolding validate_new_task
validate_new_task_iff title description status =
    ground (arith, eq_iff (trim_space title) "", eq_iff status "", valid_iff status)

abbrev pub IsPositiveOrNil : Option ℤ → Type 0
IsPositiveOrNil none = Unit
IsPositiveOrNil (some v) = pos 1 ≤ℤ v

-- What a patch must satisfy, field by field.
pub record IsAcceptable (p : TaskPatch) : Type 0 where
  pub title : p.title.set ≡ true → (p.title.valid ≡ true) × IsTitle p.title.value
  pub description :
      p.description.set ≡ true → (p.description.valid ≡ true) × IsDescription p.description.value
  pub status : p.status.set ≡ true → (p.status.valid ≡ true) × IsStatus p.status.value
  pub assignee_id :
      p.assignee_id.set ≡ true → p.assignee_id.valid ≡ true → pos 1 ≤ℤ p.assignee_id.value
  pub version : IsPositiveOrNil p.version

module _ (p : TaskPatch) where
  check_title_field_iff :
      (check_title_field p ≡ ok tt)
      ↔ (p.title.set ≡ true → (p.title.valid ≡ true) × IsTitle p.title.value)
  unfolding check_title_field
  check_title_field_iff = ground (arith, eq_iff (trim_space p.title.value) "")

  check_description_field_iff : (check_description_field p ≡ ok tt) ↔ (
      p.description.set ≡ true → (p.description.valid ≡ true) × IsDescription p.description.value)
  unfolding check_description_field
  check_description_field_iff = ground arith

  check_status_field_iff :
      (check_status_field p ≡ ok tt)
      ↔ (p.status.set ≡ true → (p.status.valid ≡ true) × IsStatus p.status.value)
  unfolding check_status_field
  check_status_field_iff = ground (arith, valid_iff p.status.value)

  check_assignee_field_iff :
      (check_assignee_field p ≡ ok tt)
      ↔ (p.assignee_id.set ≡ true → p.assignee_id.valid ≡ true → pos 1 ≤ℤ p.assignee_id.value)
  unfolding check_assignee_field
  check_assignee_field_iff = ground arith

check_version_field_iff : (v : Option ℤ) → (check_version_field v ≡ ok tt) ↔ IsPositiveOrNil v
unfolding check_version_field
check_version_field_iff none = (λ _. tt, λ _. refl)
check_version_field_iff (some v) = ground arith

-- A patch is accepted exactly when each field that is set fits: no null but for the assignee, a
-- title and a description within their lengths, a known status, and positive numbers.
pub validate_iff : (p : TaskPatch) → (validate p ≡ ok tt) ↔ IsAcceptable p
unfolding validate
validate_iff p = (to, from)
  where
    to : validate p ≡ ok tt → IsAcceptable p
    to h =
        let (a, h₁) = (>>-eq-ok_iff _ _).0 h in
        let (b, h₂) = (>>-eq-ok_iff _ _).0 h₁ in
        let (c, h₃) = (>>-eq-ok_iff _ _).0 h₂ in
        let (d, e) = (>>-eq-ok_iff _ _).0 h₃ in
        record {
          title = (check_title_field_iff p).0 a;
          description = (check_description_field_iff p).0 b;
          status = (check_status_field_iff p).0 c;
          assignee_id = (check_assignee_field_iff p).0 d;
          version = (check_version_field_iff p.version).0 e;
        }

    from : IsAcceptable p → validate p ≡ ok tt
    from f =
        rw
          (
            (check_title_field_iff p).1 f.title,
            (check_description_field_iff p).1 f.description,
            (check_status_field_iff p).1 f.status,
            (check_assignee_field_iff p).1 f.assignee_id,
          )
          ((check_version_field_iff p.version).1 f.version)

-- A comment is accepted exactly when it holds more than spaces and at most 5000 characters.
pub validate_comment_iff :
    (content : String)
    → (validate_comment content ≡ ok tt) ↔ ((trim_space content ≢ "") × (count content ≤ 5000))
unfolding validate_comment
validate_comment_iff content = ground (arith, eq_iff (trim_space content) "")
