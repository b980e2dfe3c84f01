-- ===== src/Domain/Patch/Update.antt =====
-- What `Diff` and `Apply` of internal/domain/task_patch.go do together.
use test_api.Prelude.{
  ℤ, ◌≡◌, refl, true, Option, none, some, [], ◌∷◌, int_eq, eq_iff, int_beq_iff, if◌then◌else◌,
  trim_space, arith, Dict,
}
use text.Mathlib.TextPositions.{eq_refl}
use test_api.Domain.Task.{Task, FieldChange, change}
use test_api.Domain.Patch.{TaskPatch, same_assignee, next_assignee, diff, apply}

-- The task with every field of the patch put in that is set.
abbrev pub patched : Task → TaskPatch → Task
patched t p = record t {
  title = if p.title.set then trim_space p.title.value else t.title;
  description = if p.description.set then p.description.value else t.description;
  status = if p.status.set then p.status.value else t.status;
  assignee_id =
      if p.assignee_id.set
      then (if p.assignee_id.valid then some p.assignee_id.value else none)
      else t.assignee_id;
}

pub same_assignee-eq : (a b : Option ℤ) → same_assignee a b ≡ true → a ≡ b
same_assignee-eq none none h = refl
same_assignee-eq (some a) (some b) h = ground (arith, int_beq_iff a b)
same_assignee-eq none (some b) h = cc
same_assignee-eq (some a) none h = cc

pub same_assignee_refl : (a : Option ℤ) → same_assignee a a ≡ true
same_assignee_refl none = refl
same_assignee_refl (some a) = (int_beq_iff a a).1 refl

-- Applying the changes that a patch makes gives the task with the patch's fields put in, whatever
-- of them was there already.
pub apply-diff : (t : Task) (p : TaskPatch) → apply t (diff t p) ≡ patched t p
unfolding apply diff
apply-diff t p = ground (
  arith,
  eq_iff (trim_space p.title.value) t.title,
  eq_iff p.description.value t.description,
  eq_iff p.status.value t.status,
  same_assignee-eq t.assignee_id (next_assignee p),
)

-- A patch that is sent again, to the task that its changes have been applied to, changes nothing.
pub diff-apply-diff : (t : Task) (p : TaskPatch) → diff (apply t (diff t p)) p ≡ []
unfolding diff
diff-apply-diff t p = rw (apply-diff t p) ground (
  arith,
  eq_refl (trim_space p.title.value),
  eq_refl p.description.value,
  eq_refl p.status.value,
  same_assignee_refl (next_assignee p),
)

-- The changes of a history entry, each turned round.
abbrev pub undo : Dict FieldChange → Dict FieldChange
undo [] = []
undo ((field, c) ∷ changes) = (field, change c.to c.from) ∷ undo changes

-- The changes that a patch makes hold enough to take the update back.
pub apply-undo-diff : (t : Task) (p : TaskPatch) → apply (apply t (diff t p)) (undo (diff t p)) ≡ t
unfolding apply diff
apply-undo-diff t p = ground arith
