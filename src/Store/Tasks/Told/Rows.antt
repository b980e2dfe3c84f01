-- ===== src/Store/Tasks/Told/Rows.antt =====
-- The row of a number, and what keeps the histories as they are.
use test_api.Prelude.{
  ℤ, ◌≡◌, refl, ap, subst, ◌==◌, int_eq, int_beq_iff, Bool-cases, inl, inr, ◌⊎◌, some, Option-cases,
  List, [], ◌∷◌, All, All-imp, ok, err, find, arith, pos_part,
}
use test_api.Domain.Errors.{Failure, other, no_rows}
use test_api.Domain.Task.{Task}
use test_api.Store.Driver.{Database, Fault, works, fails, is_lost, run, no_rows_error}
use test_api.Store.Steady.{SameTasks}
use test_api.Store.Tasks.{Json, task_by_id}
use test_api.Store.Tasks.Valid.{Ascends, TasksValid-same}
use test_api.Store.Tasks.Told.{TasksTold}

-- Of a number, there is one row.
pub unique_row :
    (id : ℤ) (ts : List Task) (t : Task)
    → Ascends ts
    → find (λ (t : Task). t.id == id) ts ≡ some t
    → All (λ u. u.id ≡ id → u ≡ t) ts
unfolding find
unique_row id [] t a e = tt
unique_row id (u ∷ ts) t a e = elim (Bool-cases (u.id == id)) [
  | inl hit ↦
      let same : u.id ≡ id = (int_beq_iff u.id id).0 hit in
      let first : u ≡ t = ground arith in
      (
        λ _. first,
        All-imp _ _ ts
            (λ w above there. absurd (omega (arith, above, ap pos_part there, ap pos_part same)))
            a.0,
      )
  | inr miss ↦ (λ here. ground (arith, int_beq_iff u.id id), unique_row id ts t a.1 (ground arith))
]

pub found_number :
    (id : ℤ) (ts : List Task) (t : Task) → find (λ (t : Task). t.id == id) ts ≡ some t → t.id ≡ id
unfolding find
found_number id [] t e = cc
found_number id (u ∷ ts) t e = elim (Bool-cases (u.id == id)) [
  | inl hit ↦
      let first : u ≡ t = ground arith in subst (λ x. x.id ≡ id) first ((int_beq_iff u.id id).0 hit)
  | inr miss ↦ found_number id ts t (ground arith)
]

-- The row that is found, or an error.
pub task_by_id-rows :
    (id : ℤ) (d : Database) (fs : List Fault)
    → d.faults ≡ fs
    → ((t : Task) × ((task_by_id id d).0 ≡ ok t)
        × (find (λ (t : Task). t.id == id) d.tables.tasks ≡ some t))
      ⊎ ((e : Failure) × ((task_by_id id d).0 ≡ err e))
unfolding task_by_id run
task_by_id-rows id d [] e = elim (Option-cases (find (λ (t : Task). t.id == id) d.tables.tasks)) [
  | inl missing ↦ inr (no_rows_error no_rows "scan task", rw (e, run, missing) refl)
  | inr (t, there) ↦ inl (t, rw (e, run, there) refl, there)
]
task_by_id-rows id d (works ∷ rest) e =
    elim (Option-cases (find (λ (t : Task). t.id == id) d.tables.tasks)) [
      | inl missing ↦ inr (no_rows_error no_rows "scan task", rw (e, run, missing) refl)
      | inr (t, there) ↦ inl (t, rw (e, run, there) refl, there)
    ]
task_by_id-rows id d (fails why ∷ rest) e =
    inr (no_rows_error (other why) "scan task", rw (e, run) refl)
task_by_id-rows id d (is_lost why ∷ rest) e =
    inr (no_rows_error (other why) "scan task", rw (e, run) refl)

pub TasksTold-same :
    (json : Json) (d d' : Database)
    → TasksTold json d.tables d.next
    → SameTasks d d'
    → TasksTold json d'.tables d'.next
TasksTold-same json d d' t h = record {
  valid = TasksValid-same d d' t.valid h;
  told = rw (h.tasks, h.history) t.told;
  known =
      rw h.history (All-imp _ _ d.tables.task_history (λ r k. omega (arith, k, h.grows)) t.known);
}
