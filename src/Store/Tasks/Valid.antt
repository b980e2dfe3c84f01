-- ===== src/Store/Tasks/Valid.antt =====
-- The rows of `tasks`: what a valid one is.
pub mod Methods
use test_api.Prelude.{
  ℕ, suc, ℤ, pos, pos_part, ◌≡◌, ◌≤◌, ◌≤ℤ◌, refl, true, false, not, ◌||◌, ◌==◌, int_eq, Bool-cases,
  inl, inr, Option, none, some, List, [], ◌∷◌, ◌++◌, All, All-append, All-imp, arith, find,
  int_beq_iff, nat_beq_iff, ◌≢◌, negsuc, Dict, Option-cases, String,
}
use test_api.Domain.Task.{Task, NewTask, TaskUpdate, Time, Status, valid, FieldChange}
use test_api.Domain.Task.Closing.{IsClosedWell}
use test_api.Store.Schema.{Tables, Counters, has_team, has_user, has_user_or_null}
use test_api.Store.Driver.{Database}
use test_api.Store.Driver.Keeps.{
  Keeps, KeepsStatement, Holds, Holds-refl, Grows, Keeps-transaction, Keeps-Ends, store_rules,
}
use test_api.Store.Steady.{SameTasks}
use test_api.Store.Tasks.{
  Json, fits_task, insert_task, insert_history, insert_history_row, update_task_row, update_rows,
  updated, is_version, max_version, create_task, update_task, encoded, closed_now,
}

-- A row: its time of closing fits its status, which is one of the four, its number has been given
-- out, and its version has not passed what the column holds.
pub record IsTaskValid (next : ℕ) (t : Task) : Type 0 where
  pub closed_well : IsClosedWell t.status t.closed_at
  pub status : valid t.status ≡ true
  pub above : pos 1 ≤ℤ t.id
  pub below : suc (pos_part t.id) ≤ next
  pub version_above : pos 1 ≤ℤ t.version
  pub version_below : t.version ≤ℤ max_version

-- Each number is below the later ones.
abbrev pub Ascends : List Task → Type 0
Ascends [] = Unit
Ascends (t ∷ ts) = All (λ u. suc (pos_part t.id) ≤ pos_part u.id) ts × Ascends ts

pub record TasksValid (t : Tables) (n : Counters) : Type 0 where
  pub rows : All (IsTaskValid n.tasks) t.tasks
  pub ascending : Ascends t.tasks
  pub counted : 1 ≤ n.tasks

pub IsTaskValid-mono : (n n' : ℕ) → n ≤ n' → (t : Task) → IsTaskValid n t → IsTaskValid n' t
IsTaskValid-mono n n' up t h = record {
  closed_well = h.closed_well;
  status = h.status;
  above = h.above;
  below = omega (arith, h.below);
  version_above = h.version_above;
  version_below = h.version_below;
}

pub TasksValid-Grows :
    (t : Tables) (n n' : Counters) → TasksValid t n → Grows n n' → TasksValid t n'
TasksValid-Grows t n n' v g = record {
  rows = All-imp _ _ t.tasks (IsTaskValid-mono n.tasks n'.tasks g.tasks) v.rows;
  ascending = v.ascending;
  counted = omega (arith, v.counted, g.tasks);
}

pub Ascends-append :
    (ts : List Task) (t : Task)
    → All (λ u. suc (pos_part u.id) ≤ pos_part t.id) ts
    → Ascends ts
    → Ascends (ts ++ t ∷ [])
Ascends-append [] t h a = (tt, tt)
Ascends-append (u ∷ ts) t h a = (All-append _ ts t a.0 h.0, Ascends-append ts t h.1 a.1)

next_version :
    (v : ℤ) → v ≤ℤ max_version → (v == max_version) ≡ false → pos (suc (pos_part v)) ≤ℤ max_version
next_version (pos n) h k =
    let apart : n ≢ 4294967295 = λ e. ground (arith, k, (nat_beq_iff n 4294967295).1 e) in
    omega (arith, h, apart)
next_version (negsuc n) h k = omega arith

-- An update of a row leaves it valid.
updated-IsTaskValid :
    (n : ℕ) (upd : TaskUpdate) (now : Time) (t : Task)
    → IsClosedWell upd.status upd.closed_at
    → valid upd.status ≡ true
    → (t.version == max_version) ≡ false
    → IsTaskValid n t
    → IsTaskValid n (updated upd now t)
updated-IsTaskValid n upd now t closed known small h = record {
  closed_well = closed;
  status = known;
  above = h.above;
  below = h.below;
  version_above = omega arith;
  version_below = next_version t.version h.version_below small;
}

module _ (n : ℕ) (id version : ℤ) (upd : TaskUpdate) (now : Time) where
  pub update_rows-valid :
      (ts : List Task)
      → IsClosedWell upd.status upd.closed_at
      → valid upd.status ≡ true
      → (version == max_version) ≡ false
      → All (IsTaskValid n) ts
      → All (IsTaskValid n) (update_rows id version upd now ts)
  unfolding update_rows
  update_rows-valid [] closed known small h = tt
  update_rows-valid (t ∷ ts) closed known small h =
      let rest = update_rows-valid ts closed known small h.1 in
      elim (Bool-cases (is_version id version t)) [
        | inl hit ↦
            let same : t.version ≡ version = ground (arith, int_beq_iff t.version version) in
            rw hit (updated-IsTaskValid n upd now t closed known (rw same small) h.0, rest)
        | inr miss ↦ rw miss (h.0, rest)
      ]

  update_rows-above :
      (k : ℕ) (ts : List Task)
      → All (λ u. suc k ≤ pos_part u.id) ts
      → All (λ u. suc k ≤ pos_part u.id) (update_rows id version upd now ts)
  unfolding update_rows
  update_rows-above k [] h = tt
  update_rows-above k (t ∷ ts) h = elim (Bool-cases (is_version id version t)) [
    | inl hit ↦ rw hit (h.0, update_rows-above k ts h.1)
    | inr miss ↦ rw miss (h.0, update_rows-above k ts h.1)
  ]

  pub update_rows-Ascends :
      (ts : List Task) → Ascends ts → Ascends (update_rows id version upd now ts)
  unfolding update_rows
  update_rows-Ascends [] h = tt
  update_rows-Ascends (t ∷ ts) h = elim (Bool-cases (is_version id version t)) [
    | inl hit ↦ rw hit (update_rows-above (pos_part t.id) ts h.0, update_rows-Ascends ts h.1)
    | inr miss ↦ rw miss (update_rows-above (pos_part t.id) ts h.0, update_rows-Ascends ts h.1)
  ]

pub TasksValid-same :
    (d d' : Database) → TasksValid d.tables d.next → SameTasks d d' → TasksValid d'.tables d'.next
TasksValid-same d d' v h = record {
  rows =
      rw h.tasks
        (All-imp _ _ d.tables.tasks (IsTaskValid-mono d.next.tasks d'.next.tasks h.grows) v.rows);
  ascending = rw h.tasks v.ascending;
  counted = omega (arith, v.counted, h.grows);
}
