-- ===== src/Store/Tasks/Elsewhere.antt =====
-- The rows of the other teams, when a task of one team is inserted or updated.
use test_api.Prelude.{
  ℤ, pos_part, ◌≡◌, ◌≢◌, refl, ap, ◌∙◌, false, ◌==◌, int_eq, int_beq_iff, Bool-cases, inl, inr,
  some, List, [], ◌∷◌, ◌++◌, All, All-imp, find, select, arith,
}
use test_api.Domain.Task.{Task, TaskFilter, TaskUpdate, Time}
use test_api.Store.Tasks.{matches, list_rows, update_rows, updated, is_version}
use test_api.Store.Tasks.Valid.{Ascends}

-- Filters of other teams list the same.
abbrev pub SameElsewhere : ℤ → List Task → List Task → Type 0
SameElsewhere team_id ts ts' =
    (f : TaskFilter) → f.team_id ≢ team_id → list_rows f ts' ≡ list_rows f ts

matches-other : (f : TaskFilter) (t : Task) → f.team_id ≢ t.team_id → matches f t ≡ false
matches-other f t apart = ground (arith, int_beq_iff t.team_id f.team_id)

select-append :
    (f : TaskFilter) (ts : List Task) (t : Task)
    → f.team_id ≢ t.team_id
    → select (matches f) (ts ++ t ∷ []) ≡ select (matches f) ts
unfolding select
select-append f [] t apart = rw (matches-other f t apart) refl
select-append f (u ∷ ts) t apart = rw (select-append f ts t apart) refl

-- One more row.
pub append-SameElsewhere : (ts : List Task) (t : Task) → SameElsewhere t.team_id ts (ts ++ t ∷ [])
unfolding list_rows
append-SameElsewhere ts t f apart = rw (select-append f ts t apart) refl

module _ (id version : ℤ) (upd : TaskUpdate) (now : Time) where
  select-update_rows :
      (f : TaskFilter) (ts : List Task)
      → All (λ u. u.id ≡ id → f.team_id ≢ u.team_id) ts
      → select (matches f) (update_rows id version upd now ts) ≡ select (matches f) ts
  unfolding select update_rows
  select-update_rows f [] h = refl
  select-update_rows f (u ∷ ts) h = elim (Bool-cases (is_version id version u)) [
    | inl hit ↦
        let apart = h.0 (ground (arith, int_beq_iff u.id id)) in
        rw
          (
            hit,
            matches-other f (updated upd now u) apart,
            matches-other f u apart,
            select-update_rows f ts h.1,
          )
          refl
    | inr miss ↦ rw (miss, select-update_rows f ts h.1) refl
  ]

  -- The rows with the number are of the team of the one that is found.
  found_team :
      (ts : List Task) (t : Task)
      → Ascends ts
      → find (λ u. u.id == id) (update_rows id version upd now ts) ≡ some t
      → All (λ u. u.id ≡ id → u.team_id ≡ t.team_id) ts
  unfolding find update_rows
  found_team [] t a e = tt
  found_team (u ∷ ts) t a e = elim (Bool-cases (u.id == id)) [
    | inl here ↦ (
      λ _. ground arith,
      let same : u.id ≡ id = (int_beq_iff u.id id).0 here in
          All-imp _ _ ts
            (λ w above there. absurd (omega (arith, above, ap pos_part there, ap pos_part same)))
            a.0,
    )
    | inr elsewhere ↦
        (λ same. ground (arith, int_beq_iff u.id id), found_team ts t a.1 (ground arith))
  ]

  -- The rows of a version updated, and the task that is found by its number afterwards.
  pub update_rows-SameElsewhere :
      (ts : List Task) (t : Task)
      → Ascends ts
      → find (λ u. u.id == id) (update_rows id version upd now ts) ≡ some t
      → SameElsewhere t.team_id ts (update_rows id version upd now ts)
  unfolding list_rows
  update_rows-SameElsewhere ts t a e f apart =
      rw
        (select-update_rows f ts
          (All-imp _ _ ts (λ u same here k. apart (k ∙ same here)) (found_team ts t a e)))
        refl
