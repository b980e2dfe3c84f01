-- ===== src/Store/Tasks/Told/Keeping.antt =====
-- An update of a row and the entry that tells of it, in internal/store/task.go.
use test_api.Prelude.{
  ℕ, suc, ℤ, pos_part, ◌≡◌, ◌≢◌, ◌≤◌, ◌⊎◌, inl, inr, refl, sym, ap, ◌∙◌, subst, Bool, true, false,
  not, ◌||◌, int_eq, nat_eq, int_beq_iff, Bool-cases, some, Option-cases, List, [], ◌∷◌, ◌++◌, All,
  All-append, All-imp, Dict, String, arith, find, if◌then◌else◌,
}
use test_api.Domain.Task.{Task, TaskUpdate, FieldChange, Time}
use test_api.Domain.Patch.{apply}
use test_api.Store.Schema.{Tables, Counters, HistoryRow, has_task, has_user}
use test_api.Store.Driver.{Database, query, classify}
use test_api.Store.Driver.Keeps.{Ends, query-Ends}
use test_api.Store.Tasks.{
  Json, insert_history, insert_history_row, update_rows, updated, is_version,
}
use test_api.Store.Tasks.Valid.{TasksValid, Ascends}
use test_api.Store.Tasks.Told.{
  blank, SameFields, SameFields-trans, apply-SameFields, Replay, Replay-passed, Replay-applied,
  IsTold, TasksTold,
}

-- The row that is found is one of the rows.
pub find-All :
    {A : Type 0} (P : A → Type 0) (p : A → Bool) (xs : List A) (x : A)
    → All P xs
    → find p xs ≡ some x
    → P x × (p x ≡ true)
unfolding find
find-All P p [] x h e = cc
find-All P p (y ∷ xs) x h e = elim (Bool-cases (p y)) [
  | inl hit ↦
      let same : y ≡ x = ground arith in (subst P same h.0, subst (λ z. p z ≡ true) same hit)
  | inr miss ↦ find-All P p xs x h.1 (ground arith)
]

-- Of a number, there is one row.
pub unique_version :
    (id version : ℤ) (ts : List Task) (t : Task)
    → Ascends ts
    → find (is_version id version) ts ≡ some t
    → All (λ u. u.id ≡ id → is_version id version u ≡ true) ts
unfolding find
unique_version id version [] t a e = tt
unique_version id version (u ∷ ts) t a e = elim (Bool-cases (is_version id version u)) [
  | inl hit ↦
      let same : u.id ≡ id = ground (arith, int_beq_iff u.id id) in
      (
        λ _. hit,
        All-imp _ _ ts
            (λ w above there. absurd (omega (arith, above, ap pos_part there, ap pos_part same)))
            a.0,
      )
  | inr miss ↦
      let later : find (is_version id version) ts ≡ some t = ground arith in
      let (above, there) = find-All _ (is_version id version) ts t a.0 later in
      let same : t.id ≡ id = ground (arith, int_beq_iff t.id id) in
      (
        λ here. absurd (omega (arith, above, ap pos_part here, ap pos_part same)),
        unique_version id version ts t a.1 later,
      )
]

-- The fields of an update are those that its changes give, for each row of the version.
abbrev pub Fits : ℤ → ℤ → TaskUpdate → Dict FieldChange → List Task → Type 0
Fits id version upd changes ts =
    All
      (λ u.
        (now : Time)
        → is_version id version u ≡ true
        → SameFields (apply u changes) (updated upd now u))
      ts

module _ (json : Json) where
  -- A row that waits for one more entry, if it has the number.
  abbrev pub IsBehind : ℤ → Dict FieldChange → List HistoryRow → Task → Type 0
  IsBehind id changes rows u =
      ((u.id ≡ id)
        × (end : Task) × Replay json u.id blank rows end
        × SameFields (apply end changes) u)
      ⊎ ((u.id ≢ id) × IsTold json rows u)

  behind-IsTold :
      (id : ℤ) (changes : Dict FieldChange) (rows : List HistoryRow) (r : HistoryRow) (u : Task)
      → r.task_id ≡ id
      → json.marshal changes ≡ some r.changes
      → IsBehind id changes rows u
      → IsTold json (rows ++ r ∷ []) u
  behind-IsTold id changes rows r u number text (inl (here, end, replay, same)) = record {
    end = apply end changes;
    replay = Replay-applied json u.id blank end rows r changes (number ∙ sym here) text replay;
    same = same;
  }
  behind-IsTold id changes rows r u number text (inr (elsewhere, told)) = record {
    end = told.end;
    replay =
        Replay-passed json u.id blank told.end rows r (λ e. elsewhere (sym e ∙ number)) told.replay;
    same = told.same;
  }

  updated-IsBehind :
      (id version : ℤ) (upd : TaskUpdate) (changes : Dict FieldChange) (now : Time)
      (rows : List HistoryRow) (u : Task)
      → IsTold json rows u
      → (u.id ≡ id → is_version id version u ≡ true)
      → (is_version id version u ≡ true → SameFields (apply u changes) (updated upd now u))
      → IsBehind id changes rows (if is_version id version u then updated upd now u else u)
  updated-IsBehind id version upd changes now rows u told unique fits =
      elim (Bool-cases (is_version id version u)) [
        | inl hit ↦
            let here : u.id ≡ id = ground (arith, int_beq_iff u.id id) in
            rw hit (
              inl (
                here,
                told.end,
                told.replay,
                SameFields-trans _ _ _ (apply-SameFields told.end u changes told.same) (fits hit),
              ))
        | inr miss ↦
            rw miss (inr (λ here. let both : true ≡ false = sym (unique here) ∙ miss in cc, told))
      ]

  pub update_rows-IsBehind :
      (id version : ℤ) (upd : TaskUpdate) (changes : Dict FieldChange) (now : Time)
      (rows : List HistoryRow) (ts : List Task)
      → All (IsTold json rows) ts
      → All (λ u. u.id ≡ id → is_version id version u ≡ true) ts
      → Fits id version upd changes ts
      → All (IsBehind id changes rows) (update_rows id version upd now ts)
  unfolding update_rows
  update_rows-IsBehind id version upd changes now rows [] told unique fits = tt
  update_rows-IsBehind id version upd changes now rows (u ∷ ts) told unique fits = (
    updated-IsBehind id version upd changes now rows u told.0 unique.0 (fits.0 now),
    update_rows-IsBehind id version upd changes now rows ts told.1 unique.1 fits.1,
  )

  -- The tasks wait for one more entry of the number.
  pub record TasksBehind (id : ℤ) (changes : Dict FieldChange) (t : Tables) (n : Counters)
      : Type 0 where
    pub valid : TasksValid t n
    pub behind : All (IsBehind id changes t.task_history) t.tasks
    pub known : All (λ r. suc (pos_part r.task_id) ≤ n.tasks) t.task_history
    pub given : suc (pos_part id) ≤ n.tasks

  entered :
      (id : ℤ) (changes : Dict FieldChange) (t : Tables) (n : Counters) (r : HistoryRow) (next : ℕ)
      → TasksBehind id changes t n
      → r.task_id ≡ id
      → json.marshal changes ≡ some r.changes
      → TasksTold json
          (record t { task_history = t.task_history ++ r ∷ [] })
          (record n { task_history = next })
  entered id changes t n r next b number text = record {
    valid = record {
      rows = b.valid.rows;
      ascending = b.valid.ascending;
      counted = b.valid.counted;
    };
    told =
        All-imp (IsBehind id changes t.task_history) _ t.tasks
          (λ u. behind-IsTold id changes t.task_history r u number text) b.behind;
    known = All-append _ t.task_history r b.known (rw number b.given);
  }

  insert_history_row-Ends :
      (id user : ℤ) (changes : Dict FieldChange) (payload : String) (d : Database) (op : String)
      → json.marshal changes ≡ some payload
      → TasksBehind id changes d.tables d.next
      → Ends (λ _. TasksTold json) d.next (query (insert_history_row id user payload) classify op d)
  unfolding insert_history_row
  insert_history_row-Ends id user changes payload d op text b =
      query-Ends (λ _. TasksTold json) (insert_history_row id user payload) classify op d
        λ rest. elim (Bool-cases (not (has_task d.tables id) || not (has_user d.tables user))) [
          | inl unknown ↦ rw unknown (omega arith)
          | inr known ↦ rw known (entered id changes d.tables d.next _ _ b refl text, omega arith)
        ]

  pub insert_history-Ends :
      (id user : ℤ) (changes : Dict FieldChange) (d : Database)
      → TasksBehind id changes d.tables d.next
      → Ends (λ _. TasksTold json) d.next (insert_history json id user changes d)
  unfolding insert_history
  insert_history-Ends id user changes d b = elim (Option-cases (json.marshal changes)) [
    | inl unencoded ↦ rw unencoded (omega arith)
    | inr (payload, text) ↦
        rw text (insert_history_row-Ends id user changes payload d "insert task history" text b)
  ]
