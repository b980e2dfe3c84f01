-- ===== src/Store/Tasks/Writes/Bodies.antt =====
-- The transaction of `CreateTask`, and what it shares with the one of `UpdateTask`.
use test_api.Prelude.{
  ℕ, ℤ, pos, pos_part, ◌≡◌, ◌≢◌, refl, ap, ◌∙◌, not, ◌||◌, ◌==◌, nat_eq, int_eq, Bool-cases, inl,
  inr, Option, none, some, List, [], ◌∷◌, ◌++◌, All, All-imp, find, subst, arith, String, Dict,
  int_beq_iff, Option-cases,
}
use test_api.Domain.Task.{Task, NewTask, TaskUpdate, FieldChange, Time}
use test_api.Store.Driver.{Database, Method, sort_error, query, classify, no_rows_error, found}
use test_api.Store.Schema.{has_task, has_team, has_user, has_user_or_null}
use test_api.Store.Steady.{Steady, SteadyStatement, steady_rules}
use test_api.Store.Tasks.Transactions.{create_task_body, create_task-transaction}
use test_api.Store.Tasks.{
  Json, create_task, insert_task, insert_history, insert_history_row, update_task_row, encoded,
  check_affected, select_task, closed_now, fits_task,
}
use test_api.Store.Tasks.Valid.{TasksValid, IsTaskValid}
use test_api.Store.Tasks.Elsewhere.{append-SameElsewhere}
use test_api.Store.Tasks.Writes.{
  Gives, Answers, AnswersStatement, Answers-pure, Answers-query, Answers-bind, Gives-bind,
  Gives-query, Gives-Steady, IsAt, ChangesTeam, Writes, Writes-transaction, On, Post,
}

pub encoded-Steady : (payload : Option String) → Steady (encoded payload)
encoded-Steady none = search steady_rules
encoded-Steady (some s) = search steady_rules

pub select_task-Steady : (id : ℤ) → SteadyStatement (select_task id)
select_task-Steady id = search steady_rules

pub check_affected-Steady : (id : ℤ) (affected : ℕ) → Steady (check_affected id affected)
check_affected-Steady id affected = search steady_rules

pub Answers-Steady : {A : Type 0} (m : Method A) → Steady m → Answers m
Answers-Steady m k = record { at = λ d h. (k.at d).answered h }

pub insert_task-answers :
    (new : NewTask) (closed_at : Option Time) → AnswersStatement (insert_task new closed_at)
unfolding insert_task
insert_task-answers new closed_at = record { at = λ d. ground arith }

pub update_task_row-answers :
    (id version : ℤ) (upd : TaskUpdate) → AnswersStatement (update_task_row id version upd)
unfolding update_task_row
update_task_row-answers id version upd = record { at = λ d. ground arith }

pub insert_history_row-answers :
    (task_id changed_by : ℤ) (payload : String)
    → AnswersStatement (insert_history_row task_id changed_by payload)
unfolding insert_history_row
insert_history_row-answers task_id changed_by payload = record { at = λ d. ground arith }

pub ruleset answers_rules = (
  Answers-pure, Answers-bind, Answers-query, Answers-Steady, insert_task-answers,
  update_task_row-answers, insert_history_row-answers, encoded-Steady, select_task-Steady,
  check_affected-Steady, steady_rules,
)

insert_history_row-Post :
    (R : List Task → Type 0) (task_id changed_by : ℤ) (payload op : String) (d : Database)
    → R d.tables.tasks
    → Post
        (λ (_ : Unit). R)
        (sort_error (insert_history_row task_id changed_by payload d).0 classify op)
        (insert_history_row task_id changed_by payload d).1.tables.tasks
unfolding insert_history_row
insert_history_row-Post R task_id changed_by payload op d p =
    elim (Bool-cases (not (has_task d.tables task_id) || not (has_user d.tables changed_by))) [
      | inl unknown ↦ rw unknown tt
      | inr known ↦ rw known p
    ]

module _ (json : Json) (task_id changed_by : ℤ) (changes : Dict FieldChange) where
  pub insert_history-Answers : Answers (insert_history json task_id changed_by changes)
  unfolding insert_history
  insert_history-Answers = search answers_rules

  -- An entry of the history changes no task.
  pub insert_history-Gives :
      (R : List Task → Type 0)
      → Gives (On R) (insert_history json task_id changed_by changes) (λ _. R)
  unfolding insert_history
  insert_history-Gives R =
      Gives-bind (On R) (λ _. R) (λ _. R) (encoded (json.marshal changes))
        (λ payload.
          query (insert_history_row task_id changed_by payload) classify "insert task history")
        (Answers-Steady _ (encoded-Steady _)) (Gives-Steady R _ (encoded-Steady _))
        λ payload.
          Gives-query (On R) (λ _. R) _ _ _ (λ d fs p. p)
            (insert_history_row-Post R task_id changed_by payload "insert task history")

module _ (json : Json) where
  create_task_body-Answers :
      (new : NewTask) (closed_at : Option Time) → Answers (create_task_body json new closed_at)
  create_task_body-Answers new closed_at = search (answers_rules, insert_history-Answers) depth 10

select_query-Answers : (id : ℤ) → Answers (query (select_task id) no_rows_error "scan task")
select_query-Answers id = search answers_rules

-- The tasks after an insert: one more row, with a number that none of them has.
record Inserted (ts : List Task) (id : ℤ) (after : List Task) : Type 0 where
  row : Task
  appended : after ≡ ts ++ row ∷ []
  number : row.id ≡ id
  fresh : All (λ u. u.id ≢ id) ts

pub find-appended :
    (id : ℤ) (ts : List Task) (row : Task)
    → row.id ≡ id
    → All (λ u. u.id ≢ id) ts
    → find (λ (t : Task). t.id == id) (ts ++ row ∷ []) ≡ some row
unfolding find
find-appended id [] row e h = ground (arith, int_beq_iff row.id id)
find-appended id (u ∷ ts) row e h =
    let rest = find-appended id ts row e h.1 in
    elim (Bool-cases (u.id == id)) [
      | inl hit ↦ absurd (h.0 ((int_beq_iff u.id id).0 hit))
      | inr miss ↦ rw miss rest
    ]

pub all_below : (next : ℕ) (t : Task) → IsTaskValid next t → t.id ≢ pos next
all_below next t h e = omega (arith, h.below, ap pos_part e)

appended_row :
    (ts : List Task) (d : Database) (row : Task)
    → d.tables.tasks ≡ ts
    → TasksValid d.tables d.next
    → row.id ≡ pos d.next.tasks
    → Inserted ts (pos d.next.tasks) (d.tables.tasks ++ row ∷ [])
appended_row ts d row e v number = record {
  row = row;
  appended = ap (λ us. us ++ row ∷ []) e;
  number = number;
  fresh =
      subst (All (λ u. u.id ≢ pos d.next.tasks)) e
        (All-imp _ _ d.tables.tasks (all_below d.next.tasks) v.rows);
}

insert_task-Post :
    (new : NewTask) (closed_at : Option Time) (ts : List Task) (d : Database)
    → IsAt ts d
    → Post
        (Inserted ts)
        (sort_error (insert_task new closed_at d).0 classify "insert task")
        (insert_task new closed_at d).1.tables.tasks
unfolding insert_task
insert_task-Post new closed_at ts d (e, v) =
    elim (Bool-cases (fits_task new.title new.description new.status)) [
      | inr unfit ↦ rw unfit tt
      | inl fit ↦
          elim (Bool-cases (
            not (has_team d.tables new.team_id)
            || not (has_user d.tables new.created_by)
            || not (has_user_or_null d.tables new.assignee_id))) [
              | inl unknown ↦ rw (fit, unknown) tt
              | inr known ↦ rw (fit, known) (appended_row ts d _ e v refl)
            ]
    ]

-- The row that is found, and what follows of it, whether or not there is one.
pub found-any :
    {A : Type 0} (Q : A → List Task → Type 0) (o : Option A) (d : Database)
    → ((a : A) → o ≡ some a → Q a d.tables.tasks)
    → Post Q (sort_error (found o d).0 no_rows_error "scan task") (found o d).1.tables.tasks
found-any Q o d k = elim (Option-cases o) [
  | inl missing ↦ rw missing tt
  | inr (a, there) ↦ rw there (k a there)
]

abbrev Appended : List Task → Task → List Task → Type 0
Appended ts t after = after ≡ ts ++ t ∷ []

select_task-Appended :
    (ts : List Task) (id : ℤ) (d : Database) (t : Task)
    → Inserted ts id d.tables.tasks
    → find (λ (t : Task). t.id == id) d.tables.tasks ≡ some t
    → Appended ts t d.tables.tasks
select_task-Appended ts id d t i e =
    let here : find (λ (t : Task). t.id == id) d.tables.tasks ≡ some i.row =
      ap (find (λ t. t.id == id)) i.appended ∙ find-appended id ts i.row i.number i.fresh in
    let same : i.row ≡ t = cc in i.appended ∙ ap (λ u. ts ++ u ∷ []) same

module _ (json : Json) where
  create_task_body-ChangesTeam :
      (new : NewTask) (closed_at : Option Time) → ChangesTeam (create_task_body json new closed_at)
  create_task_body-ChangesTeam new closed_at ts =
      Gives-bind (IsAt ts) (Inserted ts) _ _ _
        (Answers-query _ _ _ (insert_task-answers new closed_at))
        (Gives-query (IsAt ts) (Inserted ts) _ _ _ (λ d fs p. p)
          (insert_task-Post new closed_at ts))
        λ id.
          Gives-bind _ (Appended ts) _ _ _ (select_query-Answers id)
            (Gives-query (On (Inserted ts id)) (Appended ts) _ _ _ (λ d fs p. p)
              (λ d i. found-any (Appended ts) _ d λ t e. select_task-Appended ts id d t i e))
            λ t.
              Gives-bind _ (λ _. Appended ts t) _ _ _ (insert_history-Answers json _ _ _)
                (insert_history-Gives json _ _ _ (Appended ts t))
                λ _. record { at = λ d h e. rw e (append-SameElsewhere ts t) }

  pub create_task-Writes : (new : NewTask) → Writes (create_task json new)
  create_task-Writes new = rw (create_task-transaction json new) (
      Writes-transaction _
        (record { at = λ d. (create_task_body-Answers json new (closed_now new.status d)).at d })
        λ ts. record {
          at = λ d. (create_task_body-ChangesTeam new (closed_now new.status d) ts).at d;
        })
