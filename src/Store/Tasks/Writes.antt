-- ===== src/Store/Tasks/Writes.antt =====
-- What `CreateTask` and `UpdateTask` of internal/store/task.go do to the lists of tasks, when no
-- answer of the driver is lost.
pub mod Bodies
pub mod Updates
use test_api.Prelude.{
  ℕ, suc, ℤ, pos, pos_part, ◌≡◌, ◌≢◌, ◌≤◌, refl, sym, ap, ◌∙◌, Bool, true, false, not, ◌||◌, ◌==◌,
  nat_eq, int_eq, Bool-cases, inl, inr, Option, none, some, List, [], ◌∷◌, ◌++◌, All, All-imp, find,
  arith, if◌then◌else◌, Result, ok, err, String, Dict, int_beq_iff,
}
use test_api.Domain.Errors.{Failure, Foreign}
use test_api.Domain.Task.{Task, NewTask, TaskUpdate, FieldChange, Time, creation_changes}
use test_api.Store.Driver.{
  Database, Fault, works, fails, is_lost, Statement, Method, query, run, continue, sort_error,
  ◌>>=◌, pure, fail, found, begin,
}
use test_api.Store.Steady.{IsAnswered, Steady, SteadyStatement, steady_rules}
use test_api.Store.Driver.Transactions.{finish, closing, transaction}
use test_api.Store.Tasks.Transactions.{create_task_body, update_task_body}
use test_api.Store.Tasks.{
  Json, create_task, update_task, insert_task, insert_history, insert_history_row, update_task_row,
  update_rows, encoded, check_affected, select_task, closed_now,
}
use test_api.Store.Tasks.Valid.{TasksValid, Ascends, IsTaskValid}
use test_api.Store.Tasks.Elsewhere.{SameElsewhere, append-SameElsewhere, update_rows-SameElsewhere}

-- No answer is lost that was not lost before.
pub record Answers {A : Type 0} (m : Method A) : Type 0 where
  pub at : (d : Database) → All IsAnswered d.faults → All IsAnswered (m d).1.faults

pub record AnswersStatement {A : Type 0} (stmt : Statement A) : Type 0 where
  pub at : (d : Database) → (stmt d).1.faults ≡ d.faults

-- What holds of the tasks after a method that gives a value.
abbrev pub Post : {A : Type 0} → (A → List Task → Type 0) → Result Failure A → List Task → Type 0
Post Q (ok a) ts = Q a ts
Post Q (err e) ts = Unit

pub record Gives {A : Type 0} (P : Database → Type 0) (m : Method A) (Q : A → List Task → Type 0)
    : Type 0 where
  pub at : (d : Database) → All IsAnswered d.faults → P d → Post Q (m d).0 (m d).1.tables.tasks

abbrev pub On : (List Task → Type 0) → Database → Type 0
On R d = R d.tables.tasks

module _ {A : Type 0} where
  pub Answers-pure : (a : A) → Answers (pure a)
  Answers-pure a = record { at = λ d h. h }

  Answers-fail : (e : Failure) → Answers (fail {A = A} e)
  Answers-fail e = record { at = λ d h. h }

  Answers-if : (b : Bool) (m n : Method A) → Answers m → Answers n → Answers (if b then m else n)
  Answers-if true m n k l = k
  Answers-if false m n k l = l

  run-answers :
      (stmt : Statement A) (d : Database) (fs : List Fault)
      → d.faults ≡ fs
      → AnswersStatement stmt
      → All IsAnswered fs
      → All IsAnswered (run stmt d).1.faults
  unfolding run
  run-answers stmt d [] e k h = rw (e, run, k.at d, e) tt
  run-answers stmt d (works ∷ rest) e k h = rw (e, run, k.at (record d { faults = rest })) h.1
  run-answers stmt d (fails why ∷ rest) e k h = rw (e, run) h.1
  run-answers stmt d (is_lost why ∷ rest) e k h = absurd h.0

  pub Answers-query :
      (stmt : Statement A) (f : Foreign → String → Failure) (op : String)
      → AnswersStatement stmt
      → Answers (query stmt f op)
  Answers-query stmt f op k = record { at = λ d h. run-answers stmt d d.faults refl k h }

module _ {A B : Type 0} where
  continue-Answers :
      (r : Result Failure A) (f : A → Method B) (d : Database)
      → ((a : A) → Answers (f a))
      → All IsAnswered d.faults
      → All IsAnswered (continue r f d).1.faults
  continue-Answers (ok a) f d k h = (k a).at d h
  continue-Answers (err e) f d k h = h

  pub Answers-bind :
      (m : Method A) (f : A → Method B) → Answers m → ((a : A) → Answers (f a)) → Answers (m >>= f)
  Answers-bind m f k l = record { at = λ d h. continue-Answers (m d).0 f (m d).1 l (k.at d h) }

  continue-Post :
      (Q : A → List Task → Type 0) (R : B → List Task → Type 0) (r : Result Failure A)
      (f : A → Method B) (d : Database)
      → ((a : A) → Gives (On (Q a)) (f a) R)
      → All IsAnswered d.faults
      → Post Q r d.tables.tasks
      → Post R (continue r f d).0 (continue r f d).1.tables.tasks
  continue-Post Q R (ok a) f d k h q = (k a).at d h q
  continue-Post Q R (err e) f d k h q = tt

  pub Gives-bind :
      (P : Database → Type 0) (Q : A → List Task → Type 0) (R : B → List Task → Type 0)
      (m : Method A) (f : A → Method B)
      → Answers m
      → Gives P m Q
      → ((a : A) → Gives (On (Q a)) (f a) R)
      → Gives P (m >>= f) R
  Gives-bind P Q R m f answers k l = record {
    at = λ d h p. continue-Post Q R (m d).0 f (m d).1 l (answers.at d h) (k.at d h p);
  }

module _ {A : Type 0} where
  Post-always :
      (R : List Task → Type 0) (r : Result Failure A) (ts : List Task) → R ts → Post (λ _. R) r ts
  Post-always R (ok a) ts p = p
  Post-always R (err e) ts p = tt

  -- What leaves the tasks alone.
  pub Gives-Steady : (R : List Task → Type 0) (m : Method A) → Steady m → Gives (On R) m (λ _. R)
  Gives-Steady R m k = record {
    at = λ d h p. Post-always R (m d).0 (m d).1.tables.tasks (rw (k.at d).tasks p);
  }

  run-Post :
      (P : Database → Type 0) (Q : A → List Task → Type 0) (stmt : Statement A)
      (f : Foreign → String → Failure) (op : String) (d : Database) (fs : List Fault)
      → d.faults ≡ fs
      → ((d : Database) (fs : List Fault) → P d → P (record d { faults = fs }))
      → ((d : Database) → P d → Post Q (sort_error (stmt d).0 f op) (stmt d).1.tables.tasks)
      → P d
      → Post Q (query stmt f op d).0 (query stmt f op d).1.tables.tasks
  unfolding run
  run-Post P Q stmt f op d [] e stable k p = rw (e, run) (k d p)
  run-Post P Q stmt f op d (works ∷ rest) e stable k p =
      rw (e, run) (k (record d { faults = rest }) (stable d rest p))
  run-Post P Q stmt f op d (fails why ∷ rest) e stable k p = rw (e, run) tt
  run-Post P Q stmt f op d (is_lost why ∷ rest) e stable k p = rw (e, run) tt

  -- A statement, and what it does where the driver works.
  pub Gives-query :
      (P : Database → Type 0) (Q : A → List Task → Type 0) (stmt : Statement A)
      (f : Foreign → String → Failure) (op : String)
      → ((d : Database) (fs : List Fault) → P d → P (record d { faults = fs }))
      → ((d : Database) → P d → Post Q (sort_error (stmt d).0 f op) (stmt d).1.tables.tasks)
      → Gives P (query stmt f op) Q
  Gives-query P Q stmt f op stable k = record {
    at = λ d h p. run-Post P Q stmt f op d d.faults refl stable k p;
  }

-- After a transaction.
abbrev pub Written : Result Failure Task → List Task → List Task → Type 0
Written (ok t) ts ts' = SameElsewhere t.team_id ts ts'
Written (err e) ts ts' = ts' ≡ ts

-- With valid tasks and no lost answer: on success the other teams' tasks are those that they were,
-- and on an error all tasks are.
pub record Writes (m : Method Task) : Type 0 where
  pub at :
      (d : Database)
      → TasksValid d.tables d.next
      → All IsAnswered d.faults
      → Written (m d).0 d.tables.tasks (m d).1.tables.tasks × All IsAnswered (m d).1.faults

abbrev pub IsAt : List Task → Database → Type 0
IsAt ts d = (d.tables.tasks ≡ ts) × TasksValid d.tables d.next

finish-Written :
    (r : Result Failure Task) (before d : Database) (fs : List Fault)
    → d.faults ≡ fs
    → All IsAnswered fs
    → Post (λ t. SameElsewhere t.team_id before.tables.tasks) r d.tables.tasks
    → Written
        (finish before.tables r d).0
        before.tables.tasks
        (finish before.tables r d).1.tables.tasks
      × All IsAnswered (finish before.tables r d).1.faults
finish-Written (err x) before d fs e h p = (refl, rw e h)
finish-Written (ok t) before d [] e h p = rw e (p, tt)
finish-Written (ok t) before d (works ∷ rest) e h p = rw e (p, h.1)
finish-Written (ok t) before d (fails why ∷ rest) e h p = rw e (refl, h.1)
finish-Written (ok t) before d (is_lost why ∷ rest) e h p = absurd h.0

-- The body of a transaction that changes one team's tasks, whatever they were before.
abbrev pub ChangesTeam : Method Task → Type 0
ChangesTeam body = (ts : List Task) → Gives (IsAt ts) body (λ t. SameElsewhere t.team_id ts)

body-Written :
    (body : Method Task) (d : Database)
    → Answers body
    → ChangesTeam body
    → TasksValid d.tables d.next
    → All IsAnswered d.faults
    → let (r, d') = body d in
      Written (finish d.tables r d').0 d.tables.tasks (finish d.tables r d').1.tables.tasks
      × All IsAnswered (finish d.tables r d').1.faults
body-Written body d answers k v h =
    finish-Written (body d).0 d (body d).1 (body d).1.faults refl (answers.at d h)
      ((k d.tables.tasks).at d h (refl, v))

begun-Writes :
    (body : Method Task) (d : Database) (fs : List Fault)
    → d.faults ≡ fs
    → Answers body
    → ChangesTeam body
    → TasksValid d.tables d.next
    → All IsAnswered fs
    → Written (transaction body d).0 d.tables.tasks (transaction body d).1.tables.tasks
      × All IsAnswered (transaction body d).1.faults
unfolding transaction begin run
begun-Writes body d [] e answers k v h =
    rw (e, transaction, begin, run)
      (body-Written body (record d { in_transaction = true }) answers k v (rw e tt))
begun-Writes body d (works ∷ rest) e answers k v h =
    rw (e, transaction, begin, run)
      (body-Written body (record d { faults = rest; in_transaction = true }) answers k v h.1)
begun-Writes body d (fails why ∷ rest) e answers k v h = rw (e, transaction, begin, run) (refl, h.1)
begun-Writes body d (is_lost why ∷ rest) e answers k v h = absurd h.0

pub Writes-transaction :
    (body : Method Task) → Answers body → ChangesTeam body → Writes (transaction body)
Writes-transaction body answers k = record {
  at = λ d v h. begun-Writes body d d.faults refl answers k v h;
}
