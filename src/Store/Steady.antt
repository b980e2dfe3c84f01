-- ===== src/Store/Steady.antt =====
-- Methods of internal/store that leave the tasks alone: rules for each way to build one.
pub mod Methods
use test_api.Prelude.{
  ◌≡◌, ◌≤◌, refl, ◌∙◌, String, Bool, true, false, if◌then◌else◌, Option, some, none, List, [], ◌∷◌,
  All, Result, ok, err, arith,
}
use test_api.Domain.Errors.{Failure, Foreign}
use test_api.Store.Schema.{Tables}
use test_api.Store.Driver.Transactions.{finish, closing, transaction}
use test_api.Store.Driver.{
  Database, Fault, works, fails, is_lost, Statement, Method, query, found, run, continue,
  sort_error, ◌>>=◌, pure, fail, begin,
}

-- No answer of the driver is lost after its call has had its effect.
abbrev pub IsAnswered : Fault → Type 0
IsAnswered works = Unit
IsAnswered (fails why) = Unit
IsAnswered (is_lost why) = ⊥

-- The tasks and their histories are those that they were, their counter has not gone back, and no answer that was not
-- lost before is lost now.
pub record SameTasks (d d' : Database) : Type 0 where
  pub tasks : d'.tables.tasks ≡ d.tables.tasks
  pub history : d'.tables.task_history ≡ d.tables.task_history
  pub grows : d.next.tasks ≤ d'.next.tasks
  pub answered : All IsAnswered d.faults → All IsAnswered d'.faults

pub SameTasks-refl : (d : Database) → SameTasks d d
SameTasks-refl d = record { tasks = refl; history = refl; grows = omega arith; answered = λ h. h }

pub SameTasks-trans : (a b c : Database) → SameTasks a b → SameTasks b c → SameTasks a c
SameTasks-trans a b c h k = record {
  tasks = k.tasks ∙ h.tasks;
  history = k.history ∙ h.history;
  grows = omega (arith, h.grows, k.grows);
  answered = λ q. k.answered (h.answered q);
}

pub record Steady {A : Type 0} (m : Method A) : Type 0 where
  pub at : (d : Database) → SameTasks d (m d).1

pub record SteadyStatement {A : Type 0} (stmt : Statement A) : Type 0 where
  pub at : (d : Database) → SameTasks d (stmt d).1

-- The faults are those after the first.
met :
    (d : Database) (f : Fault) (fs : List Fault)
    → SameTasks (record d { faults = f ∷ fs }) (record d { faults = fs })
met d f fs = record { tasks = refl; history = refl; grows = omega arith; answered = λ q. q.1 }

run-SameTasks :
    {A : Type 0} (stmt : Statement A) (d : Database) (fs : List Fault)
    → SteadyStatement stmt
    → SameTasks (record d { faults = fs }) (run stmt (record d { faults = fs })).1
unfolding run
run-SameTasks stmt d [] k = k.at (record d { faults = [] })
run-SameTasks stmt d (works ∷ rest) k =
    SameTasks-trans _ _ _ (met d works rest) (k.at (record d { faults = rest }))
run-SameTasks stmt d (fails why ∷ rest) k = met d (fails why) rest
run-SameTasks stmt d (is_lost why ∷ rest) k =
    SameTasks-trans _ _ _ (met d (is_lost why) rest) (k.at (record d { faults = rest }))

pub Steady-query :
    {A : Type 0} (stmt : Statement A) (f : Foreign → String → Failure) (op : String)
    → SteadyStatement stmt
    → Steady (query stmt f op)
Steady-query stmt f op k = record { at = λ d. run-SameTasks stmt d d.faults k }

found-SameTasks : {A : Type 0} (o : Option A) (d : Database) → SameTasks d (found o d).1
found-SameTasks none d = SameTasks-refl d
found-SameTasks (some a) d = SameTasks-refl d

pub Steady-found : {A : Type 0} (o : Database → Option A) → SteadyStatement (λ d. found (o d) d)
Steady-found o = record { at = λ d. found-SameTasks (o d) d }

pub Steady-rows : {A : Type 0} (f : Database → A) → SteadyStatement (λ d. (ok (f d), d))
Steady-rows f = record { at = λ d. SameTasks-refl d }

pub Steady-pure : {A : Type 0} (a : A) → Steady (pure a)
Steady-pure a = record { at = λ d. SameTasks-refl d }

pub Steady-fail : (A : Type 0) (e : Failure) → Steady (fail {A = A} e)
Steady-fail A e = record { at = λ d. SameTasks-refl d }

pub Steady-if :
    {A : Type 0} (b : Bool) (m m' : Method A) → Steady m → Steady m' → Steady (if b then m else m')
Steady-if true m m' k k' = k
Steady-if false m m' k k' = k'

continue-SameTasks :
    {A B : Type 0} (r : Result Failure A) (f : A → Method B) (d₀ d : Database)
    → ((a : A) → Steady (f a))
    → SameTasks d₀ d
    → SameTasks d₀ (continue r f d).1
continue-SameTasks (ok a) f d₀ d k h = SameTasks-trans d₀ d _ h ((k a).at d)
continue-SameTasks (err e) f d₀ d k h = h

pub Steady-bind :
    {A B : Type 0} (call : Method A) (after : A → Method B)
    → Steady call
    → ((answer : A) → Steady (after answer))
    → Steady (call >>= after)
Steady-bind call after k₁ k₂ = record {
  at = λ d. continue-SameTasks (call d).0 after d (call d).1 k₂ (k₁.at d);
}

-- A transaction that begins or ends.
ended :
    (d : Database) (fs : List Fault) (b : Bool)
    → SameTasks (record d { faults = fs }) (record d { faults = fs; in_transaction = b })
ended d fs b = record { tasks = refl; history = refl; grows = omega arith; answered = λ q. q }

-- Committed or rolled back.
finish-SameTasks :
    {A : Type 0} (r : Result Failure A) (d₀ d : Database) (fs : List Fault)
    → SameTasks d₀ (record d { faults = fs })
    → SameTasks d₀ (finish d₀.tables r (record d { faults = fs })).1
finish-SameTasks (err x) d₀ d fs h = record {
  tasks = refl;
  history = refl;
  grows = h.grows;
  answered = h.answered;
}
finish-SameTasks (ok a) d₀ d [] h = SameTasks-trans d₀ _ _ h (ended d [] false)
finish-SameTasks (ok a) d₀ d (works ∷ rest) h =
    SameTasks-trans d₀ _ _ h (SameTasks-trans _ _ _ (met d works rest) (ended d rest false))
finish-SameTasks (ok a) d₀ d (fails why ∷ rest) h = record {
  tasks = refl;
  history = refl;
  grows = h.grows;
  answered = λ q. (h.answered q).1;
}
finish-SameTasks (ok a) d₀ d (is_lost why ∷ rest) h =
    SameTasks-trans d₀ _ _ h (SameTasks-trans _ _ _ (met d (is_lost why) rest) (ended d rest false))

closing-SameTasks :
    {A : Type 0} (body : Method A) (d : Database) (fs : List Fault)
    → Steady body
    → SameTasks
        (record d { faults = fs })
        (closing d.tables body (record d { faults = fs; in_transaction = true })).1
closing-SameTasks body d fs k =
    let d₀ : Database = record d { faults = fs; in_transaction = true } in
    SameTasks-trans _ _ _ (ended d fs true)
      (finish-SameTasks (body d₀).0 d₀ (body d₀).1 (body d₀).1.faults (k.at d₀))

transaction-SameTasks :
    {A : Type 0} (body : Method A) (d : Database) (fs : List Fault)
    → Steady body
    → SameTasks (record d { faults = fs }) (transaction body (record d { faults = fs })).1
unfolding transaction begin run
transaction-SameTasks body d [] k = closing-SameTasks body d [] k
transaction-SameTasks body d (works ∷ rest) k =
    SameTasks-trans _ _ _ (met d works rest) (closing-SameTasks body d rest k)
transaction-SameTasks body d (fails why ∷ rest) k = met d (fails why) rest
transaction-SameTasks body d (is_lost why ∷ rest) k = met d (is_lost why) rest

pub Steady-transaction : {A : Type 0} (body : Method A) → Steady body → Steady (transaction body)
Steady-transaction body k = record { at = λ d. transaction-SameTasks body d d.faults k }

pub ruleset steady_rules = (
  Steady-query, Steady-found, Steady-rows, Steady-pure, Steady-fail, Steady-if, Steady-bind,
  Steady-transaction,
)
