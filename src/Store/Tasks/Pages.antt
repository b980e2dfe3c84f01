-- ===== src/Store/Tasks/Pages.antt =====
-- What the query of `ListTasks` gives.
use test_api.Prelude.{
  ℤ, pos_part, ◌≡◌, ◌⊎◌, ◌≤◌, true, none, some, List, ok, length, All, All-imp, All-take, All-drop,
  All-order_desc, All-select, length-take, Descends, order_desc-Descends, take-Descends,
  drop-Descends, arith, eq_iff, int_beq_iff, select, order_desc, drop, Option,
}
use test_api.Domain.Task.{Task, TaskFilter, Status}
use test_api.Store.Driver.{Database, run}
use test_api.Store.Tasks.{matches, has_status, is_assigned, list_rows, list_tasks}

-- The task has the filter's team, and its status and assignee if the filter names them.
abbrev pub IsMatch : TaskFilter → Task → Type 0
IsMatch f t =
    (t.team_id ≡ f.team_id)
    × ((f.status ≡ none) ⊎ (f.status ≡ some t.status))
    × ((f.assignee_id ≡ none) ⊎ (f.assignee_id ≡ t.assignee_id))

has_status-asked :
    (s : Option Status) (t : Task) → has_status s t ≡ true → (s ≡ none) ⊎ (s ≡ some t.status)
has_status-asked none t h = ground arith
has_status-asked (some s) t h = ground (arith, eq_iff t.status s)

is_assigned-asked : (a b : Option ℤ) → is_assigned a b ≡ true → (a ≡ none) ⊎ (a ≡ b)
is_assigned-asked none b h = ground arith
is_assigned-asked (some a) none h = ground arith
is_assigned-asked (some a) (some b) h = ground (arith, int_beq_iff b a)

matches-IsMatch : (f : TaskFilter) (t : Task) → matches f t ≡ true → IsMatch f t
matches-IsMatch f t h = ground (
  arith,
  int_beq_iff t.team_id f.team_id,
  has_status-asked f.status t,
  is_assigned-asked f.assignee_id t.assignee_id,
)

-- Only tasks that match, the newest first, and at most as many as the limit.
pub record IsPage (f : TaskFilter) (page : List Task) : Type 0 where
  pub matching : All (IsMatch f) page
  pub newest_first : Descends (λ (t : Task). t.id) page
  pub bounded : length page ≤ pos_part f.limit

module _ (f : TaskFilter) (ts : List Task) where
  abbrev id_of : Task → ℤ
  id_of t = t.id

  abbrev chosen : List Task
  chosen = select (matches f) ts

  abbrev later : List Task
  later = drop (pos_part f.offset) (order_desc id_of chosen)

  list_rows-matching : All (λ t. matches f t ≡ true) (list_rows f ts)
  unfolding list_rows
  list_rows-matching = All-take _ (pos_part f.limit) later (
      All-drop _ (pos_part f.offset) (order_desc id_of chosen)
        (All-order_desc _ id_of chosen (All-select (matches f) ts)))

  list_rows-IsPage : IsPage f (list_rows f ts)
  unfolding list_rows
  list_rows-IsPage = record {
    matching = All-imp _ (IsMatch f) (list_rows f ts) (matches-IsMatch f) list_rows-matching;
    newest_first = take-Descends id_of (pos_part f.limit) later (
        drop-Descends id_of (pos_part f.offset) (order_desc id_of chosen)
          (order_desc-Descends id_of chosen));
    bounded = length-take (pos_part f.limit) later;
  }

list_tasks-rows :
    (f : TaskFilter) (d d' : Database) (page : List Task)
    → list_tasks f d ≡ (ok page, d')
    → (page ≡ list_rows f d.tables.tasks) × (d'.tables ≡ d.tables)
unfolding list_tasks run
list_tasks-rows f d d' page e = ground arith

-- Whatever faults the database meets, a page that comes back holds only tasks of the filter's team
-- that have its status and assignee where it names them, from the highest number down, and at most
-- as many as the limit; and the tables are as they were.
pub list_tasks-IsPage :
    (f : TaskFilter) (d d' : Database) (page : List Task)
    → list_tasks f d ≡ (ok page, d')
    → IsPage f page × (d'.tables ≡ d.tables)
list_tasks-IsPage f d d' page e =
    let (rows, same) = list_tasks-rows f d d' page e in
    (rw rows (list_rows-IsPage f d.tables.tasks), same)
