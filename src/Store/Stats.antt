-- ===== src/Store/Stats.antt =====
-- internal/store/stats.go: the report on a team.
pub mod Counts
pub mod Ranking
pub mod Report
use test_api.Prelude.{
  ℕ, suc, ℤ, pos, ◌+◌, ◌*◌, String, Bool, true, false, ◌&&◌, ◌||◌, ◌==◌, int_eq, string_eq, Option,
  none, some, List, [], ◌∷◌, Dict, lookup, insert, leb, ltb, ltb_ℤ, if◌then◌else◌, any, select,
  take, map, length, order_by, string_le, ok, err, negate,
}
use Prim.Native.Nat.{◌-◌, ◌/◌}
use test_api.Domain.Errors.{foreign, other, wrap}
use test_api.Domain.Task.{Task, Status, Time}
use test_api.Domain.Comment.{Comment}
use test_api.Domain.Stats.{TeamStats, AssigneeStat, Float}
use test_api.Store.Schema.{UserRow, Tables}
use test_api.Store.Driver.{Database, Statement, Method, query, plain, ◌>>=◌, pure, fail, run}

-- What MySQL does by its own rules, and encoding/json: the collation of names, AVG as the `float64`
-- that the driver reads, JSON_OBJECTAGG and JSON_ARRAYAGG, and `Unmarshal` into a nil map and a nil
-- slice, which gives an error (`none`) or leaves them nil at `null` (`some none`).
pub record StatsServer : Type 0 where
  pub name_le : String → String → Bool
  pub average : ℤ → List ℤ → Float
  pub object_agg : Dict ℤ → String
  pub array_agg : List AssigneeStat → String
  pub unmarshal_counts : String → Option (Option (Dict ℤ))
  pub unmarshal_stats : String → Option (Option (List AssigneeStat))

-- `scoped_tasks`
abbrev pub scoped_tasks : ℤ → Tables → List Task
scoped_tasks team_id t = select (λ x. x.team_id == team_id) t.tasks

abbrev pub one_more : Option ℤ → ℤ
one_more (some (pos n)) = pos (suc n)
one_more _ = pos 1

-- `status_counts`: a row for each status that a task has.
unfoldable pub status_counts : List Task → Dict ℤ
unfolding lookup insert
status_counts [] = []
status_counts (t ∷ ts) =
    let rest = status_counts ts in insert t.status (one_more (lookup t.status rest)) rest

-- 30 days, in microseconds.
abbrev pub thirty_days : ℕ
thirty_days = 2592000000000

abbrev pub is_assignee : ℤ → Option ℤ → Bool
is_assignee user_id none = false
is_assignee user_id (some id) = id == user_id

-- `closed_at IS NOT NULL AND closed_at >= NOW(6) - INTERVAL 30 DAY`
abbrev pub is_recent : Time → Option Time → Bool
is_recent now none = false
is_recent now (some closed_at) = leb now (closed_at + thirty_days)

abbrev pub closed_by : Time → List Task → ℤ → ℕ
closed_by now ts user_id =
    length (select (λ t. is_assignee user_id t.assignee_id && is_recent now t.closed_at) ts)

abbrev pub stat_of : Time → List Task → UserRow → AssigneeStat
stat_of now ts u = record {
  user_id = u.id;
  name = u.name;
  closed_tasks = pos (closed_by now ts u.id);
}

-- The order of the rows: by `closed_tasks` from the highest down, and then by name.
abbrev pub stands_before : (String → String → Bool) → AssigneeStat → AssigneeStat → Bool
stands_before name_le a b =
    ltb_ℤ b.closed_tasks a.closed_tasks || a.closed_tasks == b.closed_tasks && name_le a.name b.name

-- The groups of the join: a row for each user with such a task.
abbrev pub closers : Time → List Task → List UserRow → List AssigneeStat
closers now ts users = select (λ a. ltb_ℤ (pos 0) a.closed_tasks) (map (stat_of now ts) users)

-- `TIMESTAMPDIFF(SECOND, …)`: whole seconds, towards 0.

abbrev seconds_between : Time → Time → ℤ
seconds_between a b = if leb a b then pos ((b - a) / 1000000) else negate ((a - b) / 1000000)

-- The time that each closed task took.
unfoldable pub close_times : List Task → List ℤ
close_times [] = []
close_times (t ∷ ts) = elim t.closed_at [
  | none ↦ close_times ts
  | some closed_at ↦ seconds_between t.created_at closed_at ∷ close_times ts
]

abbrev pub average_or_null : (ℤ → List ℤ → Float) → List ℤ → Option Float
average_or_null average [] = none
average_or_null average (s ∷ ss) = some (average s ss)

-- The comments of the team's tasks.
abbrev pub comments_of : List Task → List Comment → ℕ
comments_of ts cs = length (select (λ c. any (λ t. t.id == c.task_id) ts) cs)

-- The row that the query gives.
pub record StatsRow : Type 0 where
  pub tasks_by_status : String
  pub top_assignees : String
  pub avg_close_seconds : Option Float
  pub comments_total : ℤ

-- `if … == nil { … }`
abbrev pub or_nil : {A : Type 0} → Option (List A) → List A
or_nil none = []
or_nil (some xs) = xs

abbrev pub or_undecoded : {A : Type 0} → String → Option A → Method A
or_undecoded what none = fail (wrap what (foreign (other "json")))
or_undecoded what (some a) = pure a

module _ (server : StatsServer) where
  -- `closed_last_30d`
  unfoldable pub closed_last_30d : Time → List Task → List UserRow → List AssigneeStat
  unfolding select take order_by
  closed_last_30d now ts users =
      take 3 (order_by (stands_before server.name_le) (closers now ts users))

  -- `statsQuery`
  unfoldable pub stats_query : ℤ → Statement StatsRow
  unfolding select any status_counts close_times closed_last_30d
  stats_query team_id d =
      let ts = scoped_tasks team_id d.tables in
      (
        ok (record {
          tasks_by_status = server.object_agg (status_counts ts);
          top_assignees = server.array_agg (closed_last_30d d.clock ts d.tables.users);
          avg_close_seconds = average_or_null server.average (close_times ts);
          comments_total = pos (comments_of ts d.tables.task_comments);
        }),
        d,
      )

  -- `cmp.Compare` of the counts, and of the names where they are the same.
  unfoldable pub sort_stats : Option (List AssigneeStat) → Option (List AssigneeStat)
  unfolding order_by
  sort_stats none = none
  sort_stats (some stats) = some (order_by (stands_before string_le) stats)

  unfoldable pub team_stats : ℤ → Method TeamStats
  unfolding run stats_query sort_stats
  team_stats team_id = do
    row ← query (stats_query team_id) plain "select team stats"
    by_status ← or_undecoded "decode tasks_by_status" (server.unmarshal_counts row.tasks_by_status)
    assignees ← or_undecoded "decode top_assignees" (server.unmarshal_stats row.top_assignees)
    pure (record {
      team_id = team_id;
      tasks_by_status = or_nil by_status;
      top_assignees_30d = or_nil (sort_stats assignees);
      avg_close_seconds = row.avg_close_seconds;
      comments_total = row.comments_total;
    })
