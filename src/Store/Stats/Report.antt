-- ===== src/Store/Stats/Report.antt =====
-- What the report on a team says of its tables.
use test_api.Prelude.{
  ◌⊎◌, ◌↔◌, ℕ, ℤ, pos, ◌≡◌, ◌≤◌, ◌≤ℤ◌, ◌+◌, refl, ◌∙◌, ap, String, true, ◌==◌, ◌&&◌, int_eq,
  string_eq, Option, none, some, List, [], Dict, lookup, select, any, length, All, All-imp,
  Descends, Permᴰ, order_by, int_beq_iff, eq_iff, arith, ok, string_le,
}
use test_api.Domain.Task.{Task, Time, Status}
use test_api.Domain.Comment.{Comment}
use test_api.Domain.Stats.{TeamStats, AssigneeStat}
use test_api.Store.Schema.{UserRow, Tables}
use test_api.Store.Driver.{Database, run}
use test_api.Store.Stats.{
  StatsServer, scoped_tasks, status_counts, closed_by, closed_last_30d, stats_query, sort_stats,
  team_stats, average_or_null, close_times, comments_of, stands_before, is_assignee, is_recent,
}
use test_api.Store.Stats.Counts.{IsCount, select-IsCount, select-select-IsCount, any-select}
use test_api.Store.Stats.Ranking.{counted, has_status, status_counts-lookup, sort_stats-IsTop}

-- A task of the team in a status.
abbrev pub IsInStatus : ℤ → Status → Task → Type 0
IsInStatus team_id s t = (t.team_id ≡ team_id) × (t.status ≡ s)

-- A task of the team with this user as its assignee, closed at most 30 days ago: 2592000000000
-- microseconds.
abbrev pub IsClosedLately : ℤ → Time → ℤ → Task → Type 0
IsClosedLately team_id now user_id t =
    (t.team_id ≡ team_id)
    × (t.assignee_id ≡ some user_id)
    × ((closed : Time) × (t.closed_at ≡ some closed) × (now ≤ closed + 2592000000000))

-- What MySQL writes of the team's rows as JSON is read back by `Unmarshal`, up to the orders of a
-- JSON object's members and of the rows that JSON_ARRAYAGG takes.
pub record IsReadBack (server : StatsServer) (team_id : ℤ) (d : Database) : Type 0 where
  pub counts : Dict ℤ
  pub counts_read :
      server.unmarshal_counts (server.object_agg (status_counts (scoped_tasks team_id d.tables)))
      ≡ some (some counts)
  pub counts_same :
      (s : String) → lookup s counts ≡ lookup s (status_counts (scoped_tasks team_id d.tables))
  pub stats : List AssigneeStat
  pub stats_read :
      server.unmarshal_stats (
        server.array_agg
          (closed_last_30d server d.clock (scoped_tasks team_id d.tables) d.tables.users))
      ≡ some (some stats)
  pub stats_shuffled :
      Permᴰ (closed_last_30d server d.clock (scoped_tasks team_id d.tables) d.tables.users) stats

-- A number of tasks in the status, with its entry, and none for 0.
abbrev pub IsEntry : ℤ → List Task → Status → Option ℤ → Type 0
IsEntry team_id ts s entry = (n : ℕ) × IsCount (IsInStatus team_id s) ts n × (entry ≡ counted n)

-- The row has its user's number of tasks that were closed lately, and there is one.
abbrev pub IsEarned : ℤ → Time → List Task → AssigneeStat → Type 0
IsEarned team_id now ts a =
    (n : ℕ) × IsCount (IsClosedLately team_id now a.user_id) ts n
    × (a.closed_tasks ≡ pos n)
    × (1 ≤ n)

-- The user has closed nothing, or is among the rows, or is left out for three who closed no less.
abbrev pub IsRanked : ℤ → Time → List Task → List AssigneeStat → UserRow → Type 0
IsRanked team_id now ts top u =
    (n : ℕ) × IsCount (IsClosedLately team_id now u.id) ts n
    × ((n ≡ 0)
        ⊎ (any (λ a. a.user_id == u.id) top ≡ true)
        ⊎ ((length top ≡ 3) × All (λ a. pos n ≤ℤ a.closed_tasks) top))

-- A comment on a task of the team.
abbrev pub IsOnTeam : ℤ → List Task → Comment → Type 0
IsOnTeam team_id ts c = any (λ t. t.team_id == team_id && t.id == c.task_id) ts ≡ true

-- The report of the team's tasks, counted among all the tasks there are.
pub record IsReport (team_id : ℤ) (t : Tables) (now : Time) (report : TeamStats) : Type 0 where
  pub team : report.team_id ≡ team_id
  pub by_status : (s : Status) → IsEntry team_id t.tasks s (lookup s report.tasks_by_status)
  pub earned : All (IsEarned team_id now t.tasks) report.top_assignees_30d
  pub highest_first : Descends (λ (a : AssigneeStat). a.closed_tasks) report.top_assignees_30d
  pub bounded : length report.top_assignees_30d ≤ 3
  pub complete : All (IsRanked team_id now t.tasks report.top_assignees_30d) t.users
  pub comments :
      (n : ℕ) × IsCount (IsOnTeam team_id t.tasks) t.task_comments n
      × (report.comments_total ≡ pos n)

is_assignee_iff : (user_id : ℤ) (o : Option ℤ) → (is_assignee user_id o ≡ true) ↔ (o ≡ some user_id)
is_assignee_iff user_id none = ground arith
is_assignee_iff user_id (some id) =
    (λ h. ap some ((int_beq_iff id user_id).0 h), λ e. ground (arith, e, int_beq_iff id user_id))

is_recent_iff :
    (now : Time) (o : Option Time)
    → (is_recent now o ≡ true)
      ↔ ((closed : Time) × (o ≡ some closed) × (now ≤ closed + 2592000000000))
is_recent_iff now none = (λ h. ground (arith, h), λ h. ground (arith, h.1))
is_recent_iff now (some at_) = (λ h. (at_, refl, ground (arith, h)), λ h. ground (arith, h.1, h.2))

module _ (team_id : ℤ) where
  status-count :
      (s : Status) (ts : List Task)
      → IsCount
          (IsInStatus team_id s)
          ts
          (length (select (has_status s) (select (λ x. x.team_id == team_id) ts)))
  status-count s ts =
      select-select-IsCount _ (has_status s) (λ x. x.team_id == team_id) ts
        λ x. ground (arith, int_beq_iff x.team_id team_id, eq_iff x.status s)

  IsClosedLately-iff :
      (now : Time) (user_id : ℤ) (t : Task)
      → ((t.team_id == team_id && (is_assignee user_id t.assignee_id && is_recent now t.closed_at))
          ≡ true)
        ↔ IsClosedLately team_id now user_id t
  IsClosedLately-iff now user_id t =
      let assignee = is_assignee_iff user_id t.assignee_id in
      let recent = is_recent_iff now t.closed_at in
      (
        (λ h.
            let parts : (t.team_id ≡ team_id)
                × (is_assignee user_id t.assignee_id ≡ true)
                × (is_recent now t.closed_at ≡ true) =
              ground (arith, h, int_beq_iff t.team_id team_id) in
            (parts.0, assignee.0 parts.1, recent.0 parts.2)),
        (λ h. rw ((int_beq_iff t.team_id team_id).1 h.0, assignee.1 h.1, recent.1 h.2) refl),
      )

  closed_by-IsCount :
      (now : Time) (ts : List Task) (user_id : ℤ)
      → IsCount
          (IsClosedLately team_id now user_id)
          ts
          (closed_by now (select (λ x. x.team_id == team_id) ts) user_id)
  closed_by-IsCount now ts user_id =
      select-select-IsCount _ _ (λ x. x.team_id == team_id) ts (IsClosedLately-iff now user_id)

  comments-count :
      (ts : List Task) (cs : List Comment)
      → IsCount (IsOnTeam team_id ts) cs (comments_of (select (λ x. x.team_id == team_id) ts) cs)
  comments-count ts cs =
      select-IsCount _ (λ c. any (λ t. t.id == c.task_id) (select (λ x. x.team_id == team_id) ts))
        cs
        λ c.
          rw (any-select (λ t. t.id == c.task_id) (λ t. t.team_id == team_id) ts) ((λ h. h), λ h. h)

-- With no fault ahead, and if the JSON of the query is read back, the report comes back and the
-- database is as it was. It has the number of the team; each status has the number of the tasks of
-- this team in it, and no entry where there is none; the rows of the assignees are at most three,
-- from the highest number down, each with its user's number of tasks of this team that were closed
-- at most 30 days ago, which is not 0; every user has closed none of these, has a row, or has closed
-- no more than any of three others; and the comments are counted that stand at a task of the team.
pub team_stats-IsReport :
    (server : StatsServer) (team_id : ℤ) (d : Database)
    → d.faults ≡ []
    → IsReadBack server team_id d
    → (report : TeamStats) × (team_stats server team_id d ≡ (ok report, d))
      × IsReport team_id d.tables d.clock report
unfolding team_stats run stats_query sort_stats
team_stats-IsReport server team_id d calm back =
    let ts = scoped_tasks team_id d.tables in
    (
      record {
        team_id = team_id;
        tasks_by_status = back.counts;
        top_assignees_30d = order_by (stands_before string_le) back.stats;
        avg_close_seconds = average_or_null server.average (close_times ts);
        comments_total = pos (comments_of ts d.tables.task_comments);
      },
      rw (calm, back.counts_read, back.stats_read) refl,
      let top = sort_stats-IsTop server d.clock ts d.tables.users back.stats back.stats_shuffled in
          record {
            team = refl;
            by_status = λ s. (
              _,
              status-count team_id s d.tables.tasks,
              back.counts_same s ∙ status_counts-lookup s ts,
            );
            earned =
                All-imp _ _ _
                  (λ a h. (
                    _,
                    closed_by-IsCount team_id d.clock d.tables.tasks a.user_id,
                    h.0,
                    ground arith,
                  ))
                  top.counts;
            highest_first = top.highest_first;
            bounded = top.bounded;
            complete =
                All-imp _ _ _ (λ u h. (_, closed_by-IsCount team_id d.clock d.tables.tasks u.id, h))
                  top.complete;
            comments = (_, comments-count team_id d.tables.tasks d.tables.task_comments, refl);
          },
    )
