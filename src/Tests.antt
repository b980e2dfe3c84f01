-- ===== src/Tests.antt =====
-- The theorems at concrete values.
mod Samples
mod Requests
mod Http
mod Rules
mod Worlds
mod Starting
use test_api.Store.Tasks.Recording.{recorded, update_task-recorded}
use test_api.Store.Tasks.Pages.{IsPage, list_tasks-IsPage}
use test_api.Store.Driver.{run, begin, classify}
use test_api.Store.Tasks.{
  list_tasks, list_rows, task_by_id, create_task, update_task, update_task_row, insert_history,
}
use test_api.Prelude.{
  insert, order_by, int_eq, string_eq, lookup, find, select, order_desc, insert_desc, drop, take,
  pos, String, ◌≡◌, refl, true, some, [], ◌∷◌, ok, err, ◌↔◌, ◌⊎◌, ◌≤ℤ◌, trim_space, arith, ◌==◌,
  any, format_int, List, false, Result,
}
use Prim.Native.String.{◌++◌ as ◌<>◌}
use test_api.Domain.Errors.{
  wrap, foreign, other, unauthorized, sentinel, err_not_found, err_version_conflict,
}
use test_api.Domain.Task.{Task}
use test_api.Domain.Rules.{
  check_title_field, check_description_field, check_status_field, check_assignee_field,
  check_version_field, validate, validate_comment,
}
use test_api.Domain.User.{normalize_email}
use test_api.Store.Driver.Atomic.{IsAtomic, methods-IsAtomic}
use test_api.Store.Tasks.Locking.{update_then_conflict}
use test_api.Store.Teams.{membership, create_team}
use test_api.Store.Teams.Owners.{TeamsValid}
use test_api.Service.Auth.{login}
use test_api.Service.Auth.Refusal.{malformed, login_refused}
use test_api.Service.Tasks.{
  normalize_limit, normalize_offset, task_history, list_comments, add_comment,
  update_task as update_task_of,
}
use test_api.Service.Tasks.Limits.{normalize_bounds}
use test_api.Service.Tasks.Hiding.{IsHidden, foreign as foreign_team, no_task, hidden_alike}
use test_api.Cache.{TaskCache, get, set}
use test_api.Cache.Pages.{get-set}
use test_api.World.{serve, service}
use test_api.World.Roles.{serve-TeamsValid}
use mathlib.Core.List.Permᴰ
use test_api.Domain.Stats.{TeamStats}
use test_api.Store.Stats.{team_stats, status_counts, closed_last_30d}
use test_api.Store.Stats.Report.{IsReadBack, IsReport, team_stats-IsReport}
use test_api.Tests.Samples.{
  stats_server, reported, json, outside, cache, task, tables, database, world, patch, to_done,
  requests, updated, done, open_tasks, cut_off, new_task, page, one_page,
}

world-TeamsValid : TeamsValid world.db.tables world.db.next
unfolding any
world-TeamsValid = record {
  one_owner = (refl, tt);
  teams_below = (omega arith, tt);
  members_below = (omega arith, tt);
  keyed = (refl, tt);
}

serve-TeamsValid_example :
    TeamsValid
      (serve outside cache requests world).db.tables
      (serve outside cache requests world).db.next
serve-TeamsValid_example = serve-TeamsValid outside cache requests world world-TeamsValid

update_task_works :
    update_task json (pos 1) (pos 1) to_done (pos 1) [] (database []) ≡ (ok done, updated)
unfolding update_task begin update_task_row insert_history
update_task_works = refl

update_then_conflict_example :
    let (r, d) = update_task json (pos 1) (pos 1) to_done (pos 2) [] updated in
    (r ≡ err (wrap ("update task " <> format_int (pos 1)) (sentinel err_version_conflict)))
    × (d.tables ≡ updated.tables)
update_then_conflict_example =
    update_then_conflict json (pos 1) (pos 1) to_done to_done (pos 1) (pos 2) [] [] (database [])
      updated done refl update_task_works

update_task-recorded_example :
    (updated.tables ≡ recorded (database []) (pos 1) (pos 1) to_done (pos 1) "{}")
    × (find (λ (t : Task). t.id == pos 1) updated.tables.tasks ≡ some done)
update_task-recorded_example =
    update_task-recorded json (pos 1) (pos 1) to_done (pos 1) [] "{}" (database []) updated done
      refl refl update_task_works

open_tasks_page : list_tasks open_tasks (database []) ≡ (ok (task ∷ []), database [])
unfolding list_tasks run list_rows select order_desc insert_desc drop take
open_tasks_page = refl

list_tasks-IsPage_example :
    IsPage open_tasks (task ∷ []) × ((database []).tables ≡ (database []).tables)
list_tasks-IsPage_example =
    list_tasks-IsPage open_tasks (database []) (database []) (task ∷ []) open_tasks_page

-- Bob is not in Ann's team.
bob_sees_nothing : IsHidden (service outside cache).db (pos 1) (pos 2) world
unfolding task_by_id membership
bob_sees_nothing =
    foreign_team task world (wrap "select membership" (sentinel err_not_found)) world refl refl

accepted : validate patch ≡ ok tt
unfolding validate check_title_field trim_space check_description_field check_status_field
    check_assignee_field check_version_field
accepted = refl

accepted_comment : validate_comment "Hello" ≡ ok tt
unfolding validate_comment trim_space
accepted_comment = refl

hidden_alike_example :
    ((task_history (service outside cache) (pos 2) (pos 1) world).0 ≡ err (no_task (pos 1)))
    × ((list_comments (service outside cache) (pos 2) (pos 1) world).0 ≡ err (no_task (pos 1)))
    × ((add_comment (service outside cache) (pos 2) (pos 1) "Hello" world).0
        ≡ err (no_task (pos 1)))
    × ((update_task_of (service outside cache) (pos 2) (pos 1) patch world).0
        ≡ err (no_task (pos 1)))
hidden_alike_example =
    hidden_alike (service outside cache) (pos 2) (pos 1) world bob_sees_nothing patch "Hello"
      accepted accepted_comment

login_refused_example :
    (login (service outside cache) "nobody" "secret" world).0
    ≡ err (unauthorized "invalid email or password" [])
unfolding normalize_email trim_space
login_refused_example =
    login_refused (service outside cache) "nobody" "secret" world (malformed _ refl)

cut_off_fails :
    update_task json (pos 1) (pos 1) to_done (pos 1) [] cut_off
    ≡ (err (wrap "insert task history" (foreign (other "gone"))), database [])
unfolding update_task begin update_task_row insert_history classify
cut_off_fails = refl

methods-IsAtomic_example :
    IsAtomic cut_off (create_team "Core" (pos 1) cut_off)
    × IsAtomic cut_off (create_task json new_task cut_off)
    × IsAtomic cut_off (update_task json (pos 1) (pos 1) to_done (pos 1) [] cut_off)
methods-IsAtomic_example =
    methods-IsAtomic json "Core" new_task (pos 1) (pos 1) (pos 1) to_done [] cut_off refl

normalize_bounds_example :
    (pos 1 ≤ℤ normalize_limit (pos 500))
    × (normalize_limit (pos 500) ≤ℤ pos 100)
    × ((normalize_limit (pos 500) ≡ pos 500) ↔ ((pos 1 ≤ℤ pos 500) × (pos 500 ≤ℤ pos 100)))
    × (pos 0 ≤ℤ normalize_offset (pos 3))
    × ((normalize_offset (pos 3) ≡ pos 3) ↔ (pos 0 ≤ℤ pos 3))
normalize_bounds_example = normalize_bounds (pos 500) (pos 3)

get-set_example :
    let used : TaskCache = record { enabled = true } in
    (get used one_page open_tasks (set used one_page open_tasks page world.redis)).0 ≡ some page
unfolding lookup
get-set_example =
    get-set (record { enabled = true }) one_page open_tasks page world.redis 0 "page" refl refl refl
      refl refl

reported-IsReadBack : IsReadBack stats_server (pos 1) reported
unfolding select status_counts closed_last_30d order_by lookup insert take
reported-IsReadBack = record {
  counts = ("done", pos 1) ∷ ("todo", pos 1) ∷ [];
  counts_read = refl;
  counts_same = λ s. refl;
  stats = _;
  stats_read = refl;
  stats_shuffled = Permᴰ.refl _;
}

team_stats-IsReport_example :
    (report : TeamStats) × (team_stats stats_server (pos 1) reported ≡ (ok report, reported))
    × IsReport (pos 1) reported.tables 9 report
team_stats-IsReport_example =
    team_stats-IsReport stats_server (pos 1) reported refl reported-IsReadBack
