-- ===== src/Tests/Worlds.antt =====
-- The theorems about the tasks, the cache and the start of the program at concrete values.
use test_api.Prelude.{
  ℕ, ℤ, pos, String, true, ◌≡◌, refl, none, some, Option, List, [], ◌∷◌, ok, arith, int_beq_iff,
  ◌==◌, int_eq, string_eq, ◌&&◌, if◌then◌else◌, lookup, insert, trim_space, format_int,
}
use test_api.Domain.Task.{
  Task, TaskFilter, TaskPage, status_done, valid, terminal, close_timestamp, creation_changes,
}
use test_api.Domain.Patch.{diff, apply}
use test_api.Domain.Rules.{
  validate, authorize_task_update, require_fields, contains, check_title_field,
  check_description_field, check_status_field, check_assignee_field, check_version_field,
}
use test_api.Store.Driver.{begin, no_rows_error}
use test_api.Store.Teams
use test_api.Store.Tasks
use test_api.Store.Tasks.{update_task_row, task_by_id, insert_history, insert_history_row}
use test_api.Service.Members.{task_for_member, assignee_in_team}
use test_api.Store.Tasks.Valid.{TasksValid}
use test_api.Cache.{TaskCache, PageJson, get, set, invalidate}
use test_api.Cache.Keys.{one_status, list_key_inj}
use test_api.Cache.Fresh.{IsExact, page_of}
use test_api.Service.Tasks.{list_tasks, update_task, save_changes}
use test_api.World as Program
use test_api.World.{World, Outside, Request, service, serve}
use test_api.Store.Tasks.Told.{blank, TasksTold, created-SameFields, applied, done as done_replay}
use test_api.World.Told.Serving.{serve-TasksTold}
use test_api.World.TaskRows.{serve-TasksValid}
use test_api.World.Freshness.Requests.{normalized}
use test_api.World.Freshness.Serving.{serve-fresh}
use test_api.Tests.Samples.{task, outside, cache, done, world, patch, open_tasks}

world-TasksValid : TasksValid world.db.tables world.db.next
unfolding terminal valid
world-TasksValid = record {
  rows = (
    record {
      closed_well = ground arith;
      status = refl;
      above = omega arith;
      below = omega arith;
      version_above = omega arith;
      version_below = omega arith;
    },
    tt,
  );
  ascending = (tt, tt);
  counted = omega arith;
}

-- Ann closes the task.
abbrev closing : List Request
closing = Program.update_task (pos 1) (pos 1) patch ∷ []

serve-TasksValid_example :
    TasksValid
      (serve outside cache closing world).db.tables
      (serve outside cache closing world).db.next
serve-TasksValid_example = serve-TasksValid outside cache closing world world-TasksValid

-- Both filters ask for the first page of the open tasks.
list_key_inj_example : (open_tasks ≡ open_tasks) × ◌≡◌ {A = ℕ} 3 3
unfolding valid
list_key_inj_example =
    list_key_inj open_tasks open_tasks 3 3 (one_status "todo" refl refl)
      (one_status "todo" refl refl) refl

-- Only the first page of no tasks has a text.
abbrev no_tasks : TaskPage
no_tasks = record { items = []; limit = pos 20; offset = pos 0 }

abbrev empty_page_text : List Task → ℤ → ℤ → Option String
empty_page_text [] limit offset = if limit == pos 20 && offset == pos 0 then some "empty" else none
empty_page_text (t ∷ ts) limit offset = none

abbrev page_json : PageJson
page_json = record {
  marshal = λ p. empty_page_text p.items p.limit p.offset;
  unmarshal = λ s. some no_tasks;
}

page_json-IsExact : IsExact page_json
page_json-IsExact = record { read_back = λ p s e. read_back p.items p.limit p.offset s e }
  where
    read_back :
        (items : List Task) (limit offset : ℤ) (s : String)
        → empty_page_text items limit offset ≡ some s
        → ◌≡◌ {A = Option TaskPage}
            (some no_tasks)
            (some (record { items = items; limit = limit; offset = offset }))
    read_back [] limit offset s e =
        ground (arith, int_beq_iff limit (pos 20), int_beq_iff offset (pos 0))
    read_back (t ∷ ts) limit offset s e = cc

abbrev cached : TaskCache
cached = record { enabled = true }

abbrev with_pages : Outside
with_pages = record outside { page_json = page_json }

abbrev done_tasks : TaskFilter
done_tasks = record open_tasks { status = some status_done }

-- Ann looks at the tasks that are done, of which there are none, and then closes one.
abbrev look_and_close : List Request
look_and_close = Program.list_tasks (pos 1) done_tasks ∷ closing

abbrev after : World
after = serve with_pages cached look_and_close world

looked : list_tasks (service with_pages cached) (pos 1) done_tasks after ≡ (
  ok (record { items = done ∷ []; limit = pos 20; offset = pos 0 }),
  (list_tasks (service with_pages cached) (pos 1) done_tasks after).1,
)
unfolding serve list_tasks update_task save_changes task_for_member assignee_in_team validate
    check_title_field check_description_field check_status_field check_assignee_field
    check_version_field diff apply authorize_task_update require_fields close_timestamp terminal
    Teams.membership task_by_id Tasks.list_tasks Tasks.update_task begin update_task_row
    insert_history insert_history_row no_rows_error get set invalidate trim_space lookup insert
    format_int contains
looked = refl

serve-fresh_example :
    record { items = done ∷ []; limit = pos 20; offset = pos 0 }
    ≡ page_of (normalized done_tasks) after.db.tables.tasks
serve-fresh_example =
    serve-fresh with_pages cached look_and_close world _ (pos 1) done_tasks _ refl page_json-IsExact
      refl refl world-TasksValid tt looked

-- The world with the entry that the founding of its task has left.
abbrev told_world : World
told_world = record world {
  db = record (world.db) {
    tables = record (world.db.tables) {
      task_history =
          record { id = pos 1; task_id = pos 1; changed_by = pos 1; changes = "{}"; created_at = 5 }
          ∷ [];
    };
  };
}

told_world-TasksTold : TasksTold outside.json told_world.db.tables told_world.db.next
told_world-TasksTold = record {
  valid = record {
    rows = world-TasksValid.rows;
    ascending = world-TasksValid.ascending;
    counted = world-TasksValid.counted;
  };
  told = (
    record {
      end = apply blank (creation_changes task);
      replay =
          applied blank _ _ [] (creation_changes task) refl refl
            (done_replay (apply blank (creation_changes task)));
      same = created-SameFields task;
    },
    tt,
  );
  known = (omega arith, tt);
}

serve-TasksTold_example :
    let after_closing = serve outside cache closing told_world in
    TasksTold outside.json after_closing.db.tables after_closing.db.next
serve-TasksTold_example = serve-TasksTold outside cache closing told_world told_world-TasksTold
