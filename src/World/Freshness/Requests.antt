-- ===== src/World/Freshness/Requests.antt =====
-- `CreateTask`, `UpdateTask` and `ListTasks` of internal/service/task.go, over the cache and the tables.
use test_api.Prelude.{
  ℤ, String, ◌≡◌, refl, sym, ap, ◌∙◌, subst, true, List, [], ◌∷◌, Dict, Option, none, some, ok, err,
  inl, inr, ◌⊎◌, arith,
}
use test_api.Domain.Errors.{Error, Failure, other}
use test_api.Domain.Task.{Task, TaskFilter, TaskPage, FieldChange}
use test_api.Domain.Task.Closing.{close_timestamp-IsClosedWell}
use test_api.Domain.Patch.{TaskPatch}
use test_api.Store.Driver.{Database, Fault, works, fails, is_lost, run, plain}
use test_api.Store.Tasks.{list_rows, list_tasks as list_query}
use test_api.Store.Tasks.Valid.Methods.{create_task-TasksValid, update_task-TasksValid}
use test_api.Store.Tasks.Writes.Bodies.{create_task-Writes}
use test_api.Store.Tasks.Writes.Updates.{update_task-Writes}
use test_api.Store.Steady.Methods.{list_tasks-Steady}
use test_api.Cache.{TaskCache}
use test_api.Cache.Keys.{IsListed, any_status, one_status}
use test_api.Cache.Fresh.{IsExact, IsFresh, IsMissOr, page_of, get-IsFresh, set-IsFresh}
use test_api.Service.Exec.{pure, call, step, modify, ◌>>◌}
use test_api.Service.Tasks.{
  NewTaskRequest, create_task, save_changes, save_if_changed, update_task, list_tasks,
  page_or_query, check_status, normalize_limit, normalize_offset,
}
use test_api.World.{World, Outside, on_db, service}
use test_api.World.Steady.{Steady-call}
use test_api.World.Steady.Cases.{
  membership-Steady, task_for_member-Steady, assignee_in_team-Steady, now-Steady,
}
use test_api.World.Freshness.{
  IsSound, Unmoved-IsSound, Sound, Sound-pure, Sound-lift, Sound-Steady, Sound-bind, Sound-write,
  Gives-Steady,
}
use test_api.World.Gives.{Gives, Gives-bind, Gives-check}

-- The filter that the service lists by.
abbrev pub normalized : TaskFilter → TaskFilter
normalized f = record f { limit = normalize_limit f.limit; offset = normalize_offset f.offset }

check_status-IsListed :
    (f : TaskFilter) (u : Unit) → check_status f.status ≡ ok u → IsListed (normalized f)
unfolding check_status
check_status-IsListed f u e = by_status f.status refl
  where
    by_status : (s : Option String) → f.status ≡ s → IsListed (normalized f)
    by_status none h = any_status h
    by_status (some s) h = one_status s h (ground arith)

-- The rows of the query, or an error of the driver.
list_query-rows :
    (f : TaskFilter) (d : Database) (fs : List Fault)
    → d.faults ≡ fs
    → ((list_query f d).0 ≡ ok (list_rows f d.tables.tasks))
      ⊎ ((e : Failure) × ((list_query f d).0 ≡ err e))
unfolding list_query run
list_query-rows f d [] e = inl (rw (e, run) refl)
list_query-rows f d (works ∷ rest) e = inl (rw (e, run) refl)
list_query-rows f d (fails why ∷ rest) e = inr (plain (other why) "select tasks", rw (e, run) refl)
list_query-rows f d (is_lost why ∷ rest) e =
    inr (plain (other why) "select tasks", rw (e, run) refl)

found_page :
    (page page' : TaskPage)
    → (◌≡◌ {A = Option TaskPage} (some page) none) ⊎ (some page ≡ some page')
    → page ≡ page'
found_page page page' (inl h) = cc
found_page page page' (inr h) = cc

module _ (o : Outside) (c : TaskCache) (enabled : c.enabled ≡ true) where
  pub create_task-Sound :
      (user : ℤ) (req : NewTaskRequest) → Sound o c (create_task (service o c) user req)
  unfolding create_task
  create_task-Sound user req =
      search
        (
          Sound-lift, Sound-bind, Sound-write, Sound-Steady, membership-Steady,
          assignee_in_team-Steady, create_task-Writes, create_task-TasksValid,
        )
        depth 12

  save_changes-Sound :
      (user : ℤ) (task : Task) (changes : Dict FieldChange)
      → Sound o c (save_changes (service o c) user task changes)
  unfolding save_changes
  save_changes-Sound user task changes =
      search
        (
          Sound-bind, Sound-write, Sound-Steady, assignee_in_team-Steady, now-Steady,
          update_task-Writes, update_task-TasksValid, close_timestamp-IsClosedWell,
        )
        depth 12

  save_if_changed-Sound :
      (user : ℤ) (task : Task) (changes : Dict FieldChange)
      → Sound o c (save_if_changed (service o c) user task changes)
  save_if_changed-Sound user task [] = Sound-pure o c task
  save_if_changed-Sound user task (x ∷ changes) = save_changes-Sound user task (x ∷ changes)

  pub update_task-Sound :
      (user id : ℤ) (patch : TaskPatch) → Sound o c (update_task (service o c) user id patch)
  unfolding update_task
  update_task-Sound user id patch =
      search (Sound-lift, Sound-bind, Sound-Steady, task_for_member-Steady, save_if_changed-Sound)
        depth 8

  abbrev pub IsAt : List Task → World → Type 0
  IsAt ts w = IsSound o c w × (w.db.tables.tasks ≡ ts)

  -- The page of the query, on tasks that are still those.
  abbrev pub IsPage : TaskFilter → List Task → TaskPage → World → Type 0
  IsPage f ts page w = IsAt ts w × (page ≡ page_of f ts)

  get-Gives :
      (f : TaskFilter) (ts : List Task)
      → IsListed f
      → Gives
          (IsSound o c)
          (IsAt ts)
          (step ((service o c).cache.get f))
          λ cached w. IsAt ts w × IsMissOr c o.page_json (page_of f ts) cached
  get-Gives f ts listed = record {
    at = λ w (s, e).
        let (found, same) =
          get-IsFresh c o.page_json enabled f w.db.tables.tasks w.redis listed s.fresh in
        (
          (record { fresh = rw same s.fresh; valid = s.valid; answered = s.answered }, e),
          subst (λ us. IsMissOr c o.page_json (page_of f us) ((service o c).cache.get f w).0) e
              found,
        );
  }

  query-Gives :
      (f : TaskFilter) (ts : List Task) (on_error : Failure → Error)
      → Gives
          (IsSound o c)
          (IsAt ts)
          (call (on_db (list_query f)) on_error)
          λ rows w. IsAt ts w × (rows ≡ list_rows f ts)
  query-Gives f ts on_error = record {
    at = λ w (s, e).
        let still = (Steady-call (list_query f) on_error (list_tasks-Steady f)).at w in
        let sound = Unmoved-IsSound o c w _ still s in
        elim (list_query-rows f w.db w.db.faults refl) [
          | inl there ↦ rw there ((sound, still.db.tasks ∙ e), ap (list_rows f) e)
          | inr (x, failed) ↦ rw failed sound
        ];
  }

  set-Gives :
      (f : TaskFilter) (ts : List Task) (rows : List Task)
      → IsExact o.page_json
      → IsListed f
      → let page : TaskPage = record { items = rows; limit = f.limit; offset = f.offset } in
        Gives
          (IsSound o c)
          (λ w. IsAt ts w × (rows ≡ list_rows f ts))
          (modify ((service o c).cache.set f page) >> pure page)
          (IsPage f ts)
  set-Gives f ts rows exact listed = record {
    at = λ w ((s, e), same).
        let page : page_of f w.db.tables.tasks
            ≡ record { items = rows; limit = f.limit; offset = f.offset } =
          ap (λ us. record { items = us; limit = f.limit; offset = f.offset })
            (ap (list_rows f) e ∙ sym same) in
        (
          (
            record {
              fresh =
                  subst
                    (λ p.
                      IsFresh c o.page_json w.db.tables.tasks ((service o c).cache.set f p w).redis)
                    page
                    (set-IsFresh c o.page_json enabled f w.db.tables.tasks w.redis exact listed
                      s.fresh);
              valid = s.valid;
              answered = s.answered;
            },
            e,
          ),
          sym page ∙ ap (page_of f) e,
        );
  }

  page_or_query-Gives :
      (f : TaskFilter) (ts : List Task) (cached : Option TaskPage)
      → IsExact o.page_json
      → IsListed f
      → Gives
          (IsSound o c)
          (λ w. IsAt ts w × IsMissOr c o.page_json (page_of f ts) cached)
          (page_or_query (service o c) f cached)
          (IsPage f ts)
  unfolding page_or_query
  page_or_query-Gives f ts (some page) exact listed = record {
    at = λ w (at, found). (at, found_page page (page_of f ts) found);
  }
  page_or_query-Gives f ts none exact listed = record {
    at = λ w (at, _).
        (Gives-bind (IsSound o c) (IsAt ts) (λ rows w. IsAt ts w × (rows ≡ list_rows f ts))
            (IsPage f ts) _ _ (query-Gives f ts _) λ rows. set-Gives f ts rows exact listed).at
          w at;
  }

  pub list_tasks-Gives :
      (user : ℤ) (f : TaskFilter) (ts : List Task)
      → IsExact o.page_json
      → Gives (IsSound o c) (IsAt ts) (list_tasks (service o c) user f) (IsPage (normalized f) ts)
  unfolding list_tasks
  list_tasks-Gives user f ts exact =
      Gives-check (IsSound o c) (IsAt ts) _ _ _ (λ w at. at.0)
        λ _ _.
          Gives-check (IsSound o c) (IsAt ts) _ _ _ (λ w at. at.0)
            λ u passed.
              Gives-bind (IsSound o c) (IsAt ts) (λ _. IsAt ts) _ _ _
                (Gives-Steady o c ts _ (membership-Steady o c f.team_id user))
                λ _.
                  Gives-bind (IsSound o c) (IsAt ts) _ _ _ _
                    (get-Gives (normalized f) ts (check_status-IsListed f u passed))
                    λ cached.
                      page_or_query-Gives (normalized f) ts cached exact
                        (check_status-IsListed f u passed)
