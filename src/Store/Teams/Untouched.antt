-- ===== src/Store/Teams/Untouched.antt =====
-- The methods of the store that leave the tables of teams alone keep their invariant.
use test_api.Prelude.{ℤ, String, Bool, Option, some, none, List, [], ◌∷◌, nat_eq, Dict, arith, ◌≡◌}
use test_api.Domain.Task.{NewTask, TaskUpdate, TaskFilter, FieldChange, HistoryEntry, Time}
use test_api.Store.Schema.{HistoryRow}
use test_api.Store.Driver.{Database, pure, ◌>>=◌}
use test_api.Store.Driver.Keeps.{
  Keeps, KeepsStatement, Holds, Grows, Keeps-Ends, Keeps-bind, Keeps-pure, Keeps-transaction,
  store_rules,
}
use test_api.Store.Users.{insert_user, create_user, user_by_id, user_by_email, credentials_by_email}
use test_api.Store.Teams.{membership, teams_for_user}
use test_api.Store.Teams.Owners.{TeamsValid, TeamsValid-Grows}
use test_api.Store.Tasks.Transactions.{
  create_task_body, update_task_body, create_task-transaction, update_task-transaction,
}
use test_api.Store.Tasks.{
  Json, insert_task, insert_history_row, update_task_row, create_task, update_task, task_by_id,
  list_tasks, task_history, scan_history, encoded, or_undecoded, insert_history, closed_now,
  decoded_row,
}
use test_api.Store.Stats.{StatsServer, team_stats, stats_query, or_undecoded as or_no_report}
use test_api.Store.Comments.{insert_comment, add_comment, task_comments}

-- Whatever else changes, the tables of teams are those that they were.
moved :
    (d d' : Database)
    → TeamsValid d.tables d.next
    → d'.tables.teams ≡ d.tables.teams
    → d'.tables.team_members ≡ d.tables.team_members
    → Grows d.next d'.next
    → Holds TeamsValid d.next d'
moved d d' v e f g =
    let w = TeamsValid-Grows d.tables d.next d'.next v g in
    record {
      inv = record {
        one_owner = rw (e, f) w.one_owner;
        teams_below = rw e w.teams_below;
        members_below = rw f w.members_below;
        keyed = rw f w.keyed;
      };
      grows = g;
    }

pub user_by_id-TeamsValid : (id : ℤ) → Keeps TeamsValid (user_by_id id)
unfolding user_by_id
user_by_id-TeamsValid id = search store_rules

module _ (same_text : String → String → Bool) where
  insert_user-TeamsValid :
      (email hash name : String) → KeepsStatement TeamsValid (insert_user same_text email hash name)
  unfolding insert_user
  insert_user-TeamsValid email hash name = record {
    at = λ d v. moved d _ v (ground arith) (ground arith) (ground arith);
  }

  pub create_user-TeamsValid :
      (email name hash : String) → Keeps TeamsValid (create_user same_text email name hash)
  unfolding create_user
  create_user-TeamsValid email name hash =
      search (store_rules, insert_user-TeamsValid, user_by_id-TeamsValid)

  pub user_by_email-TeamsValid : (email : String) → Keeps TeamsValid (user_by_email same_text email)
  unfolding user_by_email
  user_by_email-TeamsValid email = search store_rules

  pub credentials_by_email-TeamsValid :
      (email : String) → Keeps TeamsValid (credentials_by_email same_text email)
  unfolding credentials_by_email
  credentials_by_email-TeamsValid email = search store_rules

pub membership-TeamsValid : (team_id user_id : ℤ) → Keeps TeamsValid (membership team_id user_id)
unfolding membership
membership-TeamsValid team_id user_id = search store_rules

pub teams_for_user-TeamsValid : (user_id : ℤ) → Keeps TeamsValid (teams_for_user user_id)
unfolding teams_for_user
teams_for_user-TeamsValid user_id = search store_rules

pub task_by_id-TeamsValid : (id : ℤ) → Keeps TeamsValid (task_by_id id)
unfolding task_by_id
task_by_id-TeamsValid id = search store_rules

pub list_tasks-TeamsValid : (f : TaskFilter) → Keeps TeamsValid (list_tasks f)
unfolding list_tasks
list_tasks-TeamsValid f = search store_rules

insert_task-TeamsValid :
    (new : NewTask) (closed_at : Option Time)
    → KeepsStatement TeamsValid (insert_task new closed_at)
unfolding insert_task
insert_task-TeamsValid new closed_at = record {
  at = λ d v. moved d _ v (ground arith) (ground arith) (ground arith);
}

insert_history_row-TeamsValid :
    (task_id changed_by : ℤ) (payload : String)
    → KeepsStatement TeamsValid (insert_history_row task_id changed_by payload)
unfolding insert_history_row
insert_history_row-TeamsValid task_id changed_by payload = record {
  at = λ d v. moved d _ v (ground arith) (ground arith) (ground arith);
}

update_task_row-TeamsValid :
    (id version : ℤ) (upd : TaskUpdate) → KeepsStatement TeamsValid (update_task_row id version upd)
unfolding update_task_row
update_task_row-TeamsValid id version upd = record {
  at = λ d v. moved d _ v (ground arith) (ground arith) (ground arith);
}

insert_comment-TeamsValid :
    (task_id user_id : ℤ) (content : String)
    → KeepsStatement TeamsValid (insert_comment task_id user_id content)
unfolding insert_comment
insert_comment-TeamsValid task_id user_id content = record {
  at = λ d v. moved d _ v (ground arith) (ground arith) (ground arith);
}

pub add_comment-TeamsValid :
    (task_id user_id : ℤ) (content : String)
    → Keeps TeamsValid (add_comment task_id user_id content)
unfolding add_comment
add_comment-TeamsValid task_id user_id content = search (store_rules, insert_comment-TeamsValid)

pub task_comments-TeamsValid : (task_id : ℤ) → Keeps TeamsValid (task_comments task_id)
unfolding task_comments
task_comments-TeamsValid task_id = search store_rules

encoded-TeamsValid : (payload : Option String) → Keeps TeamsValid (encoded payload)
encoded-TeamsValid none = search store_rules
encoded-TeamsValid (some s) = search store_rules

or_undecoded-TeamsValid : (e : Option HistoryEntry) → Keeps TeamsValid (or_undecoded e)
or_undecoded-TeamsValid none = search store_rules
or_undecoded-TeamsValid (some s) = search store_rules

module _ (json : Json) where
  insert_history-TeamsValid :
      (task_id changed_by : ℤ) (changes : Dict FieldChange)
      → Keeps TeamsValid (insert_history json task_id changed_by changes)
  unfolding insert_history
  insert_history-TeamsValid task_id changed_by changes =
      search (store_rules, encoded-TeamsValid, insert_history_row-TeamsValid)

  scan_history-TeamsValid : (rows : List HistoryRow) → Keeps TeamsValid (scan_history json rows)
  unfolding scan_history
  scan_history-TeamsValid [] = search store_rules
  scan_history-TeamsValid (r ∷ rs) =
      Keeps-bind (or_undecoded (decoded_row r (json.unmarshal r.changes)))
        (λ e. scan_history json rs >>= λ rest. pure (e ∷ rest)) (or_undecoded-TeamsValid _)
        (λ e.
          Keeps-bind (scan_history json rs) (λ rest. pure (e ∷ rest)) (scan_history-TeamsValid rs)
            (λ rest. Keeps-pure (e ∷ rest)))

  pub task_history-TeamsValid : (task_id : ℤ) → Keeps TeamsValid (task_history json task_id)
  unfolding task_history
  task_history-TeamsValid task_id = search (store_rules, scan_history-TeamsValid)

  create_task_body-TeamsValid :
      (new : NewTask) (closed_at : Option Time)
      → Keeps TeamsValid (create_task_body json new closed_at)
  create_task_body-TeamsValid new closed_at =
      search (store_rules, insert_task-TeamsValid, insert_history-TeamsValid) depth 8

  pub create_task-TeamsValid : (new : NewTask) → Keeps TeamsValid (create_task json new)
  create_task-TeamsValid new = rw (create_task-transaction json new) (
      Keeps-transaction TeamsValid-Grows _
        λ d. Keeps-Ends _ (create_task_body-TeamsValid new (closed_now new.status d)) d)

  update_task_body-TeamsValid :
      (id version : ℤ) (upd : TaskUpdate) (changed_by : ℤ) (changes : Dict FieldChange)
      → Keeps TeamsValid (update_task_body json id version upd changed_by changes)
  update_task_body-TeamsValid id version upd changed_by changes =
      search (store_rules, update_task_row-TeamsValid, insert_history-TeamsValid) depth 8

  pub update_task-TeamsValid :
      (id version : ℤ) (upd : TaskUpdate) (changed_by : ℤ) (changes : Dict FieldChange)
      → Keeps TeamsValid (update_task json id version upd changed_by changes)
  update_task-TeamsValid id version upd changed_by changes =
      rw (update_task-transaction json id version upd changed_by changes) (
        Keeps-transaction TeamsValid-Grows _
          (Keeps-Ends _ (update_task_body-TeamsValid id version upd changed_by changes)))

or_no_report-TeamsValid :
    {A : Type 0} (what : String) (o : Option A) → Keeps TeamsValid (or_no_report what o)
or_no_report-TeamsValid what none = search store_rules
or_no_report-TeamsValid what (some a) = search store_rules

pub team_stats-TeamsValid :
    (server : StatsServer) (team_id : ℤ) → Keeps TeamsValid (team_stats server team_id)
unfolding team_stats stats_query
team_stats-TeamsValid server team_id = search (store_rules, or_no_report-TeamsValid)

pub ruleset untouched = (
  team_stats-TeamsValid, user_by_id-TeamsValid, create_user-TeamsValid, user_by_email-TeamsValid,
  credentials_by_email-TeamsValid, membership-TeamsValid, teams_for_user-TeamsValid,
  task_by_id-TeamsValid, list_tasks-TeamsValid, add_comment-TeamsValid, task_comments-TeamsValid,
  task_history-TeamsValid, create_task-TeamsValid, update_task-TeamsValid,
)
