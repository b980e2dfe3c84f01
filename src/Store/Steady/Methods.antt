-- ===== src/Store/Steady/Methods.antt =====
-- The methods of internal/store but `CreateTask` and `UpdateTask`, by those rules.
use test_api.Prelude.{ℤ, String, Bool, Option, some, none, List, [], ◌∷◌, arith}
use test_api.Domain.Role.{Role}
use test_api.Domain.Task.{HistoryEntry, TaskFilter}
use test_api.Store.Schema.{HistoryRow}
use test_api.Store.Driver.{pure, ◌>>=◌}
use test_api.Store.Steady.{Steady, SteadyStatement, steady_rules, Steady-bind, Steady-pure}
use test_api.Store.Users.{insert_user, create_user, user_by_id, user_by_email, credentials_by_email}
use test_api.Store.Teams.Transactions.{create_team-transaction}
use test_api.Store.Teams.{
  insert_team, insert_member, update_role, create_team, add_member, membership, update_member_role,
  teams_for_user,
}
use test_api.Store.Tasks.{
  Json, task_by_id, list_tasks, task_history, scan_history, or_undecoded, decoded_row,
}
use test_api.Store.Comments.{insert_comment, add_comment, task_comments}
use test_api.Store.Stats.{StatsServer, stats_query, team_stats, or_undecoded as or_no_report}

insert_user-Steady :
    (same_text : String → String → Bool) (email hash name : String)
    → SteadyStatement (insert_user same_text email hash name)
unfolding insert_user
insert_user-Steady same_text email hash name = record {
  at = λ d. record {
    tasks = ground arith;
    history = ground arith;
    grows = ground arith;
    answered = λ q. ground arith;
  };
}

pub user_by_id-Steady : (user_id : ℤ) → Steady (user_by_id user_id)
unfolding user_by_id
user_by_id-Steady user_id = search steady_rules

pub create_user-Steady :
    (same_text : String → String → Bool) (email name hash : String)
    → Steady (create_user same_text email name hash)
unfolding create_user
create_user-Steady same_text email name hash =
    search (steady_rules, insert_user-Steady, user_by_id-Steady)

pub user_by_email-Steady :
    (same_text : String → String → Bool) (email : String) → Steady (user_by_email same_text email)
unfolding user_by_email
user_by_email-Steady same_text email = search steady_rules

pub credentials_by_email-Steady :
    (same_text : String → String → Bool) (email : String)
    → Steady (credentials_by_email same_text email)
unfolding credentials_by_email
credentials_by_email-Steady same_text email = search steady_rules

insert_team-Steady :
    (name : String) (created_by : ℤ) → SteadyStatement (insert_team name created_by)
unfolding insert_team
insert_team-Steady name created_by = record {
  at = λ d. record {
    tasks = ground arith;
    history = ground arith;
    grows = ground arith;
    answered = λ q. ground arith;
  };
}

insert_member-Steady :
    (team_id user_id : ℤ) (role : Role) → SteadyStatement (insert_member team_id user_id role)
unfolding insert_member
insert_member-Steady team_id user_id role = record {
  at = λ d. record {
    tasks = ground arith;
    history = ground arith;
    grows = ground arith;
    answered = λ q. ground arith;
  };
}

update_role-Steady :
    (team_id user_id : ℤ) (role : Role) → SteadyStatement (update_role team_id user_id role)
unfolding update_role
update_role-Steady team_id user_id role = record {
  at = λ d. record {
    tasks = ground arith;
    history = ground arith;
    grows = ground arith;
    answered = λ q. ground arith;
  };
}

pub create_team-Steady : (name : String) (created_by : ℤ) → Steady (create_team name created_by)
create_team-Steady name created_by =
    rw (create_team-transaction name created_by)
      (search (steady_rules, insert_team-Steady, insert_member-Steady) depth 10)

pub add_member-Steady :
    (team_id user_id : ℤ) (role : Role) → Steady (add_member team_id user_id role)
unfolding add_member
add_member-Steady team_id user_id role = search (steady_rules, insert_member-Steady)

pub membership-Steady : (team_id user_id : ℤ) → Steady (membership team_id user_id)
unfolding membership
membership-Steady team_id user_id = search steady_rules

pub update_member_role-Steady :
    (team_id user_id : ℤ) (role : Role) → Steady (update_member_role team_id user_id role)
unfolding update_member_role
update_member_role-Steady team_id user_id role =
    search (steady_rules, update_role-Steady, membership-Steady)

pub teams_for_user-Steady : (user_id : ℤ) → Steady (teams_for_user user_id)
unfolding teams_for_user
teams_for_user-Steady user_id = search steady_rules

pub task_by_id-Steady : (task_id : ℤ) → Steady (task_by_id task_id)
unfolding task_by_id
task_by_id-Steady task_id = search steady_rules

pub list_tasks-Steady : (f : TaskFilter) → Steady (list_tasks f)
unfolding list_tasks
list_tasks-Steady f = search steady_rules

or_undecoded-Steady : (e : Option HistoryEntry) → Steady (or_undecoded e)
or_undecoded-Steady none = search steady_rules
or_undecoded-Steady (some e) = search steady_rules

scan_history-Steady : (json : Json) (rows : List HistoryRow) → Steady (scan_history json rows)
unfolding scan_history
scan_history-Steady json [] = search steady_rules
scan_history-Steady json (r ∷ rs) =
    Steady-bind (or_undecoded (decoded_row r (json.unmarshal r.changes)))
      (λ e. scan_history json rs >>= λ rest. pure (e ∷ rest)) (or_undecoded-Steady _)
      (λ e.
        Steady-bind (scan_history json rs) (λ rest. pure (e ∷ rest)) (scan_history-Steady json rs)
          (λ rest. Steady-pure (e ∷ rest)))

pub task_history-Steady : (json : Json) (task_id : ℤ) → Steady (task_history json task_id)
unfolding task_history
task_history-Steady json task_id = search (steady_rules, scan_history-Steady)

insert_comment-Steady :
    (task_id user_id : ℤ) (content : String)
    → SteadyStatement (insert_comment task_id user_id content)
unfolding insert_comment
insert_comment-Steady task_id user_id content = record {
  at = λ d. record {
    tasks = ground arith;
    history = ground arith;
    grows = ground arith;
    answered = λ q. ground arith;
  };
}

pub add_comment-Steady :
    (task_id user_id : ℤ) (content : String) → Steady (add_comment task_id user_id content)
unfolding add_comment
add_comment-Steady task_id user_id content = search (steady_rules, insert_comment-Steady)

pub task_comments-Steady : (task_id : ℤ) → Steady (task_comments task_id)
unfolding task_comments
task_comments-Steady task_id = search steady_rules

or_no_report-Steady : {A : Type 0} (what : String) (o : Option A) → Steady (or_no_report what o)
or_no_report-Steady what none = search steady_rules
or_no_report-Steady what (some a) = search steady_rules

pub team_stats-Steady : (server : StatsServer) (team_id : ℤ) → Steady (team_stats server team_id)
unfolding team_stats stats_query
team_stats-Steady server team_id = search (steady_rules, or_no_report-Steady)

pub ruleset steady_methods = (
  create_user-Steady, user_by_id-Steady, user_by_email-Steady, credentials_by_email-Steady,
  create_team-Steady, add_member-Steady, membership-Steady, update_member_role-Steady,
  teams_for_user-Steady, task_by_id-Steady, list_tasks-Steady, task_history-Steady,
  add_comment-Steady, task_comments-Steady, team_stats-Steady,
)
