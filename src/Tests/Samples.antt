-- ===== src/Tests/Samples.antt =====
-- The values of the tests: a small world with two users, a team and a task.
use test_api.Domain.Task.{TaskFilter, TaskPage, Task, TaskUpdate, NewTask, status_todo, status_done}
use test_api.Prelude.{int_eq, string_eq, pos, true, false, none, some, List, [], ◌∷◌, ok, ◌==◌}
use test_api.Domain.Optional.{absent}
use test_api.Domain.Role.{role_owner, role_admin, role_member}
use test_api.Domain.Patch.{TaskPatch}
use test_api.Domain.Rules.{Actor}
use test_api.Domain.Team.{TeamMember}
use test_api.Store.Schema.{Tables}
use test_api.Store.Driver.{Database, Fault, works, fails}
use test_api.Store.Tasks.{Json, update_task}
use test_api.Store.Stats.{StatsServer}
use test_api.Auth.{Jwt, Tokens}
use test_api.Cache.{TaskCache, PageJson}
use test_api.World.{World, Outside, Request, create_team, invite_member, change_member_role}

abbrev pub json : Json
json = record { marshal = λ changes. some "{}"; unmarshal = λ payload. some [] }

-- Its JSON is read back as the report on the team of `reported`.
abbrev pub stats_server : StatsServer
stats_server = record {
  name_le = λ a b. true;
  average = λ s ss. 0;
  object_agg = λ counts. "{}";
  array_agg = λ stats. "[]";
  unmarshal_counts = λ s. some (some (("done", pos 1) ∷ ("todo", pos 1) ∷ []));
  unmarshal_stats =
      λ s. some (some (record { user_id = pos 2; name = "Bob"; closed_tasks = pos 1 } ∷ []));
}

-- A signature that hides nothing: the token is the subject.
abbrev pub plain_jwt : Jwt
plain_jwt = record {
  new_numeric_date = λ t. t;
  signed_string = λ secret claims. ok claims.subject;
  parse_with_claims =
      λ secret token now. some (record { subject = token; issued_at = 5; expires_at = 15 });
}

abbrev pub tokens : Tokens
tokens = record { secret = "0123456789abcdef0123456789abcdef"; ttl = 10 }

abbrev pub outside : Outside
outside = record {
  json = json;
  page_json = record { marshal = λ page. none; unmarshal = λ payload. none };
  same_text = λ a b. a == b;
  stats = stats_server;
  bcrypt = record {
    generate_from_password = λ salt password. ok password;
    compare_hash_and_password = λ hash password. hash == password;
  };
  jwt = plain_jwt;
  tokens = tokens;
  mail = record { to_lower = λ s. s; is_address = λ s. s == "ann@example.com" };
}

abbrev pub cache : TaskCache
cache = record { enabled = false }

abbrev pub task : Task
task = record {
  id = pos 1;
  team_id = pos 1;
  title = "Report";
  description = "";
  status = status_todo;
  created_by = pos 1;
  assignee_id = none;
  created_at = 5;
  updated_at = 5;
  closed_at = none;
  version = pos 1;
}

abbrev pub tables : Tables
tables = record {
  users =
      record {
        id = pos 1;
        email = "ann@example.com";
        password_hash = "secret12";
        name = "Ann";
        created_at = 1;
      }
      ∷ record {
        id = pos 2;
        email = "bob@example.com";
        password_hash = "secret34";
        name = "Bob";
        created_at = 2;
      }
      ∷ [];
  teams = record { id = pos 1; name = "Core"; created_by = pos 1; created_at = 3 } ∷ [];
  team_members = record { team_id = pos 1; user_id = pos 1; role = role_owner } ∷ [];
  tasks = task ∷ [];
  task_history = [];
  task_comments = [];
}

abbrev pub database : List Fault → Database
database faults = record {
  tables = tables;
  next = record { users = 3; teams = 2; tasks = 2; task_history = 1; task_comments = 1 };
  clock = 9;
  in_transaction = false;
  faults = faults;
}

abbrev pub world : World
world = record { db = database []; redis = record { entries = []; outcomes = [] }; entropy = [] }

-- A patch that closes the task under a title with spaces round it.
abbrev pub patch : TaskPatch
patch = record {
  title = record { value = " Report 2 "; valid = true; set = true };
  description = absent "";
  status = record { value = status_done; valid = true; set = true };
  assignee_id = absent (pos 0);
  version = none;
}

abbrev pub to_done : TaskUpdate
to_done = record {
  title = "Report 2";
  description = "";
  status = status_done;
  assignee_id = none;
  closed_at = some 9;
}

abbrev pub ann : Actor
ann = record { user_id = pos 1; role = role_owner }

abbrev pub bob : TeamMember
bob = record {
  team_id = pos 1;
  user_id = pos 2;
  role = role_member;
  email = "bob@example.com";
  name = "Bob";
}

-- Ann founds a second team, invites Bob to it as a member and makes him an admin.
abbrev pub requests : List Request
requests =
    create_team (pos 1) "Second"
    ∷ invite_member (pos 1) (pos 2) (record { email = ""; user_id = pos 2; role = role_member })
    ∷ change_member_role (pos 1) (pos 2) (pos 2) role_admin
    ∷ []

-- The database after Ann's update of version 1.
abbrev pub updated : Database
updated = (update_task json (pos 1) (pos 1) to_done (pos 1) [] (database [])).1

abbrev pub done : Task
done = record task {
  title = "Report 2";
  status = status_done;
  closed_at = some 9;
  updated_at = 9;
  version = pos 2;
}

-- The first page of Ann's open tasks.
abbrev pub open_tasks : TaskFilter
open_tasks = record {
  team_id = pos 1;
  status = some status_todo;
  assignee_id = none;
  limit = pos 20;
  offset = pos 0;
}

-- An update whose history entry cannot be written is rolled back.
abbrev pub cut_off : Database
cut_off = database (works ∷ works ∷ fails "gone" ∷ [])

abbrev pub new_task : NewTask
new_task = record {
  team_id = pos 1;
  title = "Ship";
  description = "";
  status = "todo";
  created_by = pos 1;
  assignee_id = none;
}

abbrev pub page : TaskPage
page = record { items = task ∷ []; limit = pos 20; offset = pos 0 }

abbrev pub one_page : PageJson
one_page = record { marshal = λ p. some "page"; unmarshal = λ s. some page }

-- Beside Ann's open task, one that Bob has done.
abbrev pub reported : Database
reported = record (database []) {
  tables = record tables {
    tasks = task ∷ record done { id = pos 2; assignee_id = some (pos 2) } ∷ [];
  };
}
