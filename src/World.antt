-- ===== src/World.antt =====
-- The program as cmd/api/main.go puts it together: the use cases over the store, the cache, the hasher
-- and the tokens.
pub mod Freshness
pub mod Gives
pub mod Keeps
pub mod Owners
pub mod Roles
pub mod Steady
pub mod TaskRows
pub mod Told
use test_api.Prelude.{ℕ, ℤ, String, Option, Bool, Result, ok, List, [], ◌∷◌, if◌then◌else◌}
use test_api.Domain.Errors.{Failure}
use test_api.Domain.Task.{Time}
use test_api.Domain.User.{Mail}
use test_api.Store.Driver.{Database, Method}
use test_api.Store.Users
use test_api.Store.Teams
use test_api.Store.Tasks
use test_api.Store.Tasks.{Json}
use test_api.Store.Comments
use test_api.Store.Stats
use test_api.Store.Stats.{StatsServer}
use test_api.Cache.{
  Redis, TaskCache, PageJson, get as get_page, set as set_page, invalidate as invalidate_team,
}
use test_api.Domain.Role.{Role}
use test_api.Domain.Patch.{TaskPatch}
use test_api.Domain.Task.{TaskFilter}
use test_api.Service.Auth
use test_api.Auth.{Bcrypt, Jwt, Tokens, hash, verify, issue}
use test_api.Service.Teams as UseTeams
use test_api.Service.Teams.{InviteRequest}
use test_api.Service.Tasks as UseTasks
use test_api.Service.Tasks.{NewTaskRequest}
use test_api.Service.Exec.{Call}
use test_api.Service.Interfaces.{Service, Db, Cache}

-- `entropy` is what crypto/rand will give.
pub record World : Type 0 where
  pub db : Database
  pub redis : Redis
  pub entropy : List ℕ

abbrev pub on_db : {A : Type 0} → Method A → Call World A
on_db m w = let (r, d) = m w.db in (r, record w { db = d })

-- The requests of internal/httpapi that reach a use case, with the user of the token.
pub data Request : Type 0 where
  register : String → String → String → Request
  login : String → String → Request
  create_team : ℤ → String → Request
  list_teams : ℤ → Request
  invite_member : ℤ → ℤ → InviteRequest → Request
  change_member_role : ℤ → ℤ → ℤ → Role → Request
  team_stats : ℤ → ℤ → Request
  create_task : ℤ → NewTaskRequest → Request
  update_task : ℤ → ℤ → TaskPatch → Request
  list_tasks : ℤ → TaskFilter → Request
  task_history : ℤ → ℤ → Request
  add_comment : ℤ → ℤ → String → Request
  list_comments : ℤ → ℤ → Request

-- What is not the program's: encoding/json, the collations and functions of the server, bcrypt, JWT
-- with the secret, and the standard library's part of an address.
pub record Outside : Type 0 where
  pub json : Json
  pub page_json : PageJson
  pub same_text : String → String → Bool
  pub stats : StatsServer
  pub bcrypt : Bcrypt
  pub jwt : Jwt
  pub tokens : Tokens
  pub mail : Mail

module _ (o : Outside) (c : TaskCache) where
  -- A password is hashed with a salt of its own.
  abbrev pub salted : List ℕ → String → World → Result Failure String × World
  salted [] password w = (hash o.bcrypt 0 password, w)
  salted (salt ∷ rest) password w = (hash o.bcrypt salt password, record w { entropy = rest })

  abbrev pub db : Db World
  db = record {
    create_user = λ email name hash. on_db (Users.create_user o.same_text email name hash);
    user_by_id = λ id. on_db (Users.user_by_id id);
    user_by_email = λ email. on_db (Users.user_by_email o.same_text email);
    credentials_by_email = λ email. on_db (Users.credentials_by_email o.same_text email);
    create_team = λ name created_by. on_db (Teams.create_team name created_by);
    add_member = λ team_id user_id role. on_db (Teams.add_member team_id user_id role);
    update_member_role =
        λ team_id user_id role. on_db (Teams.update_member_role team_id user_id role);
    membership = λ team_id user_id. on_db (Teams.membership team_id user_id);
    teams_for_user = λ user_id. on_db (Teams.teams_for_user user_id);
    team_stats = λ team_id. on_db (Stats.team_stats o.stats team_id);
    create_task = λ new. on_db (Tasks.create_task o.json new);
    task_by_id = λ id. on_db (Tasks.task_by_id id);
    update_task =
        λ id version upd by changes. on_db (Tasks.update_task o.json id version upd by changes);
    list_tasks = λ f. on_db (Tasks.list_tasks f);
    task_history = λ task_id. on_db (Tasks.task_history o.json task_id);
    add_comment = λ task_id user_id content. on_db (Comments.add_comment task_id user_id content);
    task_comments = λ task_id. on_db (Comments.task_comments task_id);
  }

  abbrev pub cache : Cache World
  cache = record {
    get = λ f w. let (page, r) = get_page c o.page_json f w.redis in (page, record w { redis = r });
    set = λ f page w. record w { redis = set_page c o.page_json f page w.redis };
    invalidate = λ team_id w. record w { redis = invalidate_team c team_id w.redis };
  }

  -- `service.New(db, taskCache, auth.Hasher{}, tokens)`
  abbrev pub service : Service World
  service = record {
    db = db;
    cache = cache;
    hasher = record { hash = λ password w. salted w.entropy password w; verify = verify o.bcrypt };
    tokens = record { issue = λ user_id w. (issue o.jwt o.tokens user_id w.db.clock, w) };
    now = λ w. (w.db.clock, w);
    mail = o.mail;
  }

  -- A request that reaches a use case, with the user whom the token names.
  unfoldable pub handle : Request → World → World
  handle (register email name password) w = (Auth.register service email name password w).1
  handle (login email password) w = (Auth.login service email password w).1
  handle (create_team user name) w = (UseTeams.create_team service user name w).1
  handle (list_teams user) w = (UseTeams.list_teams service user w).1
  handle (invite_member user team_id req) w = (UseTeams.invite_member service user team_id req w).1
  handle (change_member_role user team_id target role) w =
      (UseTeams.change_member_role service user team_id target role w).1
  handle (team_stats user team_id) w = (UseTeams.team_stats service user team_id w).1
  handle (create_task user req) w = (UseTasks.create_task service user req w).1
  handle (update_task user id patch) w = (UseTasks.update_task service user id patch w).1
  handle (list_tasks user f) w = (UseTasks.list_tasks service user f w).1
  handle (task_history user id) w = (UseTasks.task_history service user id w).1
  handle (add_comment user id content) w = (UseTasks.add_comment service user id content w).1
  handle (list_comments user id) w = (UseTasks.list_comments service user id w).1

  unfoldable pub serve : List Request → World → World
  unfolding handle
  serve [] w = w
  serve (r ∷ rs) w = serve rs (handle r w)
