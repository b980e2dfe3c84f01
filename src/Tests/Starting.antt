-- ===== src/Tests/Starting.antt =====
-- The start of the program at concrete values.
use test_api.Prelude.{String, ◌≡◌, refl, ap, true, List, [], ◌∷◌, ok, err, Result, ℕ}
use test_api.Store.Opening.{Connections, Migrations}
use test_api.Store.Opening.Handles.{Laws}
use test_api.Start.{RedisClients, start}
use test_api.Start.Checks.{IsStarted, start-IsStarted}
use test_api.Tests.Requests.{environment, hours}

abbrev after_latest : List ℕ → List ℕ
after_latest [] = []
after_latest (h ∷ rest) = rest

-- A process that has the databases numbered in a list open, and a server that always answers.
abbrev connections : Connections (List ℕ) ℕ
connections = record {
  parse_dsn =
      λ dsn. ok (record { parse_time = true; is_utc = true; multi_statements = true; rest = dsn });
  format_dsn = λ cfg. cfg.rest;
  open_db = λ dsn w. (ok 7, 7 ∷ w);
  ping = λ h w. (ok tt, w);
  close = λ h w. (ok tt, after_latest w);
}

abbrev migrations : Migrations (List ℕ) ℕ Unit Unit Unit
migrations = record {
  new_source = λ w. (ok tt, w);
  with_instance = λ h w. (ok tt, w);
  new_with_instance = λ s d w. (ok tt, w);
  up = λ x w. (ok tt, w);
}

abbrev redis : RedisClients (List ℕ) Unit
redis = record {
  new_client = λ addr w. (tt, w);
  ping = λ r w. (ok tt, w);
  close = λ r w. (ok tt, w);
}

abbrev shutdown : List ℕ → Result String Unit × List ℕ
shutdown w = (ok tt, w)

opened :
    (w w' : List ℕ) (h : ℕ)
    → ◌≡◌ {A = Result String ℕ × List ℕ} (ok 7, 7 ∷ w) (ok h, w')
    → w' ≡ h ∷ w
opened w w' h e =
    let number : ◌≡◌ {A = Result String ℕ} (ok 7) (ok h) = ap (λ x. x.0) e in
    let list : 7 ∷ w ≡ w' = ap (λ x. x.1) e in cc

never_fails :
    (w w' : List ℕ) (why : String)
    → ◌≡◌ {A = Result String ℕ × List ℕ} (ok 7, 7 ∷ w) (err why, w')
    → w' ≡ w
never_fails w w' why e =
    let both : ◌≡◌ {A = Result String ℕ} (ok 7) (err why) = ap (λ x. x.0) e in cc

abbrev laws : Laws connections migrations
laws = record {
  handles = λ w. w;
  open_ok = λ dsn w w' h e. opened w w' h e;
  open_err = λ dsn w w' why e. never_fails w w' why e;
  ping = λ h w. refl;
  close = λ h w rest e. ap after_latest e;
  new_source = λ w. refl;
  with_instance = λ h w. refl;
  new_with_instance = λ s d w. refl;
  up = λ x w. refl;
}

start-IsStarted_example :
    let (s, w) = start connections migrations redis hours environment [] in
    IsStarted connections migrations redis shutdown laws hours s [] w
start-IsStarted_example =
    start-IsStarted connections migrations redis shutdown laws hours
      (record {
        new_client = λ addr w. refl;
        ping = λ r w. refl;
        close = λ r w. refl;
        ending = λ w. refl;
      })
      environment []
