-- ===== src/Domain/Stats.antt =====
-- internal/domain/stats.go: the report on a team.
use test_api.Prelude.{ℕ, ℤ, String, Option, List, Dict}

pub record AssigneeStat : Type 0 where
  pub user_id : ℤ
  pub name : String
  pub closed_tasks : ℤ

-- A `float64`, as its 64 bits: nothing computes with it.
abbrev pub Float : Type 0
Float = ℕ

pub record TeamStats : Type 0 where
  pub team_id : ℤ
  pub tasks_by_status : Dict ℤ
  pub top_assignees_30d : List AssigneeStat
  pub avg_close_seconds : Option Float
  pub comments_total : ℤ
