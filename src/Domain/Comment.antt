-- ===== src/Domain/Comment.antt =====
-- internal/domain/comment.go: the comments; their validation is in `Rules`.
use test_api.Prelude.{ℤ, String}
use test_api.Domain.Task.{Time}

pub record Comment : Type 0 where
  pub id : ℤ
  pub task_id : ℤ
  pub user_id : ℤ
  pub content : String
  pub created_at : Time
