-- ===== src/Store/Comments.antt =====
-- internal/store/comment.go
use test_api.Prelude.{
  ℤ, pos, suc, String, len, not, ◌||◌, ◌==◌, int_eq, List, [], ◌∷◌, ◌++◌, ltb, if◌then◌else◌, any,
  find, select, order_desc, ok, err,
}
use test_api.Domain.Errors.{mysql}
use test_api.Domain.Comment.{Comment}
use test_api.Store.Schema.{has_user, has_task}
use test_api.Store.Driver.{
  found, Statement, Method, query, plain, classify, no_rows_error, ◌>>=◌, run,
}

-- `INSERT INTO task_comments`, with its last insert id.
unfoldable pub insert_comment : ℤ → ℤ → String → Statement ℤ
unfolding any
insert_comment task_id user_id content d =
    let id = pos d.next.task_comments in
    let d' = record d { next = record d.next { task_comments = suc d.next.task_comments } } in
    if ltb 65535 (len content)
    then (err (mysql 1406), d)
    else if not (has_task d.tables task_id) || not (has_user d.tables user_id)
    then (err (mysql 1452), d')
    else (
      ok id,
      record d' {
        tables = record d.tables {
          task_comments =
              d.tables.task_comments
              ++ record {
                id = id;
                task_id = task_id;
                user_id = user_id;
                content = content;
                created_at = d.clock;
              }
                ∷ [];
        };
      },
    )

-- `SELECT … FROM task_comments WHERE id = ?`
abbrev pub select_comment : ℤ → Statement Comment
select_comment id d = found (find (λ c. c.id == id) d.tables.task_comments) d

unfoldable pub add_comment : ℤ → ℤ → String → Method Comment
unfolding run insert_comment classify find no_rows_error
add_comment task_id user_id content = do
  id ← query (insert_comment task_id user_id content) classify "insert comment"
  query (select_comment id) no_rows_error "select comment"

unfoldable pub task_comments : ℤ → Method (List Comment)
unfolding run select order_desc
task_comments task_id =
    query
      (λ d. (
        ok (order_desc (λ c. c.id) (select (λ c. c.task_id == task_id) d.tables.task_comments)),
        d,
      ))
      plain "select comments"
