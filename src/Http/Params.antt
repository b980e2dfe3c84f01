-- ===== src/Http/Params.antt =====
-- The parameters in paths and queries: `pathID`, `queryID`, `queryInt` and `taskFilterFrom` of
-- internal/httpapi/handler_team.go and handler_task.go.
pub mod Bounds
use test_api.Prelude.{
  ℤ, pos, String, Bool, ◌==◌, string_eq, Option, none, some, [], ◌∷◌, leb_ℤ, ltb_ℤ, if◌then◌else◌,
  Result, ok, err, ◌>>=◌, parse_int,
}
use test_api.Domain.Errors.{Error, invalid, text}
use test_api.Domain.Task.{TaskFilter, Status}
use test_api.Service.Tasks.{default_limit}
use test_api.Http.Message.{HttpRequest, query_value, path_value}

-- The test after a parse: `err != nil || id <= 0`.
abbrev pub positive_or : Error → Option ℤ → Result Error ℤ
positive_or e none = err e
positive_or e (some id) = if leb_ℤ id (pos 0) then err e else ok id

unfoldable pub path_id : HttpRequest → String → Result Error ℤ
unfolding parse_int
path_id r name =
    positive_or (invalid "%s must be positive integer" (text name ∷ []))
      (parse_int (path_value r name))

abbrev pub present : Result Error ℤ → Result Error (Option ℤ)
present (err e) = err e
present (ok id) = ok (some id)

unfoldable pub query_id : HttpRequest → String → Result Error (Option ℤ)
unfolding parse_int
query_id r name =
    let raw = query_value r name in
    if raw == ""
    then ok none
    else present
        (positive_or (invalid "%s must be a positive integer" (text name ∷ [])) (parse_int raw))

abbrev pub not_negative_or : Error → Option ℤ → Result Error ℤ
not_negative_or e none = err e
not_negative_or e (some value) = if ltb_ℤ value (pos 0) then err e else ok value

unfoldable pub query_int : HttpRequest → String → ℤ → Result Error ℤ
unfolding parse_int
query_int r name fallback =
    let raw = query_value r name in
    if raw == ""
    then ok fallback
    else not_negative_or (invalid "%s must be a non-negative integer" (text name ∷ []))
        (parse_int raw)

abbrev pub required : Option ℤ → Result Error ℤ
required none = err (invalid "team_id is required" [])
required (some id) = ok id

abbrev pub asked_status : String → Option Status
asked_status raw = if raw == "" then none else some raw

unfoldable pub task_filter_from : HttpRequest → Result Error TaskFilter
unfolding query_id query_int
task_filter_from r = do
  found ← query_id r "team_id"
  team_id ← required found
  assignee_id ← query_id r "assignee_id"
  limit ← query_int r "limit" default_limit
  offset ← query_int r "offset" (pos 0)
  ok (record {
    team_id = team_id;
    status = asked_status (query_value r "status");
    assignee_id = assignee_id;
    limit = limit;
    offset = offset;
  })
