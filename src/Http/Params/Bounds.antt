-- ===== src/Http/Params/Bounds.antt =====
-- What the parameters hold that are read from a path or a query.
use test_api.Prelude.{
  ℤ, pos, String, ◌≡◌, ◌≤ℤ◌, Bool-cases, inl, inr, Option, none, some, Result, ok, err, >>=-ok, ap,
  ◌∙◌, subst, ◌==◌, string_eq, Option-cases, parse_int, parse_int-IsInt64, parse_int-format_int,
  IsInt64, arith, format_int,
}
use test_api.Domain.Errors.{Error}
use test_api.Domain.Task.{TaskFilter}
use test_api.Service.Tasks.{default_limit}
use test_api.Http.Message.{HttpRequest, query_value, path_value}
use test_api.Http.Params.{
  path_id, query_id, query_int, task_filter_from, positive_or, not_negative_or, present, required,
}

-- An id: positive, and of 64 bits.
pub record IsId (n : ℤ) : Type 0 where
  pub positive : pos 1 ≤ℤ n
  pub fits : IsInt64 n

ok_inj : {A : Type 0} (a b : A) → ◌≡◌ {A = Result Error A} (ok a) (ok b) → a ≡ b
ok_inj a b h = cc

positive_or-ok : (e : Error) (m n : ℤ) → positive_or e (some m) ≡ ok n → (m ≡ n) × (pos 1 ≤ℤ m)
positive_or-ok e m n h = ground arith

not_negative_or-ok : (e : Error) (o : Option ℤ) (n : ℤ) → not_negative_or e o ≡ ok n → pos 0 ≤ℤ n
not_negative_or-ok e none n h = cc
not_negative_or-ok e (some m) n h = ground arith

positive_or-some : (e : Error) (n : ℤ) → pos 1 ≤ℤ n → positive_or e (some n) ≡ ok n
positive_or-some e n h = ground arith

present-some : (r : Result Error ℤ) (n : ℤ) → present r ≡ ok (some n) → r ≡ ok n
present-some (ok m) n h = ground arith
present-some (err e) n h = cc

positive_or-IsId : (e : Error) (s : String) (n : ℤ) → positive_or e (parse_int s) ≡ ok n → IsId n
positive_or-IsId e s n h = elim (Option-cases (parse_int s)) [
  | inl nothing ↦ cc
  | inr (m, found) ↦
      let fits = parse_int-IsInt64 s m found in
      let (same, up) = positive_or-ok e m n (rw found at h) in
      subst IsId same (record { positive = up; fits = fits })
]

-- What is read from a path is an id.
pub path_id-IsId : (r : HttpRequest) (name : String) (n : ℤ) → path_id r name ≡ ok n → IsId n
unfolding path_id
path_id-IsId r name n h = positive_or-IsId _ (path_value r name) n h

-- The text of an id is read as that id.
pub path_id-format :
    (r : HttpRequest) (name : String) (n : ℤ)
    → IsId n
    → path_value r name ≡ format_int n
    → path_id r name ≡ ok n
unfolding path_id
path_id-format r name n h e =
    let parsed : parse_int (path_value r name) ≡ some n =
      ap parse_int e ∙ parse_int-format_int n h.fits in
    rw parsed (positive_or-some _ n h.positive)

abbrev IsIdOrNil : Option ℤ → Type 0
IsIdOrNil none = Unit
IsIdOrNil (some n) = IsId n

present-IsId :
    (e : Error) (s : String) (o : Option ℤ)
    → present (positive_or e (parse_int s)) ≡ ok o
    → IsIdOrNil o
present-IsId e s none h = tt
present-IsId e s (some n) h =
    positive_or-IsId e s n (present-some (positive_or e (parse_int s)) n h)

query_id-IsId :
    (r : HttpRequest) (name : String) (o : Option ℤ) → query_id r name ≡ ok o → IsIdOrNil o
unfolding query_id
query_id-IsId r name none h = tt
query_id-IsId r name (some n) h = elim (Bool-cases (query_value r name == "")) [
  | inl missing ↦ let k = rw missing at h in cc
  | inr given ↦ present-IsId _ (query_value r name) (some n) (rw given at h)
]

query_int-bound :
    (r : HttpRequest) (name : String) (fallback n : ℤ)
    → pos 0 ≤ℤ fallback
    → query_int r name fallback ≡ ok n
    → pos 0 ≤ℤ n
unfolding query_int
query_int-bound r name fallback n low h = elim (Bool-cases (query_value r name == "")) [
  | inl missing ↦ let k = rw missing at h in ground arith
  | inr given ↦ not_negative_or-ok _ (parse_int (query_value r name)) n (rw given at h)
]

-- A filter that the service is asked with: its ids are ids, and its page does not begin before the
-- first task.
pub record IsFilter (f : TaskFilter) : Type 0 where
  pub team_id : IsId f.team_id
  pub assignee_id : IsIdOrNil f.assignee_id
  pub limit : pos 0 ≤ℤ f.limit
  pub offset : pos 0 ≤ℤ f.offset

required-IsId : (o : Option ℤ) (n : ℤ) → IsIdOrNil o → required o ≡ ok n → IsId n
required-IsId none n k h = cc
required-IsId (some m) n k h = subst IsId (ok_inj m n h) k

ok-IsFilter :
    (g f : TaskFilter) → ◌≡◌ {A = Result Error TaskFilter} (ok g) (ok f) → IsFilter g → IsFilter f
ok-IsFilter g f h k = subst IsFilter (ok_inj g f h) k

-- A filter that is read from a query has a team and, if it asks for one, an assignee, whose numbers
-- are positive and below 2^63; its limit and its offset are not negative.
pub task_filter_from-IsFilter :
    (r : HttpRequest) (f : TaskFilter) → task_filter_from r ≡ ok f → IsFilter f
unfolding task_filter_from
task_filter_from-IsFilter r f h =
    let (found, e₁, h₁) = >>=-ok (query_id r "team_id") _ f h in
    let (team_id, e₂, h₂) = >>=-ok (required found) _ f h₁ in
    let (assignee_id, e₃, h₃) = >>=-ok (query_id r "assignee_id") _ f h₂ in
    let (limit, e₄, h₄) = >>=-ok (query_int r "limit" default_limit) _ f h₃ in
    let (offset, e₅, h₅) = >>=-ok (query_int r "offset" (pos 0)) _ f h₄ in
    ok-IsFilter _ f h₅ (record {
      team_id = required-IsId found team_id (query_id-IsId r "team_id" found e₁) e₂;
      assignee_id = query_id-IsId r "assignee_id" assignee_id e₃;
      limit = query_int-bound r "limit" default_limit limit (omega arith) e₄;
      offset = query_int-bound r "offset" (pos 0) offset (omega arith) e₅;
    })
