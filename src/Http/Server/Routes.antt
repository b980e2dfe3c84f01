-- ===== src/Http/Server/Routes.antt =====
-- The table of routes: no two of them take the same request, so that their order does not matter.
use test_api.Prelude.{
  String, ◌≡◌, ◌==◌, string_eq, refl, sym, ◌∙◌, Bool, true, false, not, ◌&&◌, ◌||◌, Bool-cases, inl,
  inr, Option, none, some, Option-cases, List, [], ◌∷◌, Dict, arith, eq_iff,
}
use test_api.Http.Server.{
  Segment, text, name, Route, endpoint, match, takes, find_route, routes, bind,
}

-- Some path fits both patterns.
unfoldable overlap : List Segment → List Segment → Bool
overlap [] [] = true
overlap [] (q ∷ qs) = false
overlap (p ∷ ps) [] = false
overlap (text s ∷ ps) (text t ∷ qs) = s == t && overlap ps qs
overlap (text s ∷ ps) (name n ∷ qs) = overlap ps qs
overlap (name n ∷ ps) (text t ∷ qs) = overlap ps qs
overlap (name n ∷ ps) (name m ∷ qs) = overlap ps qs

-- Some method is taken by both.
abbrev clash : String → String → Bool
clash a b = a == b || a == "GET" && b == "HEAD" || a == "HEAD" && b == "GET"

abbrev apart : Route → Route → Bool
apart r q = not (clash r.method q.method && overlap r.pattern q.pattern)

takes-clash :
    (a b method : String) → takes a method ≡ true → takes b method ≡ true → clash a b ≡ true
takes-clash a b method h k = ground (
  arith,
  eq_iff a method,
  eq_iff b method,
  eq_iff a b,
  eq_iff a "GET",
  eq_iff b "GET",
  eq_iff a "HEAD",
  eq_iff b "HEAD",
  eq_iff method "HEAD",
  eq_iff b a,
)

match-text :
    (t s : String) (ps : List Segment) (path : List String) (u : Dict String)
    → match (text t ∷ ps) (s ∷ path) ≡ some u
    → (t ≡ s) × (match ps path ≡ some u)
unfolding match
match-text t s ps path u h = elim (Bool-cases (t == s)) [
  | inl same ↦ ((eq_iff t s).0 same, rw same at h)
  | inr other ↦ let k = rw other at h in cc
]

bind-some :
    (n s : String) (o : Option (Dict String)) (u : Dict String)
    → bind n s o ≡ some u
    → (v : Dict String) × (o ≡ some v)
bind-some n s none u h = cc
bind-some n s (some v) u h = (v, refl)

match-name :
    (n s : String) (ps : List Segment) (path : List String) (u : Dict String)
    → match (name n ∷ ps) (s ∷ path) ≡ some u
    → (v : Dict String) × (match ps path ≡ some v)
unfolding match
match-name n s ps path u h = elim (Bool-cases (s == "")) [
  | inl blank ↦ let k = rw blank at h in cc
  | inr filled ↦ bind-some n s (match ps path) u (rw filled at h)
]

match-overlap :
    (ps qs : List Segment) (path : List String) (u v : Dict String)
    → match ps path ≡ some u
    → match qs path ≡ some v
    → overlap ps qs ≡ true
unfolding match overlap
match-overlap [] [] path u v h k = refl
match-overlap [] (q ∷ qs) [] u v h k = cc
match-overlap [] (q ∷ qs) (s ∷ path) u v h k = cc
match-overlap (p ∷ ps) [] [] u v h k = cc
match-overlap (p ∷ ps) [] (s ∷ path) u v h k = cc
match-overlap (p ∷ ps) (q ∷ qs) [] u v h k = cc
match-overlap (text t ∷ ps) (text t' ∷ qs) (s ∷ path) u v h k =
    let (e, h') = match-text t s ps path u h in
    let (e', k') = match-text t' s qs path v k in
    rw ((eq_iff t t').1 (e ∙ sym e')) (match-overlap ps qs path u v h' k')
match-overlap (text t ∷ ps) (name m ∷ qs) (s ∷ path) u v h k =
    let (e, h') = match-text t s ps path u h in
    let (v', k') = match-name m s qs path v k in match-overlap ps qs path u v' h' k'
match-overlap (name n ∷ ps) (text t ∷ qs) (s ∷ path) u v h k =
    let (u', h') = match-name n s ps path u h in
    let (e, k') = match-text t s qs path v k in match-overlap ps qs path u' v h' k'
match-overlap (name n ∷ ps) (name m ∷ qs) (s ∷ path) u v h k =
    let (u', h') = match-name n s ps path u h in
    let (v', k') = match-name m s qs path v k in match-overlap ps qs path u' v' h' k'

-- A route that takes the method of a request and fits its path.
abbrev pub IsHit : String → List String → Dict String → Route → Type 0
IsHit method path values r = (takes r.method method ≡ true) × (match r.pattern path ≡ some values)

apart-hits :
    (r q : Route) (method : String) (path : List String) (u v : Dict String)
    → IsHit method path u r
    → IsHit method path v q
    → apart r q ≡ false
apart-hits r q method path u v h k =
    rw
      (
        takes-clash r.method q.method method h.0 k.0,
        match-overlap r.pattern q.pattern path u v h.1 k.1,
      )
      refl

abbrev all_apart : Route → List Route → Bool
all_apart r [] = true
all_apart r (q ∷ qs) = apart r q && all_apart r qs

-- Each route is apart from every later one.
abbrev is_table : List Route → Bool
is_table [] = true
is_table (r ∷ rs) = all_apart r rs && is_table rs

routes-table : is_table routes ≡ true
unfolding overlap
routes-table = refl

-- The route stands in the table.
pub data IsEntry (r : Route) : List Route → Type 0 where
  here : (rs : List Route) → IsEntry r (r ∷ rs)
  later : (q : Route) (rs : List Route) → IsEntry r rs → IsEntry r (q ∷ rs)

all_apart-entry :
    (r q : Route) (rs : List Route) → all_apart q rs ≡ true → IsEntry r rs → apart q r ≡ true
all_apart-entry r q [] h entry = elim entry [ ]
all_apart-entry r q (_ ∷ rs) h (here _) = ground arith
all_apart-entry r q (p ∷ rs) h (later _ _ k) = all_apart-entry r q rs (ground arith) k

find_route-table :
    (r : Route) (rs : List Route) (method : String) (path : List String) (u : Dict String)
    → is_table rs ≡ true
    → IsEntry r rs
    → IsHit method path u r
    → find_route rs method path ≡ endpoint r.endpoint u
unfolding find_route
find_route-table r [] method path u table entry hit = elim entry [ ]
find_route-table r (_ ∷ rs) method path u table (here _) hit = rw (hit.0, hit.1) refl
find_route-table r (q ∷ rs) method path u table (later _ _ entry) hit =
    let rest = find_route-table r rs method path u (ground arith) entry hit in
    let clear = all_apart-entry r q rs (ground arith) entry in
    elim (Option-cases (match q.pattern path)) [
      | inl missed ↦ rw (missed, rest) refl
      | inr (v, fits) ↦ elim (Bool-cases (takes q.method method)) [
        | inl taken ↦ let k = apart-hits q r method path v u (taken, fits) hit in cc
        | inr other ↦ rw (fits, other, rest) refl
      ]
    ]

-- Wherever a route stands in the table: a request whose method it takes and whose path fits its
-- pattern is led to its endpoint, with the values of the path.
pub find_route_unique :
    (r : Route) (method : String) (path : List String) (values : Dict String)
    → IsEntry r routes
    → takes r.method method ≡ true
    → match r.pattern path ≡ some values
    → find_route routes method path ≡ endpoint r.endpoint values
find_route_unique r method path values entry taken fits =
    find_route-table r routes method path values routes-table entry (taken, fits)
