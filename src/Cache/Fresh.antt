-- ===== src/Cache/Fresh.antt =====
-- `Get` and `Set` of internal/cache/task.go over a cache that holds pages of a query.
pub mod Invalidation
use test_api.Prelude.{
  ℕ, suc, ℤ, ◌≡◌, ◌≢◌, ◌<◌, ◌⊎◌, inl, inr, refl, sym, ap, ◌∙◌, subst, Bool, true, false, ◌==◌,
  int_eq, int_beq_iff, Bool-cases, Option, none, some, String, List, [], Dict, Result, ok, err,
  lookup, insert, lookup-insert_same, lookup-insert_other, if◌then◌else◌, arith, format_int_inj,
  string_eq, Result-cases, Option-cases, eq_iff,
}
use package.text.Mathlib.TextLemmas.{append_cancel_left}
use test_api.Domain.Task.{Task, TaskFilter, TaskPage}
use test_api.Store.Tasks.{list_rows}
use test_api.Cache.{
  Value, number, text, Redis, TaskCache, PageJson, generation_key, list_key, as_generation, as_page,
  generation, get, set, invalidate, command, get_key, set_key, incr_key, incremented,
}
use test_api.Cache.Keys.{IsListed, list_key_inj}
use test_api.Cache.Pages.{keys_differ}

-- The page of the query.
abbrev pub page_of : TaskFilter → List Task → TaskPage
page_of f ts = record { items = list_rows f ts; limit = f.limit; offset = f.offset }

-- A page that has a text is read back from it.
pub record IsExact (json : PageJson) : Type 0 where
  pub read_back : (p : TaskPage) (s : String) → json.marshal p ≡ some s → json.unmarshal s ≡ some p

abbrev pub current : ℤ → Dict Value → Result {0} Unit ℕ
current team_id entries = as_generation (ok (lookup (generation_key team_id) entries))

same_or_apart : (s t : String) → (s ≡ t) ⊎ (s ≢ t)
same_or_apart s t = ground (arith, eq_iff s t)

-- A text that is stored in place of a page changes no generation.
stored-current :
    (team_id : ℤ) (f : TaskFilter) (n : ℕ) (v : Value) (entries : Dict Value)
    → current team_id (insert (list_key f n) v entries) ≡ current team_id entries
stored-current team_id f n v entries =
    ap (λ found. as_generation (ok found))
      (lookup-insert_other (list_key f n) (generation_key team_id) v entries
        λ e. keys_differ team_id f n (sym e))

pub generation_key_inj : (a b : ℤ) → generation_key a ≡ generation_key b → a ≡ b
unfolding generation_key
generation_key_inj a b e = format_int_inj a b (append_cancel_left "tasks:gen:" _ _ e)

module _ (c : TaskCache) (json : PageJson) where
  -- A miss, or the page.
  abbrev pub IsMissOr : TaskPage → Option TaskPage → Type 0
  IsMissOr page found = (found ≡ none) ⊎ (found ≡ some page)

  -- Redis works; what is stored in a team's current generation is the page of the query, and nothing
  -- is stored in a later one.
  pub record IsFresh (ts : List Task) (r : Redis) : Type 0 where
    pub calm : r.outcomes ≡ []
    pub pages :
        (f : TaskFilter) (n : ℕ)
        → IsListed f
        → current f.team_id r.entries ≡ ok n
        → IsMissOr (page_of f ts) (as_page c json (ok (lookup (list_key f n) r.entries)))
    pub ahead :
        (f : TaskFilter) (m n : ℕ)
        → IsListed f
        → current f.team_id r.entries ≡ ok n
        → n < m
        → lookup (list_key f m) r.entries ≡ none

  pub empty-IsFresh : (ts : List Task) (r : Redis) → r.outcomes ≡ [] → r.entries ≡ [] → IsFresh ts r
  unfolding lookup
  empty-IsFresh ts r calm clear = record {
    calm = calm;
    pages = λ f n listed now. inl (rw clear refl);
    ahead = λ f m n listed now later. rw clear refl;
  }

  module _ (enabled : c.enabled ≡ true) where
    get_current :
        (f : TaskFilter) (r : Redis) (g : Result {0} Unit ℕ)
        → r.outcomes ≡ []
        → current f.team_id r.entries ≡ g
        → get c json f r ≡ elim g [
          | err e ↦ (none, r)
          | ok n ↦ (as_page c json (ok (lookup (list_key f n) r.entries)), r)
        ]
    unfolding get generation get_key command
    get_current f r (err e) calm now = ground (arith)
    get_current f r (ok n) calm now = ground (arith)

    pub get-IsFresh :
        (f : TaskFilter) (ts : List Task) (r : Redis)
        → IsListed f
        → IsFresh ts r
        → IsMissOr (page_of f ts) (get c json f r).0 × ((get c json f r).1 ≡ r)
    get-IsFresh f ts r listed fresh = elim (Result-cases (current f.team_id r.entries)) [
      | inr (e, broken) ↦ rw (get_current f r (err e) fresh.calm broken) (inl refl, refl)
      | inl (n, now) ↦ rw (get_current f r (ok n) fresh.calm now) (fresh.pages f n listed now, refl)
    ]

    -- One more page of the current generation.
    stored-IsFresh :
        (f : TaskFilter) (n : ℕ) (payload : String) (ts : List Task) (r : Redis)
        → IsListed f
        → json.unmarshal payload ≡ some (page_of f ts)
        → current f.team_id r.entries ≡ ok n
        → IsFresh ts r
        → IsFresh ts (record r { entries = insert (list_key f n) (text payload) r.entries })
    stored-IsFresh f n payload ts r listed decoded now fresh = record {
      calm = fresh.calm;
      pages = λ g m listed' now'. elim (same_or_apart (list_key f n) (list_key g m)) [
        | inl same ↦ inr (
            ap (λ v. as_page c json (ok v))
              (ap (λ k. lookup k (insert (list_key f n) (text payload) r.entries)) (sym same)
                ∙ lookup-insert_same (list_key f n) (text payload) r.entries)
            ∙ decoded
            ∙ ap (λ h. some (page_of h ts)) (list_key_inj f g n m listed listed' same).0)
        | inr apart ↦
            rw (lookup-insert_other (list_key f n) (list_key g m) (text payload) r.entries apart)
              (fresh.pages g m listed' (before g m now'))
      ];
      ahead = λ g m k listed' now' later. elim (same_or_apart (list_key f n) (list_key g m)) [
        | inl same ↦
            let (filters, generations) = list_key_inj f g n m listed listed' same in
            let here : ok n ≡ ok k =
              sym now ∙ ap (λ h. current h.team_id r.entries) filters ∙ before g k now' in
            let numbers : n ≡ k = cc in absurd (omega (arith, later, numbers, generations))
        | inr apart ↦
            lookup-insert_other (list_key f n) (list_key g m) (text payload) r.entries apart
            ∙ fresh.ahead g m k listed' (before g k now') later
      ];
    }
      where
        before :
            (g : TaskFilter) (m : ℕ)
            → current g.team_id (insert (list_key f n) (text payload) r.entries) ≡ ok m
            → current g.team_id r.entries ≡ ok m
        before g m now' = sym (stored-current g.team_id f n (text payload) r.entries) ∙ now'

    set_current :
        (f : TaskFilter) (page : TaskPage) (payload : String) (n : ℕ) (r : Redis)
        → r.outcomes ≡ []
        → json.marshal page ≡ some payload
        → current f.team_id r.entries ≡ ok n
        → set c json f page r
          ≡ record r { entries = insert (list_key f n) (text payload) r.entries }
    unfolding set generation get_key set_key command
    set_current f page payload n r calm encoded now = ground arith

    -- A page without a text, or a generation that cannot be read.
    set_nothing :
        (f : TaskFilter) (page : TaskPage) (r : Redis)
        → r.outcomes ≡ []
        → (json.marshal page ≡ none) ⊎ ((e : Unit) × (current f.team_id r.entries ≡ err e))
        → set c json f page r ≡ r
    unfolding set generation get_key set_key command
    set_nothing f page r calm (inl unencoded) = ground arith
    set_nothing f page r calm (inr (e, broken)) = ground arith

    pub set-IsFresh :
        (f : TaskFilter) (ts : List Task) (r : Redis)
        → IsExact json
        → IsListed f
        → IsFresh ts r
        → IsFresh ts (set c json f (page_of f ts) r)
    set-IsFresh f ts r exact listed fresh = elim (Option-cases (json.marshal (page_of f ts))) [
      | inl unencoded ↦ rw (set_nothing f (page_of f ts) r fresh.calm (inl unencoded)) fresh
      | inr (payload, encoded) ↦ elim (Result-cases (current f.team_id r.entries)) [
        | inr broken ↦ rw (set_nothing f (page_of f ts) r fresh.calm (inr broken)) fresh
        | inl (n, now) ↦ rw (set_current f (page_of f ts) payload n r fresh.calm encoded now) (
            stored-IsFresh f n payload ts r listed (exact.read_back (page_of f ts) payload encoded)
              now fresh)
      ]
    ]
