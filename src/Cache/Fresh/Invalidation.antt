-- ===== src/Cache/Fresh/Invalidation.antt =====
-- `Invalidate` of internal/cache/task.go over a cache that holds pages of a query.
use test_api.Prelude.{
  ℕ, suc, ℤ, ◌≡◌, ◌≢◌, ◌⊎◌, inl, inr, refl, sym, ap, ◌∙◌, true, int_eq, int_beq_iff, Option, none,
  some, List, [], ok, err, lookup, insert, lookup-insert_same, lookup-insert_other, arith,
  Result-cases,
}
use test_api.Domain.Task.{Task, TaskFilter}
use test_api.Store.Tasks.Elsewhere.{SameElsewhere}
use test_api.Cache.{
  Value, number, text, Redis, TaskCache, PageJson, generation_key, list_key, as_generation, as_page,
  incremented, invalidate, incr_key, command,
}
use test_api.Cache.Pages.{keys_differ}
use test_api.Cache.Fresh.{IsFresh, current, generation_key_inj}

incremented-current :
    (v : Option Value) (n : ℕ) → as_generation (ok v) ≡ ok n → incremented v ≡ some (number (suc n))
incremented-current none n e = ground arith
incremented-current (some (number k)) n e = ground arith
incremented-current (some (text s)) n e = ground arith

incremented-err :
    (v : Option Value) (e : Unit) → as_generation (ok v) ≡ err e → incremented v ≡ none
incremented-err none u e = ground arith
incremented-err (some (number k)) u e = ground arith
incremented-err (some (text s)) u e = refl

same_team_or_other : (a b : ℤ) → (a ≡ b) ⊎ (a ≢ b)
same_team_or_other a b = ground (arith, int_beq_iff a b)

-- The next generation of the team.
abbrev bumped : ℤ → ℕ → Redis → Redis
bumped team_id n r = record r {
  entries = insert (generation_key team_id) (number (suc n)) r.entries;
}

module _ (c : TaskCache) (json : PageJson) where
  bumped-pages :
      (team_id : ℤ) (n : ℕ) (r : Redis) (f : TaskFilter) (m : ℕ)
      → lookup (list_key f m) (bumped team_id n r).entries ≡ lookup (list_key f m) r.entries
  bumped-pages team_id n r f m =
      lookup-insert_other (generation_key team_id) (list_key f m) (number (suc n)) r.entries
        (keys_differ team_id f m)

  bumped-same :
      (team_id : ℤ) (n : ℕ) (r : Redis) → current team_id (bumped team_id n r).entries ≡ ok (suc n)
  bumped-same team_id n r =
      ap (λ v. as_generation (ok v))
        (lookup-insert_same (generation_key team_id) (number (suc n)) r.entries)

  bumped-other :
      (team_id other : ℤ) (n : ℕ) (r : Redis)
      → other ≢ team_id
      → current other (bumped team_id n r).entries ≡ current other r.entries
  bumped-other team_id other n r apart =
      ap (λ v. as_generation (ok v))
        (lookup-insert_other (generation_key team_id) (generation_key other) (number (suc n))
          r.entries λ e. apart (generation_key_inj other team_id (sym e)))

  bumped-IsFresh :
      (team_id : ℤ) (n : ℕ) (ts ts' : List Task) (r : Redis)
      → current team_id r.entries ≡ ok n
      → SameElsewhere team_id ts ts'
      → IsFresh c json ts r
      → IsFresh c json ts' (bumped team_id n r)
  bumped-IsFresh team_id n ts ts' r now same fresh = record {
    calm = fresh.calm;
    pages = λ f m listed now'. elim (same_team_or_other f.team_id team_id) [
      | inl here ↦
          let number_of : m ≡ suc n = renewed f m here now' in
          let clear =
            fresh.ahead f m n listed (ap (λ t. current t r.entries) here ∙ now)
              (omega (arith, number_of)) in
          inl (ap (λ v. as_page c json (ok v)) (bumped-pages team_id n r f m ∙ clear))
      | inr elsewhere ↦
          rw (bumped-pages team_id n r f m, same f elsewhere)
            (fresh.pages f m listed (sym (bumped-other team_id f.team_id n r elsewhere) ∙ now'))
    ];
    ahead = λ f m k listed now' later. elim (same_team_or_other f.team_id team_id) [
      | inl here ↦
          let number_of : k ≡ suc n = renewed f k here now' in
          bumped-pages team_id n r f m
          ∙ fresh.ahead f m n listed (ap (λ t. current t r.entries) here ∙ now)
              (omega (arith, number_of, later))
      | inr elsewhere ↦
          bumped-pages team_id n r f m
          ∙ fresh.ahead f m k listed (sym (bumped-other team_id f.team_id n r elsewhere) ∙ now')
              later
    ];
  }
    where
      renewed :
          (f : TaskFilter) (m : ℕ)
          → f.team_id ≡ team_id
          → current f.team_id (bumped team_id n r).entries ≡ ok m
          → m ≡ suc n
      renewed f m here now' =
          let both : ok m ≡ ok (suc n) =
            sym now'
            ∙ ap (λ t. current t (bumped team_id n r).entries) here
            ∙ bumped-same team_id n r in
          cc

  invalidate_current :
      (team_id : ℤ) (n : ℕ) (r : Redis)
      → c.enabled ≡ true
      → r.outcomes ≡ []
      → current team_id r.entries ≡ ok n
      → invalidate c team_id r ≡ bumped team_id n r
  unfolding invalidate incr_key command
  invalidate_current team_id n r enabled calm now =
      ground (arith, incremented-current (lookup (generation_key team_id) r.entries) n now)

  invalidate_unreadable :
      (team_id : ℤ) (e : Unit) (r : Redis)
      → c.enabled ≡ true
      → r.outcomes ≡ []
      → current team_id r.entries ≡ err e
      → invalidate c team_id r ≡ r
  unfolding invalidate incr_key command
  invalidate_unreadable team_id e r enabled calm now =
      ground (arith, incremented-err (lookup (generation_key team_id) r.entries) e now)

  -- Without a generation that can be read, none of the team's pages is.
  unreadable-IsFresh :
      (team_id : ℤ) (e : Unit) (ts ts' : List Task) (r : Redis)
      → current team_id r.entries ≡ err e
      → SameElsewhere team_id ts ts'
      → IsFresh c json ts r
      → IsFresh c json ts' r
  unreadable-IsFresh team_id e ts ts' r broken same fresh = record {
    calm = fresh.calm;
    pages = λ f m listed now. elim (same_team_or_other f.team_id team_id) [
      | inl here ↦
          let both : ok m ≡ err e = sym now ∙ ap (λ t. current t r.entries) here ∙ broken in cc
      | inr elsewhere ↦ rw (same f elsewhere) (fresh.pages f m listed now)
    ];
    ahead = fresh.ahead;
  }

  -- After `Invalidate` of a team, the pages are those of tasks that differ in that team alone.
  pub invalidate-IsFresh :
      (team_id : ℤ) (ts ts' : List Task) (r : Redis)
      → c.enabled ≡ true
      → SameElsewhere team_id ts ts'
      → IsFresh c json ts r
      → IsFresh c json ts' (invalidate c team_id r)
  invalidate-IsFresh team_id ts ts' r enabled same fresh =
      elim (Result-cases (current team_id r.entries)) [
        | inl (n, now) ↦
            rw (invalidate_current team_id n r enabled fresh.calm now)
              (bumped-IsFresh team_id n ts ts' r now same fresh)
        | inr (e, broken) ↦
            rw (invalidate_unreadable team_id e r enabled fresh.calm broken)
              (unreadable-IsFresh team_id e ts ts' r broken same fresh)
      ]
