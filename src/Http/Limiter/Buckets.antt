-- ===== src/Http/Limiter/Buckets.antt =====
-- The buckets of the rate limiter: each address has its own, and the collector drops the ones that
-- have not been used for longer than their time.
use test_api.Prelude.{
  ℕ, subst, sym, ◌∙◌, ◌≡◌, ◌≢◌, refl, ◌+◌, String, Bool, true, false, not, ◌==◌, string_eq, Option,
  none, some, [], ◌∷◌, Dict, lookup, insert, lookup-insert_other, select, if◌then◌else◌, ltb, All,
  arith, eq_iff, Bool-cases, inl, inr,
}
use test_api.Domain.Task.{Time}
use test_api.Http.Limiter.{
  Rate, Bucket, IpRateLimiter, new_ip_rate_limiter, allow, collect, is_stale,
}

-- No key stands twice.
abbrev pub IsMap {ℓ} : {V : Type ℓ} → Dict V → Type 0
IsMap [] = Unit
IsMap ((k, v) ∷ m) = All (λ e. (e.0 == k) ≡ false) m × IsMap m

module _ {V : Type 0} where
  All-insert :
      (k key : String) (value : V) (m : Dict V)
      → (key == k) ≡ false
      → All (λ e. (e.0 == k) ≡ false) m
      → All (λ e. (e.0 == k) ≡ false) (insert key value m)
  unfolding insert
  All-insert k key value [] p h = (p, tt)
  All-insert k key value ((j, v) ∷ m) p h = ground (arith, All-insert k key value m p h.1)

  insert-IsMap : (key : String) (value : V) (m : Dict V) → IsMap m → IsMap (insert key value m)
  unfolding insert
  insert-IsMap key value [] h = (tt, tt)
  insert-IsMap key value ((j, v) ∷ m) h = elim (Bool-cases (j == key)) [
    | inl same ↦
        rw same
          (subst (λ (k : String). All (λ e. (e.0 == k) ≡ false) m) ((eq_iff j key).0 same) h.0, h.1)
    | inr other ↦ rw other (
      All-insert j key value m (ground (arith, eq_iff j key, eq_iff key j)) h.0,
      insert-IsMap key value m h.1,
    )
  ]

  All-select :
      (P : String × V → Type 0) (p : String × V → Bool) (m : Dict V) → All P m → All P (select p m)
  unfolding select
  All-select P p [] h = tt
  All-select P p (e ∷ m) h = elim (Bool-cases (p e)) [
    | inl yes_ ↦ rw yes_ (h.0, All-select P p m h.1)
    | inr no_ ↦ rw no_ (All-select P p m h.1)
  ]

  select-IsMap : (p : String × V → Bool) (m : Dict V) → IsMap m → IsMap (select p m)
  unfolding select
  select-IsMap p [] h = tt
  select-IsMap p ((k, v) ∷ m) h = elim (Bool-cases (p (k, v))) [
    | inl yes_ ↦ rw yes_ (All-select _ p m h.0, select-IsMap p m h.1)
    | inr no_ ↦ rw no_ (select-IsMap p m h.1)
  ]

  -- The value of a key, if the test lets it stay.
  abbrev kept : (String × V → Bool) → String → Option V → Option V
  kept p key none = none
  kept p key (some v) = if p (key, v) then some v else none

  lookup-absent :
      (key : String) (m : Dict V) → All (λ e. (e.0 == key) ≡ false) m → lookup key m ≡ none
  unfolding lookup
  lookup-absent key [] h = refl
  lookup-absent key ((k, v) ∷ m) h = rw (h.0) (lookup-absent key m h.1)

  lookup-select_here :
      (p : String × V → Bool) (key k : String) (v : V) (m : Dict V)
      → k ≡ key
      → All (λ e. (e.0 == key) ≡ false) m
      → lookup key (select p ((k, v) ∷ m)) ≡ kept p key (lookup key ((k, v) ∷ m))
  unfolding lookup select
  lookup-select_here p key k v m e h =
      let here : (k == key) ≡ true = (eq_iff k key).1 e in
      let absent = lookup-absent key (select p m) (All-select _ p m h) in
      elim (Bool-cases (p (k, v))) [
        | inl stays ↦ rw (stays, here) (rw (sym e) (rw stays refl))
        | inr goes ↦ rw (goes, here, absent) (rw (sym e) (rw goes refl))
      ]

  lookup-select :
      (p : String × V → Bool) (key : String) (m : Dict V)
      → IsMap m
      → lookup key (select p m) ≡ kept p key (lookup key m)
  unfolding lookup select
  lookup-select p key [] h = refl
  lookup-select p key ((k, v) ∷ m) h = elim (Bool-cases (k == key)) [
    | inl same ↦
        let e = (eq_iff k key).0 same in
        lookup-select_here p key k v m e
          (subst (λ (j : String). All (λ e. (e.0 == j) ≡ false) m) e h.0)
    | inr other ↦ elim (Bool-cases (p (k, v))) [
      | inl stays ↦ rw (stays, other) (lookup-select p key m h.1)
      | inr goes ↦ rw (goes, other) (lookup-select p key m h.1)
    ]
  ]

-- The limiters that a server comes to.
pub data Reachable {L : Type 0} (rate : Rate L) : IpRateLimiter L → Type 0 where
  start :
      (rps burst : ℕ) (l : IpRateLimiter L) → l ≡ new_ip_rate_limiter rps burst → Reachable rate l
  allowed :
      (ip : String) (now : Time) (before l : IpRateLimiter L)
      → Reachable rate before
      → l ≡ (allow rate ip now before).1
      → Reachable rate l
  collected :
      (now : Time) (before l : IpRateLimiter L)
      → Reachable rate before
      → l ≡ collect now before
      → Reachable rate l

module _ {L : Type 0} (rate : Rate L) where
  Reachable-IsMap : (l : IpRateLimiter L) → Reachable rate l → IsMap l.buckets
  unfolding new_ip_rate_limiter allow collect
  Reachable-IsMap l (start rps burst _ e) = rw e tt
  Reachable-IsMap l (allowed ip now before _ r e) =
      rw e (insert-IsMap ip _ before.buckets (Reachable-IsMap before r))
  Reachable-IsMap l (collected now before _ r e) =
      rw e (select-IsMap _ before.buckets (Reachable-IsMap before r))

  kept-fresh :
      (now : Time) (ip : String) (o : Option (Bucket L))
      → kept (λ e. not (is_stale now e)) ip o ≡ elim o [
        | none ↦ none
        | some b ↦ if ltb (b.last_seen + 600000000) now then none else some b
      ]
  kept-fresh now ip none = refl
  kept-fresh now ip (some b) = ground arith

  -- A request changes no bucket but its own address's.
  pub allow-lookup_other :
      (ip other : String) (now : Time) (l : IpRateLimiter L)
      → ip ≢ other
      → lookup other (allow rate ip now l).1.buckets ≡ lookup other l.buckets
  unfolding allow
  allow-lookup_other ip other now l apart = lookup-insert_other ip other _ l.buckets apart

  -- In every limiter that a server comes to, the collector drops exactly the buckets that were last
  -- seen more than ten minutes ago, and leaves the others as they are.
  pub collect-lookup :
      (l : IpRateLimiter L) (now : Time) (ip : String)
      → Reachable rate l
      → lookup ip (collect now l).buckets ≡ elim (lookup ip l.buckets) [
        | none ↦ none
        | some b ↦ if ltb (b.last_seen + 600000000) now then none else some b
      ]
  unfolding collect
  collect-lookup l now ip r =
      lookup-select (λ e. not (is_stale now e)) ip l.buckets (Reachable-IsMap l r)
      ∙ kept-fresh now ip (lookup ip l.buckets)
