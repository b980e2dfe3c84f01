-- ===== src/Store/Stats/Counts.antt =====
-- How many things of a list are so: a count that is written without the tests of the queries.
use test_api.Prelude.{
  ℕ, suc, ◌≡◌, ◌↔◌, refl, ap, Bool, true, ◌&&◌, Bool-cases, inl, inr, List, [], ◌∷◌, select, any,
  length, arith,
}

-- Of the things of a list, `n` are so.
pub data IsCount {A : Type 0} (P : A → Type 0) : List A → ℕ → Type 0 where
  nothing : IsCount P [] 0
  counted : {x : A} → {xs : List A} → {n : ℕ} → P x → IsCount P xs n → IsCount P (x ∷ xs) (suc n)
  skipped : {x : A} → {xs : List A} → {n : ℕ} → ¬ P x → IsCount P xs n → IsCount P (x ∷ xs) n

module _ {A : Type 0} (P : A → Type 0) where
  pub select-IsCount :
      (p : A → Bool) (xs : List A)
      → ((x : A) → (p x ≡ true) ↔ P x)
      → IsCount P xs (length (select p xs))
  unfolding select
  select-IsCount p [] iff = nothing
  select-IsCount p (x ∷ xs) iff = elim (Bool-cases (p x)) [
    | inl is_so ↦ rw is_so (counted ((iff x).0 is_so) (select-IsCount p xs iff))
    | inr other ↦
        rw other (skipped (λ h. ground (arith, other, (iff x).1 h)) (select-IsCount p xs iff))
  ]

  select_both :
      (p q : A → Bool) (xs : List A) → select p (select q xs) ≡ select (λ x. q x && p x) xs
  unfolding select
  select_both p q [] = refl
  select_both p q (x ∷ xs) = elim (Bool-cases (q x)) [
    | inl is_so ↦ elim (Bool-cases (p x)) [
      | inl also ↦ rw (is_so, also) (ap (λ ys. x ∷ ys) (select_both p q xs))
      | inr not_ ↦ rw (is_so, not_) (select_both p q xs)
    ]
    | inr other ↦ rw other (select_both p q xs)
  ]

  -- What both tests leave is counted.
  pub select-select-IsCount :
      (p q : A → Bool) (xs : List A)
      → ((x : A) → (q x && p x ≡ true) ↔ P x)
      → IsCount P xs (length (select p (select q xs)))
  select-select-IsCount p q xs iff =
      rw (select_both p q xs) (select-IsCount (λ x. q x && p x) xs iff)

pub any-select :
    {A : Type 0} (p q : A → Bool) (xs : List A) → any p (select q xs) ≡ any (λ x. q x && p x) xs
unfolding any select
any-select p q [] = refl
any-select p q (x ∷ xs) = elim (Bool-cases (q x)) [
  | inl is_so ↦ rw (is_so, any-select p q xs) refl
  | inr other ↦ rw (other, any-select p q xs) refl
]
