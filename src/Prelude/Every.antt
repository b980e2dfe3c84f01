-- ===== src/Prelude/Every.antt =====
-- A predicate on every item of a list, through the operations on lists.
use Prim.Native.Nat.{ℕ, zero, suc, ◌≤◌}
use mathlib.Core.Path.{◌≡◌}
use mathlib.Core.Logic.{inl, inr}
use mathlib.Core.Bool.{Bool, true}
use mathlib.Core.List.{List, [], ◌∷◌, ◌++◌}
use native.Mathlib.Omega.{arith}
use test_api.Prelude.Tests.{Bool-cases, length, All}
use test_api.Prelude.Int.{ℤ, leb_ℤ, ◌≤ℤ◌}
use test_api.Prelude.Lists.{select, take, drop, insert_desc, order_desc}

module _ {A : Type 0} where
  pub All-append : (P : A → Type 0) (xs : List A) (x : A) → All P xs → P x → All P (xs ++ x ∷ [])
  All-append P [] x h p = (p, tt)
  All-append P (y ∷ xs) x h p = (h.0, All-append P xs x h.1 p)

  pub All-imp : (P Q : A → Type 0) (xs : List A) → ((x : A) → P x → Q x) → All P xs → All Q xs
  All-imp P Q [] f h = tt
  All-imp P Q (x ∷ xs) f h = (f x h.0, All-imp P Q xs f h.1)

  pub All-zip :
      (P Q R : A → Type 0) (xs : List A)
      → ((x : A) → P x → Q x → R x)
      → All P xs
      → All Q xs
      → All R xs
  All-zip P Q R [] f h k = tt
  All-zip P Q R (x ∷ xs) f h k = (f x h.0 k.0, All-zip P Q R xs f h.1 k.1)

module _ {A : Type 0} (P : A → Type 0) where
  pub All-take : (n : ℕ) (xs : List A) → All P xs → All P (take n xs)
  unfolding take
  All-take zero xs h = tt
  All-take (suc n) [] h = tt
  All-take (suc n) (x ∷ xs) h = (h.0, All-take n xs h.1)

  pub All-drop : (n : ℕ) (xs : List A) → All P xs → All P (drop n xs)
  unfolding drop
  All-drop zero xs h = h
  All-drop (suc n) [] h = tt
  All-drop (suc n) (x ∷ xs) h = All-drop n xs h.1

  pub All-insert_desc :
      (key : A → ℤ) (x : A) (xs : List A) → P x → All P xs → All P (insert_desc key x xs)
  unfolding insert_desc
  All-insert_desc key x [] p h = (p, tt)
  All-insert_desc key x (y ∷ ys) p h = elim (Bool-cases (leb_ℤ (key y) (key x))) [
    | inl e ↦ rw e (p, h)
    | inr e ↦ rw e (h.0, All-insert_desc key x ys p h.1)
  ]

  pub All-order_desc : (key : A → ℤ) (xs : List A) → All P xs → All P (order_desc key xs)
  unfolding order_desc
  All-order_desc key [] h = tt
  All-order_desc key (x ∷ xs) h =
      All-insert_desc key x (order_desc key xs) h.0 (All-order_desc key xs h.1)

module _ {A : Type 0} where
  pub All-select : (p : A → Bool) (xs : List A) → All (λ x. p x ≡ true) (select p xs)
  unfolding select
  All-select p [] = tt
  All-select p (x ∷ xs) = elim (Bool-cases (p x)) [
    | inl e ↦ rw e (e, All-select p xs)
    | inr e ↦ rw e (All-select p xs)
  ]

  pub length-take : (n : ℕ) (xs : List A) → length (take n xs) ≤ n
  unfolding take
  length-take zero xs = omega arith
  length-take (suc n) [] = omega arith
  length-take (suc n) (x ∷ xs) = omega (arith, length-take n xs)

  -- No key is above one before it.
  abbrev pub Descends : (A → ℤ) → List A → Type 0
  Descends key [] = Unit
  Descends key (x ∷ xs) = All (λ y. key y ≤ℤ key x) xs × Descends key xs

module _ {A : Type 0} (key : A → ℤ) where
  insert_desc-Descends :
      (x : A) (xs : List A) → Descends key xs → Descends key (insert_desc key x xs)
  unfolding insert_desc
  insert_desc-Descends x [] h = (tt, tt)
  insert_desc-Descends x (y ∷ ys) h = elim (Bool-cases (leb_ℤ (key y) (key x))) [
    | inl e ↦
        let y≤x : key y ≤ℤ key x = ground arith in
        rw e (
          (y≤x, All-imp (λ z. key z ≤ℤ key y) (λ z. key z ≤ℤ key x) ys (λ z p. ground arith) h.0),
          h,
        )
    | inr e ↦
        let x≤y : key x ≤ℤ key y = ground arith in
        rw e (All-insert_desc (λ z. key z ≤ℤ key y) key x ys x≤y h.0, insert_desc-Descends x ys h.1)
  ]

  pub order_desc-Descends : (xs : List A) → Descends key (order_desc key xs)
  unfolding order_desc
  order_desc-Descends [] = tt
  order_desc-Descends (x ∷ xs) = insert_desc-Descends x (order_desc key xs) (order_desc-Descends xs)

  pub take-Descends : (n : ℕ) (xs : List A) → Descends key xs → Descends key (take n xs)
  unfolding take
  take-Descends zero xs h = tt
  take-Descends (suc n) [] h = tt
  take-Descends (suc n) (x ∷ xs) h =
      (All-take (λ y. key y ≤ℤ key x) n xs h.0, take-Descends n xs h.1)

  pub drop-Descends : (n : ℕ) (xs : List A) → Descends key xs → Descends key (drop n xs)
  unfolding drop
  drop-Descends zero xs h = h
  drop-Descends (suc n) [] h = tt
  drop-Descends (suc n) (x ∷ xs) h = drop-Descends n xs h.1
