-- ===== src/Prelude/Orders.antt =====
-- Stable sorting by a test "stands before or beside", the order of Go's strings, and a predicate on
-- every item through both.
use Prim.Native.String.{String, compare}
use mathlib.Core.Path.{◌≡◌}
use mathlib.Core.Logic.{inl, inr}
use mathlib.Core.Bool.{Bool, true, false}
use mathlib.Core.List.{List, [], ◌∷◌}
use native.Mathlib.Omega.{arith}
use text.Mathlib.Text.{is_le}
use test_api.Prelude.Tests.{if◌then◌else◌, Bool-cases, All}
use test_api.Prelude.Int.{ℤ, ◌≤ℤ◌}
use test_api.Prelude.Every.{All-imp, Descends}

-- `cmp.Compare(s, t) <= 0`, by bytes.
abbrev pub string_le : String → String → Bool
string_le s t = is_le (compare s t)

module _ {A : Type 0} (le : A → A → Bool) where
  -- Stable insertion sort, as `slices.SortStableFunc` orders.
  unfoldable pub insert_by : A → List A → List A
  insert_by x [] = x ∷ []
  insert_by x (y ∷ ys) = let rest = insert_by x ys in if le x y then x ∷ y ∷ ys else y ∷ rest

  unfoldable pub order_by : List A → List A
  unfolding insert_by
  order_by [] = []
  order_by (x ∷ xs) = insert_by x (order_by xs)

  module _ (P : A → Type 0) where
    All-insert_by : (x : A) (xs : List A) → P x → All P xs → All P (insert_by x xs)
    unfolding insert_by
    All-insert_by x [] p h = (p, tt)
    All-insert_by x (y ∷ ys) p h = elim (Bool-cases (le x y)) [
      | inl e ↦ rw e (p, h)
      | inr e ↦ rw e (h.0, All-insert_by x ys p h.1)
    ]

    pub All-order_by : (xs : List A) → All P xs → All P (order_by xs)
    unfolding order_by
    All-order_by [] h = tt
    All-order_by (x ∷ xs) h = All-insert_by x (order_by xs) h.0 (All-order_by xs h.1)

  -- A test that looks at a number first, the higher one first.
  pub record IsBy (key : A → ℤ) : Type 0 where
    pub yes_ : (x y : A) → le x y ≡ true → key y ≤ℤ key x
    pub no_ : (x y : A) → le x y ≡ false → key x ≤ℤ key y

  module _ (key : A → ℤ) (by_key : IsBy key) where
    insert_by-Descends : (x : A) (xs : List A) → Descends key xs → Descends key (insert_by x xs)
    unfolding insert_by
    insert_by-Descends x [] h = (tt, tt)
    insert_by-Descends x (y ∷ ys) h = elim (Bool-cases (le x y)) [
      | inl e ↦
          let y≤x = by_key.yes_ x y e in
          rw e (
            (y≤x, All-imp (λ z. key z ≤ℤ key y) (λ z. key z ≤ℤ key x) ys (λ z p. ground arith) h.0),
            h,
          )
      | inr e ↦ rw e (
        All-insert_by (λ z. key z ≤ℤ key y) x ys (by_key.no_ x y e) h.0,
        insert_by-Descends x ys h.1,
      )
    ]

    pub order_by-Descends : (xs : List A) → Descends key (order_by xs)
    unfolding order_by
    order_by-Descends [] = tt
    order_by-Descends (x ∷ xs) = insert_by-Descends x (order_by xs) (order_by-Descends xs)
