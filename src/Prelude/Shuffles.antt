-- ===== src/Prelude/Shuffles.antt =====
-- Lists that hold the same items in another order.
use Prim.Native.Nat.{ℕ, zero, suc}
use mathlib.Core.Path.{◌≡◌, subst, sym, refl, ◌∙◌, ap}
use mathlib.Core.Logic.{◌⊎◌, inl, inr}
use mathlib.Core.Bool.{Bool, true, ◌||◌}
use mathlib.Core.List.{List, [], ◌∷◌, Permᴰ, map}
use mathlib.Core.List.Permᴰ
use mathlib.Core.List.Permᴰ.{nil, cons, swap, trans}
use native.Mathlib.Omega.{arith}
use test_api.Prelude.Tests.{Bool-cases, All, length}
use test_api.Prelude.Int.{ℤ, ◌≤ℤ◌}
use test_api.Prelude.Lists.{any, select, take}
use test_api.Prelude.Orders.{insert_by, order_by}
use test_api.Prelude.Every.{All-zip, Descends}

or_swap : (a b c : Bool) → (a || (b || c)) ≡ (b || (a || c))
or_swap a b c = ground arith

module _ {A : Type 0} where
  pub All-shuffled : (P : A → Type 0) {xs ys : List A} → Permᴰ xs ys → All P xs → All P ys
  All-shuffled P nil h = tt
  All-shuffled P (cons e d) h = (subst P e h.0, All-shuffled P d h.1)
  All-shuffled P (swap e₁ e₂) h = (subst P e₂ h.1.0, (subst P e₁ h.0, h.1.1))
  All-shuffled P (trans d₁ d₂) h = All-shuffled P d₂ (All-shuffled P d₁ h)

  pub length-shuffled : {xs ys : List A} → Permᴰ xs ys → length xs ≡ length ys
  length-shuffled nil = refl
  length-shuffled (cons e d) = ap suc (length-shuffled d)
  length-shuffled (swap e₁ e₂) = refl
  length-shuffled (trans d₁ d₂) = length-shuffled d₁ ∙ length-shuffled d₂

  pub any-shuffled : (p : A → Bool) {xs ys : List A} → Permᴰ xs ys → any p xs ≡ any p ys
  unfolding any
  any-shuffled p nil = refl
  any-shuffled p (cons e d) = λ i. p (e i) || any-shuffled p d i
  any-shuffled p (swap {b = b} {a' = a'} {b' = b'} {l = l} e₁ e₂) =
      (λ i. p (e₁ i) || (p (e₂ i) || any p l)) ∙ or_swap (p b') (p a') (any p l)
  any-shuffled p (trans d₁ d₂) = any-shuffled p d₁ ∙ any-shuffled p d₂

  insert_by-shuffles :
      (le : A → A → Bool) (x : A) (xs : List A) → Permᴰ (x ∷ xs) (insert_by le x xs)
  unfolding insert_by
  insert_by-shuffles le x [] = cons refl nil
  insert_by-shuffles le x (y ∷ ys) = elim (Bool-cases (le x y)) [
    | inl e ↦ rw e (cons refl (cons refl (Permᴰ.refl ys)))
    | inr e ↦ rw e (trans (swap refl refl) (cons refl (insert_by-shuffles le x ys)))
  ]

  pub order_by-shuffles : (le : A → A → Bool) (xs : List A) → Permᴰ xs (order_by le xs)
  unfolding order_by
  order_by-shuffles le [] = nil
  order_by-shuffles le (x ∷ xs) =
      trans (cons refl (order_by-shuffles le xs)) (insert_by-shuffles le x (order_by le xs))

  All-true : (P : A → Type 0) (xs : List A) → ((x : A) → P x) → All P xs
  All-true P [] f = tt
  All-true P (x ∷ xs) f = (f x, All-true P xs f)

  -- An item is among the first ones, or these are as many as were asked for and none of them has a
  -- lower key.
  abbrev pub IsCovered : (A → A → Bool) → (A → ℤ) → ℕ → List A → A → Type 0
  IsCovered same key n first x =
      (any (same x) first ≡ true) ⊎ ((length first ≡ n) × All (λ y. key x ≤ℤ key y) first)

  module _ (same : A → A → Bool) (key : A → ℤ) (itself : (x : A) → same x x ≡ true) where
    IsCovered-cons :
        (n : ℕ) (first : List A) (x y : A)
        → key y ≤ℤ key x
        → IsCovered same key n first y
        → IsCovered same key (suc n) (x ∷ first) y
    unfolding any
    IsCovered-cons n first x y below (inl listed) = inl (ground arith)
    IsCovered-cons n first x y below (inr (full, lower)) = inr (omega (arith, full), (below, lower))

    pub take-covers :
        (n : ℕ) (xs : List A) → Descends key xs → All (IsCovered same key n (take n xs)) xs
    unfolding take any
    take-covers zero xs h = All-true _ xs (λ x. inr (refl, tt))
    take-covers (suc n) [] h = tt
    take-covers (suc n) (x ∷ xs) h = (
      inl (rw (itself x) refl),
      All-zip _ _ _ xs (λ y. IsCovered-cons n (take n xs) x y) h.0 (take-covers n xs h.1),
    )

  pub IsCovered-shuffled :
      (same : A → A → Bool) (key : A → ℤ) (n : ℕ) {xs ys : List A} (x : A)
      → Permᴰ xs ys
      → IsCovered same key n xs x
      → IsCovered same key n ys x
  IsCovered-shuffled same key n x d (inl listed) = inl (sym (any-shuffled (same x) d) ∙ listed)
  IsCovered-shuffled same key n x d (inr (full, lower)) =
      inr (sym (length-shuffled d) ∙ full, All-shuffled _ d lower)

pub All-select-map :
    {A B : Type 0} (P : B → Type 0) (p : B → Bool) (f : A → B) (xs : List A)
    → All P (select p (map f xs))
    → All (λ x. p (f x) ≡ true → P (f x)) xs
unfolding select
All-select-map P p f [] h = tt
All-select-map P p f (x ∷ xs) h = elim (Bool-cases (p (f x))) [
  | inl e ↦ let k = rw e at h in (λ q. k.0, All-select-map P p f xs k.1)
  | inr e ↦ let k = rw e at h in (λ q. cc, All-select-map P p f xs k)
]
