-- ===== src/Prelude/Numerals.antt =====
-- The texts of numbers.
use Prim.Native.Nat.{ℕ, zero, suc, ◌/◌, ◌%◌, ◌≤◌, ◌<◌}
use Prim.Native.Char.{code}
use Prim.Native.String.{String, [], ◌∷◌, ◌++◌}
use mathlib.Core.Path.{◌≡◌, refl, ap, ◌∙◌, subst, sym}
use mathlib.Core.Logic.{inl, inr}
use mathlib.Core.Bool.{false}
use mathlib.Core.Option.{Option, some}
use native.Mathlib.Omega.{arith}
use text.Mathlib.TextLemmas.{nil-append, cons-append, append_cancel_left}
use test_api.Prelude.Tests.{ltb, Bool-cases}
use test_api.Prelude.Equality.{nat_eq}
use test_api.Prelude.Int.{ℤ, pos, negsuc}
use test_api.Prelude.Decimal.{digit, format_digits, format_int}
use test_api.Prelude.Parse.{
  digit-code, parse_digits, parse_digits-format, format-IsNumeral, IsNumeral,
}
use test_api.Prelude.Cuts.{has_code, has_code-append}

has_code-digit : (k d : ℕ) → 58 ≤ k → d < 10 → has_code k (digit d) ≡ false
unfolding has_code
has_code-digit k d h low =
    let (c, same, place) = digit-code d low in rw same (ground (arith, place))

has_code-format_digits : (k fuel n : ℕ) → 58 ≤ k → has_code k (format_digits fuel n) ≡ false
unfolding format_digits has_code
has_code-format_digits k zero n h = refl
has_code-format_digits k (suc fuel) n h = elim (Bool-cases (ltb n 10)) [
  | inl low ↦ rw low (has_code-digit k n h (ground arith))
  | inr high ↦ rw high (
      has_code-append k (format_digits fuel (n / 10)) (digit (n % 10))
        (has_code-format_digits k fuel (n / 10) h) (has_code-digit k (n % 10) h (omega arith)))
]

-- A number holds no character above the digits.
pub has_code-format_int : (k : ℕ) (n : ℤ) → 58 ≤ k → has_code k (format_int n) ≡ false
unfolding format_int has_code
has_code-format_int k (pos n) h = has_code-format_digits k (suc n) n h
has_code-format_int k (negsuc n) h =
    has_code-append k "-" _ (ground arith) (has_code-format_digits k (suc (suc n)) (suc n) h)

some_inj : (m n : ℕ) → ◌≡◌ {A = Option ℕ} (some m) (some n) → m ≡ n
some_inj m n h = cc

format_digits_inj : (m n : ℕ) → format_digits (suc m) m ≡ format_digits (suc n) n → m ≡ n
format_digits_inj m n e =
    some_inj m n (
      sym (parse_digits-format m) ∙ ap (λ (s : String). parse_digits s 0) e ∙ parse_digits-format n)

numeral-ne-minus : (s t : String) → IsNumeral s → s ≡ "-" ++ t → ⊥
numeral-ne-minus s t h e =
    let both : h.first ∷ h.rest ≡ "-" ∷ t =
      sym h.same ∙ e ∙ cons-append "-" "" t ∙ ap (λ (u : String). "-" ∷ u) (nil-append t) in
    let same : h.first ≡ "-" = cc in
    let low : 48 ≤ code "-" = subst (λ c. 48 ≤ code c) same h.is_numeral in omega (arith, low)

-- Two integers with the same text are the same.
pub format_int_inj : (m n : ℤ) → format_int m ≡ format_int n → m ≡ n
unfolding format_int
format_int_inj (pos m) (pos n) e = ap pos (format_digits_inj m n e)
format_int_inj (pos m) (negsuc n) e = absurd (numeral-ne-minus _ _ (format-IsNumeral m) e)
format_int_inj (negsuc m) (pos n) e = absurd (numeral-ne-minus _ _ (format-IsNumeral n) (sym e))
format_int_inj (negsuc m) (negsuc n) e =
    let same : suc m ≡ suc n = format_digits_inj (suc m) (suc n) (append_cancel_left "-" _ _ e) in
    ap negsuc (omega (arith, same))

-- No integer has the empty text.
pub format_int-filled : (n : ℤ) → format_int n ≡ "" → ⊥
unfolding format_int
format_int-filled (pos n) e =
    let h = format-IsNumeral n in let clash : h.first ∷ h.rest ≡ [] = sym h.same ∙ e in cc
format_int-filled (negsuc n) e =
    let clash : "-" ∷ ([] ++ format_digits (suc (suc n)) (suc n)) ≡ [] =
      sym (cons-append "-" "" _) ∙ e in
    cc
