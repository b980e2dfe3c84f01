-- ===== src/Prelude/Parse.antt =====
-- `strconv.ParseInt(s, 10, 64)`, which is also `strconv.Atoi`.
use Prim.Native.Nat.{ℕ, suc, zero, ◌+◌, ◌-◌, ◌*◌, ◌/◌, ◌%◌, ◌<◌, ◌≤◌}
use Prim.Native.Char.{Char, code}
use Prim.Native.String.{String, [], ◌∷◌, ◌++◌}
use mathlib.Core.Path.{subst, ◌≡◌, refl, sym, ap, ◌∙◌}
use mathlib.Core.Bool.{Bool, ◌&&◌, true}
use mathlib.Core.Option.{Option, none, some}
use mathlib.Core.Logic.{inl, inr}
use native.Mathlib.Omega.{arith}
use text.Mathlib.TextLemmas.{nil-append, cons-append, append_assoc, append-nil}
use test_api.Prelude.Tests.{if◌then◌else◌, ltb, leb, Bool-cases}
use test_api.Prelude.Int.{ℤ, pos, negsuc}
use test_api.Prelude.Equality.{◌==◌, nat_eq}
use test_api.Prelude.Decimal.{digit, format_digits, format_int}

-- 2^63
abbrev pub int64_end : ℕ
int64_end = 9223372036854775808

abbrev is_digit : Char → Bool
is_digit c = leb 48 (code c) && leb (code c) 57

unfoldable pub parse_digits : String → ℕ → Option ℕ
parse_digits [] n = some n
parse_digits (c ∷ s) n =
    let rest = parse_digits s (n * 10 + (code c - 48)) in if is_digit c then rest else none

-- The digits, of which there is at least one.
unfoldable pub parse_nat : String → Option ℕ
unfolding parse_digits
parse_nat [] = none
parse_nat (c ∷ s) = parse_digits (c ∷ s) 0

abbrev pub as_positive : Option ℕ → Option ℤ
as_positive none = none
as_positive (some n) = if ltb n int64_end then some (pos n) else none

abbrev pub negate : ℕ → ℤ
negate zero = pos 0
negate (suc n) = negsuc n

abbrev pub as_negative : Option ℕ → Option ℤ
as_negative none = none
as_negative (some n) = if leb n int64_end then some (negate n) else none

unfoldable pub parse_int : String → Option ℤ
unfolding parse_nat
parse_int [] = none
parse_int (c ∷ s) =
    if code c == 45
    then as_negative (parse_nat s)
    else if code c == 43
    then as_positive (parse_nat s)
    else as_positive (parse_nat (c ∷ s))

-- A digit is one character, and stands that many places after 0.
pub digit-code : (d : ℕ) → d < 10 → (c : Char) × (digit d ≡ c ∷ []) × (code c ≡ 48 + d)
unfolding digit
digit-code zero h = ("0", refl, refl)
digit-code (suc zero) h = ("1", refl, refl)
digit-code (suc (suc zero)) h = ("2", refl, refl)
digit-code (suc (suc (suc zero))) h = ("3", refl, refl)
digit-code (suc (suc (suc (suc zero)))) h = ("4", refl, refl)
digit-code (suc (suc (suc (suc (suc zero))))) h = ("5", refl, refl)
digit-code (suc (suc (suc (suc (suc (suc zero)))))) h = ("6", refl, refl)
digit-code (suc (suc (suc (suc (suc (suc (suc zero))))))) h = ("7", refl, refl)
digit-code (suc (suc (suc (suc (suc (suc (suc (suc zero)))))))) h = ("8", refl, refl)
digit-code (suc (suc (suc (suc (suc (suc (suc (suc (suc zero))))))))) h = ("9", refl, refl)
digit-code (suc (suc (suc (suc (suc (suc (suc (suc (suc (suc n)))))))))) h = absurd (omega arith)

parse_digits-digit :
    (d m : ℕ) (rest : String)
    → d < 10
    → parse_digits (digit d ++ rest) m ≡ parse_digits rest (m * 10 + d)
unfolding parse_digits
parse_digits-digit d m rest h =
    let (c, same, place) = digit-code d h in
    rw (same, cons-append c [] rest, nil-append rest)
      (let up : is_digit c ≡ true = ground arith in
        let value : code c - 48 ≡ d = omega (arith, place) in rw (up, value) refl)

-- The digits of a number are read as that number, whatever follows, with any fuel above it.
parse_digits-format_digits :
    (fuel n : ℕ) (rest : String)
    → n < fuel
    → parse_digits (format_digits fuel n ++ rest) 0 ≡ parse_digits rest n
unfolding format_digits
parse_digits-format_digits zero n rest h = absurd (omega arith)
parse_digits-format_digits (suc fuel) n rest h = elim (Bool-cases (ltb n 10)) [
  | inl low ↦
      rw low (parse_digits-digit n 0 rest (ground arith) ∙ ap (parse_digits rest) (omega arith))
  | inr high ↦
      rw (high, append_assoc (format_digits fuel (n / 10)) (digit (n % 10)) rest)
        (parse_digits-format_digits fuel (n / 10) (digit (n % 10) ++ rest) (ground arith)
          ∙ parse_digits-digit (n % 10) (n / 10) rest (omega arith)
          ∙ ap (parse_digits rest) (omega arith))
]

-- The text begins with a digit.
pub record IsNumeral (s : String) : Type 0 where
  pub first : Char
  pub rest : String
  pub same : s ≡ first ∷ rest
  pub is_numeral : 48 ≤ code first

IsNumeral-digit : (d : ℕ) → d < 10 → IsNumeral (digit d)
IsNumeral-digit d h =
    let (c, same, place) = digit-code d h in
    record { first = c; rest = []; same = same; is_numeral = omega (arith, place) }

IsNumeral-append : (s t : String) → IsNumeral s → IsNumeral (s ++ t)
IsNumeral-append s t h = record {
  first = h.first;
  rest = h.rest ++ t;
  same = ap (λ (u : String). u ++ t) h.same ∙ cons-append h.first h.rest t;
  is_numeral = h.is_numeral;
}

IsNumeral-format_digits : (fuel n : ℕ) → n < fuel → IsNumeral (format_digits fuel n)
unfolding format_digits
IsNumeral-format_digits zero n h = absurd (omega arith)
IsNumeral-format_digits (suc fuel) n h = elim (Bool-cases (ltb n 10)) [
  | inl low ↦ rw low (IsNumeral-digit n (ground arith))
  | inr high ↦ rw high (
      IsNumeral-append (format_digits fuel (n / 10)) (digit (n % 10))
        (IsNumeral-format_digits fuel (n / 10) (ground arith)))
]

pub parse_digits-format : (n : ℕ) → parse_digits (format_digits (suc n) n) 0 ≡ some n
unfolding parse_digits
parse_digits-format n =
    ap (λ (s : String). parse_digits s 0) (sym (append-nil (format_digits (suc n) n)))
    ∙ parse_digits-format_digits (suc n) n [] (omega arith)

parse_nat-of_numeral : (s : String) → IsNumeral s → parse_nat s ≡ parse_digits s 0
unfolding parse_nat
parse_nat-of_numeral [] h = cc (h.same)
parse_nat-of_numeral (c ∷ s) h = refl

parse_int-cons :
    (c : Char) (s : String) → 48 ≤ code c → parse_int (c ∷ s) ≡ as_positive (parse_digits (c ∷ s) 0)
unfolding parse_int parse_nat
parse_int-cons c s h = ground arith

parse_int-of_numeral : (s : String) → IsNumeral s → parse_int s ≡ as_positive (parse_digits s 0)
parse_int-of_numeral s h =
    subst (λ (t : String). parse_int t ≡ as_positive (parse_digits t 0)) (sym h.same)
      (parse_int-cons h.first h.rest h.is_numeral)

parse_int-minus : (s : String) → parse_int ("-" ++ s) ≡ as_negative (parse_nat s)
unfolding parse_int
parse_int-minus s =
    ap parse_int (cons-append "-" "" s ∙ ap (λ (t : String). "-" ∷ t) (nil-append s))

pub format_int-pos : (n : ℕ) → format_int (pos n) ≡ format_digits (suc n) n
unfolding format_int
format_int-pos n = refl

pub format_int-negsuc : (n : ℕ) → format_int (negsuc n) ≡ "-" ++ format_digits (suc (suc n)) (suc n)
unfolding format_int
format_int-negsuc n = refl

pub format-IsNumeral : (n : ℕ) → IsNumeral (format_digits (suc n) n)
format-IsNumeral n = IsNumeral-format_digits (suc n) n (omega arith)

-- The integers of 64 bits.
abbrev pub IsInt64 : ℤ → Type 0
IsInt64 (pos n) = n < int64_end
IsInt64 (negsuc n) = n < int64_end

-- What `FormatInt` prints is read back by `ParseInt` as the same integer, if it has 64 bits.
pub parse_int-format_int : (n : ℤ) → IsInt64 n → parse_int (format_int n) ≡ some n
parse_int-format_int (pos n) h =
    ap parse_int (format_int-pos n)
    ∙ parse_int-of_numeral _ (format-IsNumeral n)
    ∙ ap as_positive (parse_digits-format n)
    ∙ ground arith
parse_int-format_int (negsuc n) h =
    ap parse_int (format_int-negsuc n)
    ∙ parse_int-minus _
    ∙ ap as_negative
        (parse_nat-of_numeral _ (format-IsNumeral (suc n)) ∙ parse_digits-format (suc n))
    ∙ ground arith

as_positive-IsInt64 : (o : Option ℕ) (n : ℤ) → as_positive o ≡ some n → IsInt64 n
as_positive-IsInt64 none n h = cc
as_positive-IsInt64 (some m) (pos k) h = ground arith
as_positive-IsInt64 (some m) (negsuc k) h = ground arith

as_negative-IsInt64 : (o : Option ℕ) (n : ℤ) → as_negative o ≡ some n → IsInt64 n
as_negative-IsInt64 none n h = cc
as_negative-IsInt64 (some zero) (pos k) h = ground arith
as_negative-IsInt64 (some zero) (negsuc k) h = ground arith
as_negative-IsInt64 (some (suc m)) (pos k) h = ground arith
as_negative-IsInt64 (some (suc m)) (negsuc k) h = ground arith

-- What `ParseInt` reads has 64 bits.
pub parse_int-IsInt64 : (s : String) (n : ℤ) → parse_int s ≡ some n → IsInt64 n
unfolding parse_int
parse_int-IsInt64 [] n h = cc
parse_int-IsInt64 (c ∷ s) n h = elim (Bool-cases (code c == 45)) [
  | inl minus ↦ as_negative-IsInt64 (parse_nat s) n (rw minus at h)
  | inr other ↦ elim (Bool-cases (code c == 43)) [
    | inl plus ↦ as_positive-IsInt64 (parse_nat s) n (rw (other, plus) at h)
    | inr none_of ↦ as_positive-IsInt64 (parse_nat (c ∷ s)) n (rw (other, none_of) at h)
  ]
]
