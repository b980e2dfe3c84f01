-- ===== src/Prelude/Cuts.antt =====
-- `strings.Cut` at a character, and the texts that do not hold it.
use Prim.Native.Nat.{ℕ}
use Prim.Native.Char.{Char, code}
use Prim.Native.String.{String, [], ◌∷◌, ◌++◌}
use mathlib.Core.Path.{◌≡◌, refl}
use mathlib.Core.Bool.{Bool, false, ◌||◌}
use mathlib.Core.Option.{Option, none, some}
use native.Mathlib.Omega.{arith}
use text.Mathlib.TextLemmas.{nil-append, cons-append}
use test_api.Prelude.Tests.{if◌then◌else◌}
use test_api.Prelude.Equality.{◌==◌, nat_eq}

-- A text before and after the first place of a character.
abbrev pub cons_before : Char → Option (String × String) → Option (String × String)
cons_before c none = none
cons_before c (some (before, after)) = some (c ∷ before, after)

unfoldable pub cut_first : ℕ → String → Option (String × String)
cut_first k [] = none
cut_first k (c ∷ s) =
    let rest = cut_first k s in if code c == k then some ([], s) else cons_before c rest

unfoldable pub has_code : ℕ → String → Bool
has_code k [] = false
has_code k (c ∷ s) = code c == k || has_code k s

pub has_code-append :
    (k : ℕ) (s t : String)
    → has_code k s ≡ false
    → has_code k t ≡ false
    → has_code k (s ++ t) ≡ false
unfolding has_code
has_code-append k [] t h g = rw (nil-append t) g
has_code-append k (c ∷ s) t h g =
    rw (cons-append c s t) (ground (arith, has_code-append k s t (ground arith) g))

-- A text is cut where the character stands for the first time.
pub cut_first-append :
    (k : ℕ) (c : Char) (s p t : String)
    → code c ≡ k
    → has_code k s ≡ false
    → cut_first k (s ++ ((c ∷ p) ++ t)) ≡ some (s, p ++ t)
unfolding has_code cut_first
cut_first-append k c [] p t e h = rw (nil-append ((c ∷ p) ++ t), cons-append c p t) (ground arith)
cut_first-append k c (d ∷ s) p t e h = rw (cons-append d s ((c ∷ p) ++ t)) (
    let rest = cut_first-append k c s p t e (ground arith) in
    let apart : (code d == k) ≡ false = ground arith in rw (apart, rest) refl)
