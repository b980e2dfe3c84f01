-- ===== src/Prelude/Text.antt =====
-- Go's `strings.TrimSpace` on a text, which is a list of code points. `count` is
-- `utf8.RuneCountInString` and `len` is `len` of a string, in bytes of UTF-8.
use Prim.Native.Nat.{ℕ}
use Prim.Native.Char.{Char, code}
use Prim.Native.String.{String, [], ◌∷◌}
use mathlib.Core.Path.{◌≡◌, refl}
use mathlib.Core.Bool.{Bool, true, false, ◌&&◌, ◌||◌}
use mathlib.Core.Logic.{inl, inr}
use test_api.Prelude.Tests.{if◌then◌else◌, leb, Bool-cases}
use test_api.Prelude.Equality.{◌==◌, nat_eq}

-- `unicode.IsSpace`: the white space of Latin-1, and the property White_Space above it.
unfoldable pub is_space : ℕ → Bool
is_space c =
    (leb 0x9 c && leb c 0xd)
    || c == 0x20
    || c == 0x85
    || c == 0xa0
    || c == 0x1680
    || (leb 0x2000 c && leb c 0x200a)
    || c == 0x2028
    || c == 0x2029
    || c == 0x202f
    || c == 0x205f
    || c == 0x3000

unfoldable pub trim_left : String → String
trim_left [] = []
trim_left (c ∷ s) = if is_space (code c) then trim_left s else c ∷ s

-- A space is dropped if nothing is left behind it.
abbrev trim_char : Bool → Char → String → String
trim_char true c [] = []
trim_char true c (d ∷ s) = c ∷ d ∷ s
trim_char false c s = c ∷ s

unfoldable pub trim_right : String → String
trim_right [] = []
trim_right (c ∷ s) = trim_char (is_space (code c)) c (trim_right s)

unfoldable pub trim_space : String → String
unfolding trim_left trim_right is_space
trim_space s = trim_right (trim_left s)

trim_char_idem :
    (b : Bool) (c : Char) (s : String)
    → trim_right s ≡ s
    → is_space (code c) ≡ b
    → trim_right (trim_char b c s) ≡ trim_char b c s
unfolding trim_right
trim_char_idem true c [] h e = refl
trim_char_idem true c (d ∷ s) h e = rw (e, h)
trim_char_idem false c s h e = rw (e, h)

trim_right_idem : (s : String) → trim_right (trim_right s) ≡ trim_right s
unfolding trim_right
trim_right_idem [] = refl
trim_right_idem (c ∷ s) =
    trim_char_idem (is_space (code c)) c (trim_right s) (trim_right_idem s) refl

-- A text whose first character is not a space.
abbrev Starts : String → Type 0
Starts [] = Unit
Starts (c ∷ s) = is_space (code c) ≡ false

trim_left-Starts : (s : String) → Starts (trim_left s)
unfolding trim_left
trim_left-Starts [] = tt
trim_left-Starts (c ∷ s) = elim (Bool-cases (is_space (code c))) [
  | inl e ↦ rw e (trim_left-Starts s)
  | inr e ↦ rw e e
]

trim_left_of_Starts : (s : String) → Starts s → trim_left s ≡ s
unfolding trim_left
trim_left_of_Starts [] h = refl
trim_left_of_Starts (c ∷ s) h = rw h

trim_right-Starts : (s : String) → Starts s → Starts (trim_right s)
unfolding trim_right
trim_right-Starts [] h = tt
trim_right-Starts (c ∷ s) h = rw h h

-- Trimming twice is trimming once.
pub trim_space_idem : (s : String) → trim_space (trim_space s) ≡ trim_space s
unfolding trim_space
trim_space_idem s =
    rw (trim_left_of_Starts (trim_right (trim_left s)) (trim_right-Starts _ (trim_left-Starts s)))
      (trim_right_idem (trim_left s))
