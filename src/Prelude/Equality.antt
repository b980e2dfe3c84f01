-- ===== src/Prelude/Equality.antt =====
-- Equality tests as an interface: Go's `==` on numbers, strings and what is built from them.
use Prim.Native.Nat.{ℕ}
use Prim.Native.String.{String}
use mathlib.Core.Bool.{Bool, not}
use text.Mathlib.Text.{◌==◌ as str_beq}
use test_api.Prelude.Tests.{nat_beq}
use test_api.Prelude.Int.{ℤ, int_beq}

pub record Eq {ℓ} (A : Type ℓ) : Type ℓ where
  pub equal : A → A → Bool

module _ {ℓ} {A : Type ℓ} ⦃e : Eq A⦄ where
  infix 50 ◌==◌ ◌!=◌
  abbrev pub ◌==◌ : A → A → Bool
  a == b = e.equal a b

  abbrev pub ◌!=◌ : A → A → Bool
  a != b = not (a == b)

instance abbrev pub nat_eq : Eq ℕ
nat_eq = record { equal = nat_beq }

instance abbrev pub int_eq : Eq ℤ
int_eq = record { equal = int_beq }

instance abbrev pub string_eq : Eq String
string_eq = record { equal = str_beq }
