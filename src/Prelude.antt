-- ===== src/Prelude.antt =====
-- The names that every other module shares: the libraries' names passed on, and those of the
-- children (tests and conditionals, integers, results, maps, texts).
mod Tests
mod Int
mod Equality
mod Results
mod Dicts
mod Text
mod Decimal
mod Lists
mod Every
mod Parse
mod Orders
mod Shuffles
mod Cuts
mod Numerals
pub use Tests.*
pub use Int.*
unfoldable pub use Equality.*
unfoldable pub use Results.*
unfoldable pub use Dicts.*
unfoldable pub use Lists.*
unfoldable pub use Decimal.*
unfoldable pub use Text.*
pub use Every.*
unfoldable pub use Parse.*
unfoldable pub use Orders.*
pub use Shuffles.*
unfoldable pub use Cuts.*
pub use Numerals.*
pub use Prim.Native.Nat.{ℕ, zero, suc, ◌+◌, ◌-◌, ◌*◌, ◌≤◌, ◌<◌}
pub use Prim.Native.String.{String, len, count}
pub use mathlib.Core.Path.{◌≡◌, refl, sym, ap, ◌∙◌, subst}
pub use mathlib.Core.Logic.{◌≢◌, ◌↔◌, ◌⊎◌, inl, inr}
pub use mathlib.Core.Bool.{Bool, true, false, ◌&&◌, ◌||◌, not}
pub use mathlib.Core.Option.{Option, none, some}
pub use mathlib.Core.List.{List, [], ◌∷◌, ◌++◌, map, Permᴰ}
pub use native.Mathlib.Omega.{arith}
pub use text.Mathlib.TextEquality.{eq_iff}
