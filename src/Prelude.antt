-- ===== src/Prelude.antt =====
-- The names that the other modules share: those of the libraries, passed on, and those of the
-- modules below: Boolean tests, lists, results, maps and machine words.
mod Tests
mod Lists
mod Outcome
mod Words
pub mod Maps
pub use Tests.*
pub use Lists.*
pub use Outcome.*
unfoldable pub use Outcome.{and_then}
unfoldable pub use Words.{
  le_bytes, number_of_bytes, read_exact, wrapping_add, wrapping_sub, wrapping_mul,
}
pub use Words.{
  codes, u128_max, u64_max, checked_add, checked_sub, checked_mul, wrapping_add_exact,
  wrapping_sub_exact, wrapping_mul_exact, number_of_bytes-le_bytes, read_exact-le_bytes,
}
unfoldable pub use Maps.{Dict, get, insert}
pub use Maps.{contains_key, get-insert}
pub use Prim.Native.Nat.{ℕ, zero, suc, ◌+◌, ◌-◌, ◌*◌, ◌/◌, ◌%◌, ◌^◌, ◌≤◌, ◌<◌}
pub use Prim.Native.String.{String}
pub use mathlib.Core.Path.{◌≡◌, refl, sym, ap, ◌∙◌, subst}
pub use mathlib.Core.Logic.{◌≢◌, ◌↔◌, ◌⊎◌, inl, inr}
pub use mathlib.Core.Bool.{Bool, true, false, not, ◌&&◌, ◌||◌}
pub use mathlib.Core.Option.{Option, none, some}
pub use mathlib.Core.List.{List, [], ◌∷◌, ◌++◌, map}
pub use native.Mathlib.Omega.{arith}
