-- ===== src/Base.antt =====
-- The names that the modules of the library share: those of the libraries, passed on, and those of
-- the children, which hold Boolean tests, lists, integers, byte strings and maps.
mod Tests
mod Lists
mod Int
mod Strings
mod Maps
pub use Tests.*
pub use Lists.*
unfoldable pub use Int.{◌+ℤ◌, ◌-ℤ◌, ◌*ℤ◌}
pub use Int.{
  ℤ, pos, negsuc, pos_part, neg_part, sub_ℕ, ◌≤ℤ◌, ltb_ℤ, +ℤ_parts, -ℤ_parts, eq_of_parts, int_laws,
  ltb_ℤ-false, ltb_ℤ-true,
}
unfoldable pub use Strings.{◌==◌}
pub use Strings.{Bytes, codes, ==_iff, ==_refl, ==_of_eq, eq_of_==}
unfoldable pub use Maps.{lookup, insert}
pub use Maps.{Eq, bytes_eq, pair_beq, pair_beq_iff, pair_eq, Assoc, lookup-insert, beq_refl}
pub use Prim.Native.Nat.{ℕ, zero, suc, ◌+◌, ◌-◌, ◌*◌, ◌/◌, ◌%◌, ◌^◌, ◌≤◌, ◌<◌, min}
pub use mathlib.Core.Path.{◌≡◌, refl, sym, ap, ◌∙◌, subst, ◌≡⟨◌⟩◌, ◌∎}
pub use mathlib.Core.Logic.{◌≢◌, ◌↔◌, ◌⊎◌, inl, inr}
pub use mathlib.Core.Bool.{Bool, true, false, not, ◌&&◌, ◌||◌}
pub use mathlib.Core.Option.{Option, none, some}
pub use mathlib.Core.List.{List, [], ◌∷◌, ◌++◌, map}
unfoldable pub use mathlib.Core.List.{flatten}
pub use native.Mathlib.Omega.{arith}
