-- ===== src/Prelude.antt =====
-- The names that every module shares: the libraries', passed on, and those of the children.
pub mod Tests
pub mod Strings
pub mod Results
pub mod Int
pub mod Words
pub mod Decimal
pub mod Actions
pub use Tests.*
pub use Strings.{Text, text_eq_refl, text_eq_sound, text_eq_iff, eq_ignore_ascii_case_refl}
unfoldable pub use Strings.{codes, text_eq, eq_ignore_ascii_case}
pub use Results.{Outcome, ok, err, panic, unwrap, unwrap_or, unwrap_option}
pub use Int.{ℤ, pos, negsuc}
pub use Words.{Profile, debug, release, u64_mod, i64_max}
unfoldable pub use Words.{add_u64, sub_u64}
unfoldable pub use Decimal.{to_string, parse_u64, parse_i64}
pub use Prim.Native.Nat.{ℕ, zero, suc, ◌+◌, ◌-◌, ◌*◌, ◌/◌, ◌%◌, ◌^◌, ◌≤◌, ◌<◌}
pub use Prim.Native.String.{String}
pub use mathlib.Core.Path.{◌≡◌, refl, sym, ap, ◌∙◌}
pub use mathlib.Core.Logic.{◌≢◌, ◌↔◌, ◌⊎◌, inl, inr}
pub use mathlib.Core.Bool.{Bool, true, false, not, ◌&&◌, ◌||◌}
pub use mathlib.Core.Option.{Option, none, some}
pub use mathlib.Core.List.{List, [], ◌∷◌, ◌++◌, map}
pub use native.Mathlib.Omega.{arith}
