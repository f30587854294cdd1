-- ===== src/Base.antt =====
-- The names that all other modules share: those of the libraries, passed on, and those of the
-- children: tests and branching, lists, dictionaries (Go maps and the concurrent map), heaps of
-- shared objects, texts, and the outcome of a Go call.
mod Tests
mod Lists
mod Dicts
mod Heaps
mod Text
mod Trim
mod Outcomes
pub use Tests.*
pub use Lists.*
pub use Dicts.{
  Dict, lookup-empty, lookup-insert, lookup-remove, has-lookup, dict_laws, lookup_iff_none, IsMap,
  remove-IsMap, insert-IsMap, mem_text,
}
unfoldable pub use Dicts.{lookup, insert, remove, has}
pub use Heaps.*
pub use Text.{string_lt_total, string_lt_asymm, append_assoc_text}
unfoldable pub use Text.{string_lt}
pub use Text.{◌+++◌}
unfoldable pub use Trim.{trim_space, trim_left, trim_right}
pub use Outcomes.*
pub use Prim.Native.Nat.{ℕ, zero, suc, ◌+◌, ◌-◌, ◌*◌, ◌/◌, ◌%◌, ◌^◌, ◌≤◌, ◌<◌}
pub use Prim.Native.String.{String}
pub use mathlib.Core.Path.{◌≡◌, refl, sym, ap, ◌∙◌, fun_ext, subst}
pub use mathlib.Core.Logic.{◌≢◌, ◌↔◌, ◌⊎◌, inl, inr}
pub use mathlib.Core.Bool.{Bool, true, false, not, ◌&&◌, ◌||◌}
pub use mathlib.Core.Option.{Option, none, some}
pub use mathlib.Core.List.{List, [], ◌∷◌, ◌++◌, map, append_assoc, append-nil}
pub use native.Mathlib.Omega.{arith}
pub use text.Mathlib.TextEquality.{eq_iff}
pub use text.Mathlib.Text.{starts_with}
