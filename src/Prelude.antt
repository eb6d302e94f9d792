-- ===== src/Prelude.antt =====
-- The names that the other modules share: those of the libraries, passed on, and the children's.
mod Tests
mod Lists
mod Dictionary
mod Texts
mod Int
mod Json
mod Errors
pub use Tests.*
pub use Lists.*
unfoldable pub use Texts.{lower, is_space, strip, strip_left, same_codes, one_of_words}
pub use Texts.{codes}
pub use Int.*
pub use Errors.*
unfoldable pub use Dictionary.{map_entries, keys_where, get, put, remove, keys}
pub use Dictionary.{
  Dict, IsKeyed, get-map_entries, contains-keys_where, contains-keys_where-none, Everywhere,
  Everywhere-put, get-put_self, get-put, get-remove, dict_laws,
}
unfoldable pub use Json.{find, assign, update}
pub use Json.{
  Value, null, bool, int, float, str, arr, obj, Values, none_left, item, Fields, end, field,
  find-assign,
}
pub use Prim.Native.Nat.{ℕ, zero, suc, ◌+◌, ◌-◌, ◌*◌, ◌/◌, ◌%◌, ◌^◌, ◌≤◌, ◌<◌}
pub use Prim.Native.String.{String}
pub use mathlib.Core.Path.{◌≡◌, refl, sym, ap, ◌∙◌, subst}
pub use mathlib.Core.Logic.{◌≢◌, ◌↔◌, ◌⊎◌, inl, inr}
pub use mathlib.Core.Bool.{Bool, true, false, not, ◌&&◌, ◌||◌}
pub use mathlib.Core.Option.{Option, none, some}
pub use mathlib.Core.List.{List, [], ◌∷◌, ◌++◌, map}
pub use native.Mathlib.Omega.{arith}
pub use text.Mathlib.TextEquality.{eq_iff}
