-- ===== src/Base.antt =====
-- Names shared by the other modules: the libraries', passed on, and the helpers of its children.
-- No code of the repository is modelled here.
mod Tests
mod Lists
mod Results
mod Text
pub mod Dict
pub mod Order
pub mod Int
pub mod All
pub mod Fallible
pub use Tests.*
pub use Results.*
unfoldable pub use Lists.*
unfoldable pub use Text.{text_discrete, same_text}
pub use Text.{same_text_iff}
pub use Prim.Native.Nat.{ℕ, zero, suc, ◌+◌, ◌-◌, ◌*◌, ◌/◌, ◌%◌, ◌^◌, ◌≤◌, ◌<◌}
pub use Prim.Native.String.{String}
pub use mathlib.Core.Path.{◌≡◌, refl, sym, ap, subst, ◌∙◌}
pub use mathlib.Core.Logic.{◌≢◌, ◌↔◌, ◌⊎◌, inl, inr, ite, if_pos, if_neg}
pub use mathlib.Core.Bool.{Bool, true, false, not, ◌&&◌, ◌||◌}
pub use mathlib.Core.Option.{Option, none, some}
pub use mathlib.Core.List.{List, [], ◌∷◌, ◌++◌, map}
pub use native.Mathlib.Omega.{arith}
unfoldable pub use native.Mathlib.Decide.{ℕ_discrete}
