-- ===== src/Base.antt =====
-- What every module shares: names of the libraries, passed on, and the helpers of the children
-- (tests on numbers, lists, byte buffers, association lists, results). No source file is modelled here.
mod Tests
mod Lists
mod Buffer
mod Assoc
mod Outcome
mod Int
mod Text
pub mod Dict
pub mod Window
pub use Tests.*
pub use Lists.*
pub use Buffer.*
pub use Assoc.*
pub use Outcome.*
pub use Int.*
pub use Text.*
pub use Prim.Native.Nat.{ℕ, zero, suc, ◌+◌, ◌-◌, ◌*◌, ◌/◌, ◌%◌, ◌^◌, ◌≤◌, ◌<◌, min, max}
pub use mathlib.Core.Path.{◌≡◌, refl, sym, ap, subst, ◌∙◌}
pub use mathlib.Core.Logic.{◌≢◌, ◌↔◌, ◌⊎◌, inl, inr}
pub use mathlib.Core.Bool.{Bool, true, false, not, ◌&&◌, ◌||◌}
pub use mathlib.Core.Option.{Option, none, some}
pub use mathlib.Core.List.{List, [], ◌∷◌, ◌++◌, map, append-nil, append_assoc}
pub use native.Mathlib.Omega.{arith}
