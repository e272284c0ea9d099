-- ===== src/Base.antt =====
-- The names that the modules share: the libraries', passed on, and those of the children.
mod Tests
mod Lists
mod Equality
mod Dicts
mod Texts
pub mod Search
pub mod Contract
mod Sets
mod Orders
pub mod Tables
pub mod Settle
pub mod Fixpoint
pub mod GenKill
pub mod Backward
pub use Tests.*
pub use Lists.*
pub use Equality.*
pub use Texts.{codes, codes_beq, starts_with, ends_with, drop, append_text}
pub use Dicts.*
pub use Sets.*
pub use Orders.*
pub use Search.{stack_push}
pub use Prim.Native.Nat.{ℕ, zero, suc, ◌+◌, ◌-◌, ◌*◌, ◌/◌, ◌%◌, ◌^◌, ◌≤◌, ◌<◌}
pub use Prim.Native.String.{String}
pub use mathlib.Core.Path.{◌≡◌, refl, sym, ap, ◌∙◌, subst}
pub use mathlib.Core.Logic.{◌≢◌, ◌↔◌, ◌⊎◌, inl, inr}
pub use mathlib.Core.Bool.{Bool, true, false, not, ◌&&◌, ◌||◌}
pub use mathlib.Core.Option.{Option, none, some}
pub use mathlib.Core.List.{
  List, [], ◌∷◌, ◌++◌, map, reverse, append-nil, append_assoc, reverse-append,
}
pub use native.Mathlib.Omega.{arith}
