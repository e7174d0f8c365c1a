-- ===== src/Base/Word.antt =====
-- `usize` on the 64-bit target as a native number below 2 ^ 64. An operator that overflows panics,
-- as a build with overflow checks does; `checked_add` and the like return `None`.
mod Pow2
unfoldable pub use Pow2.*
use Prim.Native.Nat.{ℕ, zero, suc, ◌+◌, ◌-◌, ◌*◌, ◌/◌, ◌%◌, ◌^◌, ◌≤◌, ◌<◌}
use mathlib.Core.Path.{◌≡◌, refl}
use mathlib.Core.Option.{Option, none, some}
use native.Mathlib.Omega.{arith}
use rv.Base.Tests.{ltb, if◌then◌else◌}
use rv.Base.Panics.{Run, done, panic, unwrap}

abbrev pub usize_mod : ℕ
usize_mod = 2 ^ 64

abbrev pub checked_add : ℕ → ℕ → Option ℕ
checked_add a b = if ltb (a + b) usize_mod then some (a + b) else none

abbrev pub checked_mul : ℕ → ℕ → Option ℕ
checked_mul a b = if ltb (a * b) usize_mod then some (a * b) else none

abbrev pub checked_sub : ℕ → ℕ → Option ℕ
checked_sub a b = if ltb a b then none else some (a - b)

-- The plain operators.
abbrev pub add : ℕ → ℕ → Run ℕ
add a b = unwrap (checked_add a b)

abbrev pub mul : ℕ → ℕ → Run ℕ
mul a b = unwrap (checked_mul a b)

abbrev pub sub : ℕ → ℕ → Run ℕ
sub a b = unwrap (checked_sub a b)

-- `!x`
abbrev pub complement : ℕ → ℕ
complement x = usize_mod - 1 - x
