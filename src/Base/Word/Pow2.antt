-- ===== src/Base/Word/Pow2.antt =====
-- `usize::is_power_of_two`, by halving: at most 64 rounds are needed below 2 ^ 64.
use Prim.Native.Nat.{ℕ, zero, suc, ◌/◌, ◌%◌, ◌^◌, ◌<◌}
use mathlib.Core.Path.{◌≡◌, refl}
use mathlib.Core.Bool.{Bool, true, false, ◌&&◌, ◌||◌}
use native.Mathlib.Omega.{arith}
use native.Mathlib.Nat.{pow-suc, one-le-pow}
use mathlib.Core.Logic.{inl, inr}
use rv.Base.Tests.{◌==◌, ==_iff, Bool-cases}

pow2_rounds : ℕ → ℕ → Bool
pow2_rounds zero n = false
pow2_rounds (suc f) n = n == 1 || (n % 2 == 0 && pow2_rounds f (n / 2))

unfoldable pub is_power_of_two : ℕ → Bool
unfolding pow2_rounds
is_power_of_two n = pow2_rounds 64 n

pow2_rounds_sound : (f n : ℕ) → pow2_rounds f n ≡ true → (k : ℕ) × (k < f) × (n ≡ 2 ^ k)
unfolding pow2_rounds
pow2_rounds_sound zero n h = cc
pow2_rounds_sound (suc f) n h = elim (Bool-cases (n == 1)) [
  | inl one ↦ (0, omega arith, (==_iff n 1).0 one)
  | inr more ↦
      let tests : ((n % 2 == 0) ≡ true) × (pow2_rounds f (n / 2) ≡ true) = ground arith in
      let half : (k : ℕ) × (k < f) × (n / 2 ≡ 2 ^ k) = pow2_rounds_sound f (n / 2) tests.1 in
      (
        suc half.0,
        omega (arith, half.1),
        omega (arith, half.2, pow-suc 2 half.0, (==_iff (n % 2) 0).0 tests.0),
      )
]

pow2_rounds_complete : (f k : ℕ) → k < f → pow2_rounds f (2 ^ k) ≡ true
unfolding pow2_rounds
pow2_rounds_complete zero k h = elim h [ ]
pow2_rounds_complete (suc f) zero h = refl
pow2_rounds_complete (suc f) (suc k) h =
    ground (arith, pow-suc 2 k, one-le-pow k 2, pow2_rounds_complete f k)

-- A power of two is one of the 64 that a `usize` holds.
pub is_power_of_two_sound : (n : ℕ) → is_power_of_two n ≡ true → (k : ℕ) × (k < 64) × (n ≡ 2 ^ k)
unfolding is_power_of_two
is_power_of_two_sound n h = pow2_rounds_sound 64 n h

pub is_power_of_two-pow : (k : ℕ) → k < 64 → is_power_of_two (2 ^ k) ≡ true
unfolding is_power_of_two
is_power_of_two-pow k h = pow2_rounds_complete 64 k h
