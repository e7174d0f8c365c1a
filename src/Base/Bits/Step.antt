-- ===== src/Base/Bits/Step.antt =====
-- `&` and `|` by their lowest digit. The native operations stand for a recursion on the binary digits
-- whose fuel is the first operand; more fuel than that changes nothing.
use native.Mathlib.Decide.{dec_le}
use Prim.Native.Nat.{ℕ, zero, suc, ◌+◌, ◌*◌, ◌/◌, ◌%◌, ◌≤◌, min, max, bit_and, bit_or}
use Prim.Native.Nat.{digits, bitwise, bit_and-bitwise, bit_or-bitwise}
use mathlib.Core.Path.{◌≡◌, refl, ◌∙◌, ap}
use native.Mathlib.Omega.{arith}

-- `stop` is the value at a first operand 0, and `digit` combines two digits.
module _ (stop : ℕ → ℕ) (digit : ℕ → ℕ → ℕ) where
  one_more :
      (fuel x y : ℕ) → x ≤ fuel → digits stop digit (suc fuel) x y ≡ digits stop digit fuel x y
  one_more zero (suc x) y enough = absurd (omega arith)
  one_more (suc fuel) (suc x) y enough =
      ap (λ rest. rest * 2 + digit (suc x % 2) (y % 2))
        (one_more fuel (suc x / 2) (y / 2) (omega arith))
  one_more zero zero y enough = refl
  one_more (suc fuel) zero y enough = refl

  enough_fuel : (fuel x y : ℕ) → x ≤ fuel → digits stop digit fuel x y ≡ bitwise stop digit x y
  enough_fuel zero x y enough = let none_left : x ≡ 0 = omega arith in rw none_left
  enough_fuel (suc fuel) x y enough = elim (dec_le x fuel) [
    | yes less ↦ one_more fuel x y less ∙ enough_fuel fuel x y less
    | no all ↦ let same : x ≡ suc fuel = omega arith in rw same
  ]

  lowest : ℕ → ℕ → ℕ
  lowest x y = bitwise stop digit (x / 2) (y / 2) * 2 + digit (x % 2) (y % 2)

  bitwise-lowest : (x y : ℕ) → bitwise stop digit (suc x) y ≡ lowest (suc x) y
  unfolding lowest
  bitwise-lowest x y =
      ap (λ rest. rest * 2 + digit (suc x % 2) (y % 2))
        (enough_fuel x (suc x / 2) (y / 2) (omega arith))

pub bit_and_step : (x y : ℕ) → bit_and x y ≡ bit_and (x / 2) (y / 2) * 2 + min (x % 2) (y % 2)
unfolding lowest
bit_and_step (suc x) y = simp bit_and-bitwise (bitwise-lowest (λ _. 0) min x y)
bit_and_step zero y = simp bit_and-bitwise (omega arith)

pub bit_or_step : (x y : ℕ) → bit_or x y ≡ bit_or (x / 2) (y / 2) * 2 + max (x % 2) (y % 2)
unfolding lowest
bit_or_step (suc x) y = simp bit_or-bitwise (bitwise-lowest (λ d. d) max x y)
bit_or_step zero y = simp bit_or-bitwise (omega arith)
