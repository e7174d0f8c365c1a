-- ===== src/Base/Bits/Round.antt =====
-- `x & !(2 ^ k - 1)` on a 64-bit word rounds down to a multiple of `2 ^ k`.
use Prim.Native.Nat.{ℕ, zero, suc, ◌+◌, ◌-◌, ◌*◌, ◌/◌, ◌^◌, ◌≤◌, ◌<◌, bit_and}
use mathlib.Core.Path.{◌≡◌, refl, ap, ◌∙◌}
use native.Mathlib.Nat.{pow-suc, one-le-pow, div-lt_iff_lt-mul, mod-eq_of_lt}
use native.Mathlib.Omega.{arith}
use rv.Base.Bits.Masks.{bit_and_high}

pub two-pow-add : (m k n : ℕ) → n ≡ m + k → 2 ^ n ≡ 2 ^ m * 2 ^ k
two-pow-add zero k n e = ap (λ (t : ℕ). 2 ^ t) {x = n} {y = k} (omega arith) ∙ omega arith
two-pow-add (suc m) k n e =
    ap (λ (t : ℕ). 2 ^ t) {x = n} {y = suc (m + k)} (omega arith)
    ∙ omega (
      arith,
      pow-suc 2 (m + k),
      pow-suc 2 m,
      two-pow-add m k (m + k) refl,
      ap (λ (t : ℕ). t * 2 ^ k) (pow-suc 2 m),
    )

pred-mul : (p q : ℕ) → 1 ≤ p → (p - 1) * q + q ≡ p * q
pred-mul zero q h = absurd (omega arith)
pred-mul (suc p) q h = ap (λ (t : ℕ). t * q + q) {x = suc p - 1} {y = p} (omega arith) ∙ omega arith

pub bit_and_not_low :
    (k a : ℕ) → k ≤ 64 → a < 2 ^ 64 → bit_and a (2 ^ 64 - 1 - (2 ^ k - 1)) ≡ a / 2 ^ k * 2 ^ k
bit_and_not_low k a hk ha =
    ap (bit_and a) mask ∙ bit_and_high k (64 - k) a ∙ ap (λ (t : ℕ). t * 2 ^ k) (mod-eq_of_lt small)
  where
    split : 2 ^ 64 ≡ 2 ^ (64 - k) * 2 ^ k
    split = two-pow-add (64 - k) k 64 (omega arith)

    mask : 2 ^ 64 - 1 - (2 ^ k - 1) ≡ (2 ^ (64 - k) - 1) * 2 ^ k
    mask = omega (
      arith,
      split,
      one-le-pow k 2,
      pred-mul (2 ^ (64 - k)) (2 ^ k) (one-le-pow (64 - k) 2 (omega arith)),
    )

    small : a / 2 ^ k < 2 ^ (64 - k)
    small = (div-lt_iff_lt-mul (one-le-pow k 2 (omega arith))).1 (omega (arith, split))
