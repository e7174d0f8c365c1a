-- ===== src/Base/Bits/Masks.antt =====
-- `&` with a mask of low bits, of high bits, and of one bit; `|` of disjoint fields.
use Prim.Native.Nat.{ℕ, zero, suc, ◌+◌, ◌-◌, ◌*◌, ◌/◌, ◌%◌, ◌^◌, ◌<◌, bit_and, bit_or}
use mathlib.Core.Path.{◌≡◌, ap}
use native.Mathlib.Nat.{pow-suc, one-le-pow}
use native.Mathlib.Omega.{arith}
use rv.Base.Bits.Step.{bit_and_step}
use rv.Base.Bits.Fields.{
  bit_and-eq-fields, bit_or-eq-fields, bit_and-zero, bit_or-zero, zero-bit_or,
}

ones_low : (k r : ℕ) → r < 2 ^ k → bit_and r (2 ^ k - 1) ≡ r
ones_low zero r h = rw bit_and-zero (omega arith)
ones_low (suc k) r h = omega (
  arith,
  bit_and_step r (2 ^ suc k - 1),
  pow-suc 2 k,
  one-le-pow k 2,
  half_mask,
  ones_low k (r / 2) (omega (arith, pow-suc 2 k)),
)
  where
    half_mask : bit_and (r / 2) ((2 ^ suc k - 1) / 2) ≡ bit_and (r / 2) (2 ^ k - 1)
    half_mask = ap (λ (t : ℕ). bit_and (r / 2) t) (omega (arith, pow-suc 2 k, one-le-pow k 2))

-- Every number is its two fields.
pub fields : (k a : ℕ) → (a ≡ a / 2 ^ k * 2 ^ k + a % 2 ^ k) × (a % 2 ^ k < 2 ^ k)
fields k a = ground (arith, one-le-pow k 2)

-- A mask of `k` low bits takes the remainder by `2 ^ k`.
pub bit_and_mask : (k a : ℕ) → bit_and a (2 ^ k - 1) ≡ a % 2 ^ k
bit_and_mask k a = omega (
  arith,
  bit_and-eq-fields k a (2 ^ k - 1) (a / 2 ^ k) (a % 2 ^ k) 0 (2 ^ k - 1) (fields k a).0
      (omega arith) (fields k a).1 (omega (arith, one-le-pow k 2)),
  ap (λ (t : ℕ). t * 2 ^ k) (bit_and-zero (a / 2 ^ k)),
  ones_low k (a % 2 ^ k) (fields k a).1,
)

-- A mask of the `m` bits from `k` up keeps that field where it stands.
pub bit_and_high : (k m a : ℕ) → bit_and a ((2 ^ m - 1) * 2 ^ k) ≡ a / 2 ^ k % 2 ^ m * 2 ^ k
bit_and_high k m a = omega (
  arith,
  bit_and-eq-fields k a ((2 ^ m - 1) * 2 ^ k) (a / 2 ^ k) (a % 2 ^ k) (2 ^ m - 1) 0 (fields k a).0
      (omega arith) (fields k a).1 (omega (arith, one-le-pow k 2)),
  ap (λ (t : ℕ). t * 2 ^ k) (bit_and_mask m (a / 2 ^ k)),
  bit_and-zero (a % 2 ^ k),
)

-- `(q << k) | r` is a sum when `r` fits `k` bits.
pub bit_or_fields : (k q r : ℕ) → r < 2 ^ k → bit_or (q * 2 ^ k) r ≡ q * 2 ^ k + r
bit_or_fields k q r h = omega (
  arith,
  bit_or-eq-fields k (q * 2 ^ k) r q 0 0 r (omega arith) (omega arith)
      (omega (arith, one-le-pow k 2)) h,
  ap (λ (t : ℕ). t * 2 ^ k) (bit_or-zero q),
  zero-bit_or r,
)
