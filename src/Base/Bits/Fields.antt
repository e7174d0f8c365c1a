-- ===== src/Base/Bits/Fields.antt =====
-- `&` and `|` on words that are split into a high and a low field.
use Prim.Native.Nat.{ℕ, zero, suc, ◌+◌, ◌*◌, ◌/◌, ◌^◌, ◌≤◌, ◌<◌, bit_and, bit_or}
use mathlib.Core.Path.{◌≡◌, refl, ap, ap₂, ◌∙◌}
use native.Mathlib.Nat.{pow-suc}
use native.Mathlib.Omega.{arith}
use rv.Base.Bits.Step.{bit_or_step, bit_and_step}

shift_once : (width field : ℕ) → 2 * (field * 2 ^ width) ≡ field * 2 ^ suc width
shift_once width field =
    let step : field * 2 ^ suc width ≡ field * (2 * 2 ^ width) =
      ap (λ (t : ℕ). field * t) (omega (arith, pow-suc 2 width)) in
    omega arith

-- Both operations work on the fields one by one.
pub bit_and_split :
    (k q r q' r' : ℕ)
    → r < 2 ^ k
    → r' < 2 ^ k
    → bit_and (q * 2 ^ k + r) (q' * 2 ^ k + r') ≡ bit_and q q' * 2 ^ k + bit_and r r'
bit_and_split zero q r q' r' h h' =
    let e : r ≡ 0 = omega arith in let e' : r' ≡ 0 = omega arith in rw (e, e') (low q q')
  where
    low : (a b : ℕ) → bit_and (a * 1 + 0) (b * 1 + 0) ≡ bit_and a b * 1 + bit_and 0 0
    low a b = ground arith
bit_and_split (suc k) q r q' r' h h' = ground (
  arith,
  bit_and_step (q * 2 ^ suc k + r) (q' * 2 ^ suc k + r'),
  bit_and_step r r',
  shift_once k q,
  shift_once k q',
  shift_once k (bit_and q q'),
  pow-suc 2 k,
  bit_and_split k q (r / 2) q' (r' / 2) (omega (arith, pow-suc 2 k)) (omega (arith, pow-suc 2 k)),
)

pub bit_or_split :
    (k q r q' r' : ℕ)
    → r < 2 ^ k
    → r' < 2 ^ k
    → bit_or (q * 2 ^ k + r) (q' * 2 ^ k + r') ≡ bit_or q q' * 2 ^ k + bit_or r r'
bit_or_split zero q r q' r' h h' =
    let e : r ≡ 0 = omega arith in let e' : r' ≡ 0 = omega arith in rw (e, e') (low q q')
  where
    low : (a b : ℕ) → bit_or (a * 1 + 0) (b * 1 + 0) ≡ bit_or a b * 1 + bit_or 0 0
    low a b = ground arith
bit_or_split (suc k) q r q' r' h h' = ground (
  arith,
  bit_or_step (q * 2 ^ suc k + r) (q' * 2 ^ suc k + r'),
  bit_or_step r r',
  shift_once k q,
  shift_once k q',
  shift_once k (bit_or q q'),
  pow-suc 2 k,
  bit_or_split k q (r / 2) q' (r' / 2) (omega (arith, pow-suc 2 k)) (omega (arith, pow-suc 2 k)),
)

-- From 0, and from half of a number to the number.
module _ {ℓ} (P : ℕ → Type ℓ) (base : P 0) (double : (n : ℕ) → P (suc n / 2) → P (suc n)) where
  halving : (bound n : ℕ) → n ≤ bound → P n
  halving bound zero le = base
  halving zero (suc n) le = absurd (omega arith)
  halving (suc bound) (suc n) le = double n (halving bound (suc n / 2) (omega arith))

  by_halves : (n : ℕ) → P n
  by_halves n = halving n n (omega arith)

pub bit_and-zero : (a : ℕ) → bit_and a 0 ≡ 0
bit_and-zero = by_halves _ refl (λ n half. omega (arith, bit_and_step (suc n) 0, half))

pub bit_or-zero : (a : ℕ) → bit_or a 0 ≡ a
bit_or-zero = by_halves _ refl (λ n half. omega (arith, bit_or_step (suc n) 0, half))

pub zero-bit_and : (a : ℕ) → bit_and 0 a ≡ 0
zero-bit_and = by_halves _ refl (λ n half. omega (arith, bit_and_step 0 (suc n), half))

pub zero-bit_or : (a : ℕ) → bit_or 0 a ≡ a
zero-bit_or = by_halves _ refl (λ n half. omega (arith, bit_or_step 0 (suc n), half))

-- The same for words that are given by their fields.
pub bit_and-eq-fields :
    (k a b q r q' r' : ℕ)
    → a ≡ q * 2 ^ k + r
    → b ≡ q' * 2 ^ k + r'
    → r < 2 ^ k
    → r' < 2 ^ k
    → bit_and a b ≡ bit_and q q' * 2 ^ k + bit_and r r'
bit_and-eq-fields k a b q r q' r' e e' h h' = ap₂ bit_and e e' ∙ bit_and_split k q r q' r' h h'

pub bit_or-eq-fields :
    (k a b q r q' r' : ℕ)
    → a ≡ q * 2 ^ k + r
    → b ≡ q' * 2 ^ k + r'
    → r < 2 ^ k
    → r' < 2 ^ k
    → bit_or a b ≡ bit_or q q' * 2 ^ k + bit_or r r'
bit_or-eq-fields k a b q r q' r' e e' h h' = ap₂ bit_or e e' ∙ bit_or_split k q r q' r' h h'

-- `|` of two numbers of `k` bits has `k` bits.
pub bit_or-lt : (k a b : ℕ) → a < 2 ^ k → b < 2 ^ k → bit_or a b < 2 ^ k
bit_or-lt zero a b h h' =
    let e : a ≡ 0 = omega arith in let e' : b ≡ 0 = omega arith in rw (e, e') (omega arith)
bit_or-lt (suc k) a b h h' = omega (
  arith,
  bit_or_step a b,
  pow-suc 2 k,
  bit_or-lt k (a / 2) (b / 2) (omega (arith, pow-suc 2 k)) (omega (arith, pow-suc 2 k)),
)
