-- ===== src/Base/Bits/Single.antt =====
-- One bit of `|`.
use Prim.Native.Nat.{ℕ, ◌/◌, ◌%◌, ◌^◌, bit_or}
use mathlib.Core.Path.{◌≡◌, ap, ◌∙◌}
use native.Mathlib.Nat.{mul-add-div_right, div-eq_of_lt, one-le-pow}
use native.Mathlib.Omega.{arith}
use rv.Base.Bits.Fields.{bit_or-eq-fields, bit_or-lt}
use rv.Base.Bits.Masks.{fields}
use rv.Base.Bits.Step.{bit_or_step}

bit_or-shift : (k a b : ℕ) → bit_or a b / 2 ^ k ≡ bit_or (a / 2 ^ k) (b / 2 ^ k)
bit_or-shift k a b =
    let (ea, la) = fields k a in
    let (eb, lb) = fields k b in
    let low = bit_or-lt k (a % 2 ^ k) (b % 2 ^ k) la lb in
    ap (λ n. n / 2 ^ k)
      (bit_or-eq-fields k a b (a / 2 ^ k) (a % 2 ^ k) (b / 2 ^ k) (b % 2 ^ k) ea eb la lb)
    ∙ mul-add-div_right {m = 2 ^ k} (one-le-pow k 2 (omega arith)) (bit_or (a / 2 ^ k) (b / 2 ^ k))
        (bit_or (a % 2 ^ k) (b % 2 ^ k))
    ∙ omega (arith, div-eq_of_lt low)

pub bit_or_left : (k a b : ℕ) → a / 2 ^ k % 2 ≡ 1 → bit_or a b / 2 ^ k % 2 ≡ 1
bit_or_left k a b h =
    ap (λ n. n % 2) (bit_or-shift k a b) ∙ omega (arith, bit_or_step (a / 2 ^ k) (b / 2 ^ k))

pub bit_or_right : (k a b : ℕ) → b / 2 ^ k % 2 ≡ 1 → bit_or a b / 2 ^ k % 2 ≡ 1
bit_or_right k a b h =
    ap (λ n. n % 2) (bit_or-shift k a b) ∙ omega (arith, bit_or_step (a / 2 ^ k) (b / 2 ^ k))
