-- ===== src/Addr/Align/Round.antt =====
-- What the alignment operations compute, at every power of two.
use native.Mathlib.Nat.{one-le-pow}
use rv.Base.{ℕ, ◌+◌, ◌-◌, ◌*◌, ◌/◌, ◌%◌, ◌^◌, ◌≤◌, ◌<◌, ◌≡◌, arith, true}
use rv.Base.{done, ◌==◌}
use rv.Base.Word.{is_power_of_two, is_power_of_two_sound, is_power_of_two-pow}
use rv.Base.Bits.{bit_and_not_low, bit_and_mask}
use rv.Addr.Align.{align_up, align_down, is_aligned}

module _ (k a : ℕ) (hk : k < 64) (ha : a < 2 ^ 64) where
  align_down-pow : align_down a (2 ^ k) ≡ done (a / 2 ^ k * 2 ^ k)
  unfolding align_down
  align_down-pow =
      ground (arith, is_power_of_two-pow k hk, one-le-pow k 2, bit_and_not_low k a (omega arith) ha)

is_aligned-pow : (k a : ℕ) → k < 64 → is_aligned a (2 ^ k) ≡ done (a % 2 ^ k == 0)
unfolding is_aligned
is_aligned-pow k a hk = ground (arith, is_power_of_two-pow k hk, one-le-pow k 2, bit_and_mask k a)

align_up-pow :
    (k a : ℕ)
    → k < 64
    → a + 2 ^ k < 2 ^ 64
    → align_up a (2 ^ k) ≡ done ((a + 2 ^ k - 1) / 2 ^ k * 2 ^ k)
unfolding align_up
align_up-pow k a hk ha = ground (
  arith,
  is_power_of_two-pow k hk,
  one-le-pow k 2,
  bit_and_not_low k (a + 2 ^ k - 1) (omega arith) (omega arith),
)

-- The least multiple of `n` that is not below `a`, and the greatest that is not above.
abbrev pub ceil : ℕ → ℕ → ℕ
ceil a n = (a + n - 1) / n * n

abbrev pub floor : ℕ → ℕ → ℕ
floor a n = a / n * n

module _ (n a : ℕ) (pow : is_power_of_two n ≡ true) where
  pub align_down-eq : a < 2 ^ 64 → align_down a n ≡ done (floor a n)
  align_down-eq ha = let (k, hk, e) = is_power_of_two_sound n pow in rw e (align_down-pow k a hk ha)

  pub is_aligned-eq : is_aligned a n ≡ done (a % n == 0)
  is_aligned-eq = let (k, hk, e) = is_power_of_two_sound n pow in rw e (is_aligned-pow k a hk)

  pub align_up-eq : a + n < 2 ^ 64 → align_up a n ≡ done (ceil a n)
  align_up-eq ha =
      let (k, hk, e) = is_power_of_two_sound n pow in rw e (align_up-pow k a hk (rw e at ha))

  pub one-le-align : 1 ≤ n
  one-le-align = let (k, hk, e) = is_power_of_two_sound n pow in omega (arith, e, one-le-pow k 2)
