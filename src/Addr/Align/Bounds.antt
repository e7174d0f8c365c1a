-- ===== src/Addr/Align/Bounds.antt =====
-- Least and greatest multiples, and when the operations panic.
use native.Mathlib.Nat.{mod-eq-sub-div-mul, div-mul-le_self, mul-mod_left, lt-div-mul-add}
use native.Mathlib.Nat.{mul-le-mul_right, div-lt_iff_lt-mul, le-div_iff_mul-le}
use rv.Base.{ℕ, ◌+◌, ◌-◌, ◌*◌, ◌/◌, ◌%◌, ◌^◌, ◌≤◌, ◌<◌, ◌≡◌, arith, true, false, ◌↔◌}
use rv.Base.{done, panic, ◌==◌}
use rv.Base.Word.{is_power_of_two}
use rv.Addr.Align.{align_up, align_down, is_aligned}
use rv.Addr.Align.Round.{ceil, floor, align_up-eq, align_down-eq, is_aligned-eq, one-le-align}

-- `r` is a multiple of `n`, is not below `a`, and no smaller multiple is.
pub record IsCeil (n a r : ℕ) : Type 0 where
  pub multiple : r % n ≡ 0
  pub above : a ≤ r
  pub least : (m : ℕ) → m % n ≡ 0 → a ≤ m → r ≤ m

pub record IsFloor (n a r : ℕ) : Type 0 where
  pub multiple : r % n ≡ 0
  pub below : r ≤ a
  pub greatest : (m : ℕ) → m % n ≡ 0 → m ≤ a → m ≤ r

-- A multiple is its quotient times `n`.
pub quotient : (n m : ℕ) → m % n ≡ 0 → m / n * n ≡ m
quotient n m e = omega (arith, mod-eq-sub-div-mul m n, div-mul-le_self m n)

pub ceil-IsCeil : (n a : ℕ) → 1 ≤ n → IsCeil n a (ceil a n)
ceil-IsCeil n a h = record {
  multiple = mul-mod_left ((a + n - 1) / n) n;
  above = omega (arith, lt-div-mul-add {a = a + n - 1} {b = n} h);
  least = λ m e l. rw (← quotient n m e) (mul-le-mul_right n (below m e l));
}
  where
    below : (m : ℕ) → m % n ≡ 0 → a ≤ m → (a + n - 1) / n ≤ m / n
    below m e l = le-of-lt-suc (
        (div-lt_iff_lt-mul {k = n} {x = a + n - 1} {y = m / n + 1} h).1
          (omega (arith, quotient n m e)))
      where
        le-of-lt-suc : {x y : ℕ} → x < y + 1 → x ≤ y
        le-of-lt-suc p = omega arith

pub floor-IsFloor : (n a : ℕ) → 1 ≤ n → IsFloor n a (floor a n)
floor-IsFloor n a h = record {
  multiple = mul-mod_left (a / n) n;
  below = div-mul-le_self a n;
  greatest = λ m e l. rw (← quotient n m e) (
      mul-le-mul_right n
        ((le-div_iff_mul-le {k = n} {x = m / n} {y = a} h).1 (omega (arith, quotient n m e))));
}

module _ (n a : ℕ) (pow : is_power_of_two n ≡ true) where
  -- For a power of two `n` and no overflow in `a + n`, `align_up` returns the least multiple of `n`
  -- that is not below `a`.
  pub align_up-IsCeil : a + n < 2 ^ 64 → (r : ℕ) × (align_up a n ≡ done r) × IsCeil n a r
  align_up-IsCeil ha = (ceil a n, align_up-eq n a pow ha, ceil-IsCeil n a (one-le-align n a pow))

  -- For a power of two `n`, `align_down` returns the greatest multiple of `n` that is not above `a`.
  pub align_down-IsFloor : a < 2 ^ 64 → (r : ℕ) × (align_down a n ≡ done r) × IsFloor n a r
  align_down-IsFloor ha =
      (floor a n, align_down-eq n a pow ha, floor-IsFloor n a (one-le-align n a pow))

  -- An address is aligned exactly when aligning it, up or down, does not move it.
  pub is_aligned_iff :
      a + n < 2 ^ 64
      → ((is_aligned a n ≡ done true) ↔ (align_up a n ≡ done a))
        × ((is_aligned a n ≡ done true) ↔ (align_down a n ≡ done a))
  is_aligned_iff ha = ((to_up, of_up), (to_down, of_down))
    where
      one : 1 ≤ n
      one = one-le-align n a pow

      up : IsCeil n a (ceil a n)
      up = ceil-IsCeil n a one

      down : IsFloor n a (floor a n)
      down = floor-IsFloor n a one

      test : is_aligned a n ≡ done (a % n == 0)
      test = is_aligned-eq n a pow

      to_up : is_aligned a n ≡ done true → align_up a n ≡ done a
      to_up t = ground (arith, test, align_up-eq n a pow ha, up.above, up.least a)

      of_up : align_up a n ≡ done a → is_aligned a n ≡ done true
      of_up t = ground (arith, test, align_up-eq n a pow ha, up.multiple)

      to_down : is_aligned a n ≡ done true → align_down a n ≡ done a
      to_down t = ground (arith, test, align_down-eq n a pow, down.below, down.greatest a)

      of_down : align_down a n ≡ done a → is_aligned a n ≡ done true
      of_down t = ground (arith, test, align_down-eq n a pow, down.multiple)

-- The operations panic on an alignment that is no power of two.
pub align_up-panic : (a n : ℕ) → is_power_of_two n ≡ false → align_up a n ≡ panic
unfolding align_up
align_up-panic a n h = rw h
