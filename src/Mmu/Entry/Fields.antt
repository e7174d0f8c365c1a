-- ===== src/Mmu/Entry/Fields.antt =====
-- The fields of an entry: what each operation changes, and what it leaves.
use rv.Base.{ℕ, ◌+◌, ◌-◌, ◌*◌, ◌/◌, ◌%◌, ◌^◌, ◌≤◌, ◌<◌, ◌≡◌, ◌≢◌, sym, ap, ◌∙◌, arith, not}
use rv.Base.{bit_and, ◌==◌}
use rv.Base.Bits.{bit_and_mask, bit_and_high, bit_or-zero}
use rv.Base.Bits.{bit_and-eq-fields, bit_or-eq-fields, zero-bit_or}
use rv.Mmu.Entry.{is_valid, is_leaf, flags, get_ppn, set_ppn}

pub is_valid-eq : (e : ℕ) → is_valid e ≡ (e % 2 == 1)
unfolding is_valid
is_valid-eq e = ap (λ (t : ℕ). t == 1) (bit_and_mask 1 e)

pub is_leaf-eq : (e : ℕ) → is_leaf e ≡ not (e / 2 % 8 == 0)
unfolding is_leaf
is_leaf-eq e = ground (arith, bit_and_high 1 3 e)

pub get_ppn-eq : (e : ℕ) → get_ppn e ≡ e / 2 ^ 10 % 2 ^ 26
unfolding get_ppn
get_ppn-eq e = bit_and_mask 26 (e / 2 ^ 10)

-- `set_ppn` writes the low 26 bits of the page number and leaves all other bits.
pub set_ppn-eq :
    (e p : ℕ) → e < 2 ^ 64 → set_ppn e p ≡ e / 2 ^ 36 * 2 ^ 36 + p % 2 ^ 26 * 2 ^ 10 + e % 2 ^ 10
unfolding set_ppn
set_ppn-eq e p h = omega (
  arith,
  bit_or-eq-fields 36 kept put (e / 2 ^ 36) (e % 2 ^ 10) 0 put kept-eq (omega arith) (omega arith)
      (omega (arith, put-eq)),
  bit_or-zero (e / 2 ^ 36),
  bit_or-eq-fields 10 (e % 2 ^ 10) put 0 (e % 2 ^ 10) (p % 2 ^ 26) 0 (omega arith)
      (omega (arith, put-eq)) (omega arith) (omega arith),
  zero-bit_or (p % 2 ^ 26),
  bit_or-zero (e % 2 ^ 10),
)
  where
    put : ℕ
    put = bit_and p 0x3ff_ffff * 2 ^ 10

    put-eq : put ≡ p % 2 ^ 26 * 2 ^ 10
    put-eq = ap (λ (t : ℕ). t * 2 ^ 10) (bit_and_mask 26 p)

    kept : ℕ
    kept = bit_and e (2 ^ 64 - 1 - 0x3ff_ffff * 2 ^ 10)

    kept-eq : kept ≡ e / 2 ^ 36 * 2 ^ 36 + e % 2 ^ 10
    kept-eq = omega (
      arith,
      bit_and-eq-fields 36 e (2 ^ 64 - 1 - 0x3ff_ffff * 2 ^ 10) (e / 2 ^ 36) (e % 2 ^ 36)
          (2 ^ 28 - 1) (2 ^ 10 - 1) (omega arith) (omega arith) (omega arith) (omega arith),
      bit_and_mask 28 (e / 2 ^ 36),
      bit_and_mask 10 (e % 2 ^ 36),
    )

pub set_ppn-lt : (e p : ℕ) → e < 2 ^ 64 → set_ppn e p < 2 ^ 64
set_ppn-lt e p h = omega (arith, set_ppn-eq e p h)

pub set_ppn-low : (e p : ℕ) → e < 2 ^ 64 → set_ppn e p % 2 ^ 10 ≡ e % 2 ^ 10
set_ppn-low e p h = omega (arith, set_ppn-eq e p h)

pub flags-eq : (e : ℕ) → e < 2 ^ 64 → flags e ≡ e / 2 ^ 60 * 2 ^ 60 + e % 2 ^ 10
unfolding flags
flags-eq e h = omega (
  arith,
  bit_and-eq-fields 60 e 0xf000_0000_0000_03ff (e / 2 ^ 60) (e % 2 ^ 60) (2 ^ 4 - 1) (2 ^ 10 - 1)
      (omega arith) (omega arith) (omega arith) (omega arith),
  bit_and_mask 4 (e / 2 ^ 60),
  bit_and_mask 10 (e % 2 ^ 60),
)

-- `set_ppn` then `get_ppn` gives the page number modulo 2 ^ 26, and the flags, and with them the tests
-- of an entry, are as before.
pub get_ppn-set_ppn :
    (e p : ℕ)
    → e < 2 ^ 64
    → (get_ppn (set_ppn e p) ≡ p % 2 ^ 26)
      × (flags (set_ppn e p) ≡ flags e)
      × (is_valid (set_ppn e p) ≡ is_valid e)
      × (is_leaf (set_ppn e p) ≡ is_leaf e)
get_ppn-set_ppn e p h = (
  omega (arith, get_ppn-eq (set_ppn e p), set_ppn-eq e p h),
  omega (arith, flags-eq e h, flags-eq (set_ppn e p) (set_ppn-lt e p h), set_ppn-eq e p h),
  is_valid-eq (set_ppn e p)
      ∙ ap (λ (t : ℕ). t == 1) {x = set_ppn e p % 2} {y = e % 2} (omega (arith, set_ppn-low e p h))
      ∙ sym (is_valid-eq e),
  is_leaf-eq (set_ppn e p)
      ∙ ap (λ (t : ℕ). not (t == 0)) {x = set_ppn e p / 2 % 8} {y = e / 2 % 8}
          (omega (arith, set_ppn-low e p h))
      ∙ sym (is_leaf-eq e),
)

-- Of a page number from 2 ^ 26 on, which a 56-bit physical address can have, `set_ppn` drops the upper
-- bits: it makes the entry that it makes for the page number modulo 2 ^ 26, which names that other page
-- and keeps the flags of the old entry.
pub set_ppn-truncates :
    (e p : ℕ)
    → e < 2 ^ 64
    → 2 ^ 26 ≤ p
    → p < 2 ^ 44
    → (set_ppn e p ≡ set_ppn e (p % 2 ^ 26))
      × (get_ppn (set_ppn e p) ≡ p % 2 ^ 26)
      × (get_ppn (set_ppn e p) ≢ p)
      × (flags (set_ppn e p) ≡ flags e)
set_ppn-truncates e p h lo hi = (
  omega (arith, set_ppn-eq e p h, set_ppn-eq e (p % 2 ^ 26) h),
  (get_ppn-set_ppn e p h).0,
  λ same. omega (arith, (get_ppn-set_ppn e p h).0, same),
  (get_ppn-set_ppn e p h).1,
)
