-- ===== src/Addr/Phys/Fields.antt =====
-- The fields of a physical address, and the page numbers that stand for addresses.
use rv.Base.{ℕ, ◌+◌, ◌*◌, ◌/◌, ◌%◌, ◌^◌, ◌≤◌, ◌<◌, ◌≡◌, ◌↔◌, ap, arith, done, panic}
use rv.Base.Bits.{bit_and_mask}
use rv.Addr.Phys.{new, from_ppn, page_offset, page_index, ppn0, ppn1, ppn2}

pub page_index-eq : (a : ℕ) → a < 2 ^ 56 → page_index a ≡ a / 2 ^ 12
unfolding page_index
page_index-eq a h = omega (arith, bit_and_mask 44 (a / 2 ^ 12))

pub page_offset-eq : (a : ℕ) → page_offset a ≡ a % 2 ^ 12
unfolding page_offset
page_offset-eq a = bit_and_mask 12 a

pub from_ppn-eq : (p : ℕ) → p < 2 ^ 44 → from_ppn p ≡ done (p * 2 ^ 12)
unfolding from_ppn
from_ppn-eq p h = ground arith

-- A valid address is its page number and its offset, and the page number is its three indices.
pub page_index-page_offset :
    (a : ℕ)
    → a < 2 ^ 56
    → (a ≡ page_index a * 2 ^ 12 + page_offset a)
      × (page_index a ≡ ppn2 a * 2 ^ 18 + ppn1 a * 2 ^ 9 + ppn0 a)
unfolding page_index page_offset ppn0 ppn1 ppn2
page_index-page_offset a h = omega (
  arith,
  bit_and_mask 44 (a / 2 ^ 12),
  bit_and_mask 12 a,
  bit_and_mask 9 (a / 2 ^ 12),
  bit_and_mask 9 (a / 2 ^ 21),
  bit_and_mask 26 (a / 2 ^ 30),
)

-- `page_index` gives back the 44-bit page number from which `from_ppn` makes an address.
pub page_index-from_ppn :
    (p : ℕ)
    → p < 2 ^ 44
    → (a : ℕ) × (from_ppn p ≡ done a) × (page_index a ≡ p) × (page_offset a ≡ 0)
unfolding page_index page_offset
page_index-from_ppn p h = (
  p * 2 ^ 12,
  from_ppn-eq p h,
  omega (arith, bit_and_mask 44 (p * 2 ^ 12 / 2 ^ 12)),
  omega (arith, bit_and_mask 12 (p * 2 ^ 12)),
)

-- On page numbers below 2 ^ 52, `from_ppn` panics exactly from 2 ^ 44 on.
pub from_ppn-panic : (p : ℕ) → p < 2 ^ 52 → (from_ppn p ≡ panic) ↔ (2 ^ 44 ≤ p)
unfolding from_ppn
from_ppn-panic p h = ground arith

-- From 2 ^ 52 on the shift drops the upper bits of the page number, so that an invalid number is
-- taken for a valid one.
pub from_ppn_wraps : (c p : ℕ) → from_ppn (c * 2 ^ 52 + p) ≡ from_ppn p
unfolding from_ppn
from_ppn_wraps c p =
    ap new {x = (c * 2 ^ 52 + p) * 2 ^ 12 % 2 ^ 64} {y = p * 2 ^ 12 % 2 ^ 64} (omega arith)
