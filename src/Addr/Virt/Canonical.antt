-- ===== src/Addr/Virt/Canonical.antt =====
-- Canonical virtual addresses: bits 63 to 39 repeat bit 38.
use rv.Base.{ℕ, ◌+◌, ◌-◌, ◌*◌, ◌/◌, ◌%◌, ◌^◌, ◌≤◌, ◌<◌, ◌≡◌, ◌⊎◌, arith}
use rv.Base.{◌||◌, ltb, leb, if◌then◌else◌}
use rv.Base.{none, some, done}
use rv.Base.Bits.{bit_and_mask}
use rv.Addr.Virt.{new_truncated, try_new, new, add, page_offset, page_index, vpn0, vpn1, vpn2}

abbrev pub IsCanonical : ℕ → Type 0
IsCanonical v = (v < 2 ^ 38) ⊎ ((2 ^ 64 - 2 ^ 38 ≤ v) × (v < 2 ^ 64))

-- `new_truncated` gives the canonical address with the low 39 bits of its argument.
pub new_truncated-IsCanonical :
    (a : ℕ) → IsCanonical (new_truncated a) × (new_truncated a % 2 ^ 39 ≡ a % 2 ^ 39)
unfolding new_truncated
new_truncated-IsCanonical a = ground arith

-- There is one canonical address with given low 39 bits.
pub canonical_unique : (v w : ℕ) → IsCanonical v → IsCanonical w → v % 2 ^ 39 ≡ w % 2 ^ 39 → v ≡ w
canonical_unique v w hv hw e = ground arith

-- `try_new` accepts a word exactly when its bits 63 to 39 are null or it is canonical, and then gives
-- the canonical address with the low 39 bits of the word.
pub try_new-eq :
    (a : ℕ)
    → a < 2 ^ 64
    → try_new a
      ≡ (if ltb a (2 ^ 39) || leb (2 ^ 64 - 2 ^ 38) a then some (new_truncated a) else none)
unfolding try_new
try_new-eq a h = ground arith

pub new-eq : (v : ℕ) → IsCanonical v → new v ≡ done v
unfolding new
new-eq v c = ground arith

pub add-eq : (v n : ℕ) → IsCanonical (v + n) → add v n ≡ done (v + n)
unfolding add
add-eq v n c = ground arith

-- Stepping over the end of the lower half lands in the upper half.
pub add_crosses :
    (v n : ℕ) → 2 ^ 38 ≤ v + n → v + n < 2 ^ 39 → add v n ≡ done (v + n + (2 ^ 64 - 2 ^ 39))
unfolding add
add_crosses v n lo hi = ground arith

-- The low 39 bits of an address are its three table indices and its offset; each index fits a table.
pub vpn_fields :
    (v : ℕ)
    → (v % 2 ^ 39 ≡ vpn2 v * 2 ^ 30 + vpn1 v * 2 ^ 21 + vpn0 v * 2 ^ 12 + page_offset v)
      × (page_index v ≡ vpn2 v * 2 ^ 18 + vpn1 v * 2 ^ 9 + vpn0 v)
      × (vpn2 v < 512)
      × (vpn1 v < 512)
      × (vpn0 v < 512)
unfolding page_offset page_index vpn0 vpn1 vpn2
vpn_fields v = omega (
  arith,
  bit_and_mask 12 v,
  bit_and_mask 27 (v / 2 ^ 12),
  bit_and_mask 9 (v / 2 ^ 12),
  bit_and_mask 9 (v / 2 ^ 21),
  bit_and_mask 9 (v / 2 ^ 30),
)
