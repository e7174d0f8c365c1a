-- ===== src/Mmu/Lookup/Pages.antt =====
-- The indices and the physical address of the addresses of one page, for each page size.
use rv.Base.{ℕ, zero, suc, ◌+◌, ◌*◌, ◌/◌, ◌%◌, ◌^◌, ◌≤◌, ◌<◌, ◌≡◌, ap, ◌∙◌, arith, bit_or}
use rv.Base.{done}
use rv.Base.Bits.{bit_and_mask, bit_or_fields, bit_or-eq-fields, bit_or-zero}
use rv.Addr.Virt
use rv.Mmu.Entry.{Entry, get_ppn, PageSize, kb, mb, gb, to_table_level, size}
use rv.Mmu.Lookup.{vpn, add_vpns, leaf_addr}

vpn0-eq : (v : ℕ) → Virt.vpn0 v ≡ v / 2 ^ 12 % 2 ^ 9
unfolding Virt.vpn0
vpn0-eq v = bit_and_mask 9 (v / 2 ^ 12)

vpn1-eq : (v : ℕ) → Virt.vpn1 v ≡ v / 2 ^ 21 % 2 ^ 9
unfolding Virt.vpn1
vpn1-eq v = bit_and_mask 9 (v / 2 ^ 21)

vpn2-eq : (v : ℕ) → Virt.vpn2 v ≡ v / 2 ^ 30 % 2 ^ 9
unfolding Virt.vpn2
vpn2-eq v = bit_and_mask 9 (v / 2 ^ 30)

-- From the level of the page up, its addresses have the same indices.
pub vpn-page :
    (sz : PageSize) (w v i : ℕ)
    → w / size sz ≡ v / size sz
    → to_table_level sz ≤ i
    → vpn w i ≡ vpn v i
unfolding vpn size to_table_level
vpn-page kb w v zero e le = omega (arith, vpn0-eq w, vpn0-eq v)
vpn-page mb w v zero e le = absurd (omega arith)
vpn-page gb w v zero e le = absurd (omega arith)
vpn-page kb w v (suc zero) e le = omega (arith, vpn1-eq w, vpn1-eq v)
vpn-page mb w v (suc zero) e le = omega (arith, vpn1-eq w, vpn1-eq v)
vpn-page gb w v (suc zero) e le = absurd (omega arith)
vpn-page kb w v (suc (suc i)) e le = omega (arith, vpn2-eq w, vpn2-eq v)
vpn-page mb w v (suc (suc i)) e le = omega (arith, vpn2-eq w, vpn2-eq v)
vpn-page gb w v (suc (suc i)) e le = omega (arith, vpn2-eq w, vpn2-eq v)

leaf_addr-sum :
    (v i n : ℕ) (e : Entry)
    → add_vpns v i (get_ppn e) ≡ n
    → n < 2 ^ 43
    → leaf_addr v i e ≡ done (n * 2 ^ 12 + v % 2 ^ 12)
unfolding leaf_addr Virt.page_offset
leaf_addr-sum v i n e sum h = rw sum (ground (arith, bit_and_mask 12 v))

low_index : (p v : ℕ) → p % 2 ^ 9 ≡ 0 → bit_or p (Virt.vpn0 v) ≡ p + v / 2 ^ 12 % 2 ^ 9
low_index p v h =
    ap (λ (y : ℕ). bit_or y (Virt.vpn0 v)) {x = p} {y = p / 2 ^ 9 * 2 ^ 9} (omega arith)
    ∙ bit_or_fields 9 (p / 2 ^ 9) (Virt.vpn0 v) (omega (arith, vpn0-eq v))
    ∙ omega (arith, vpn0-eq v)

middle_index :
    (p r v : ℕ)
    → p % 2 ^ 18 ≡ 0
    → r < 2 ^ 9
    → bit_or (p + r) (Virt.vpn1 v * 2 ^ 9) ≡ p + v / 2 ^ 21 % 2 ^ 9 * 2 ^ 9 + r
middle_index p r v h lt = omega (
  arith,
  vpn1-eq v,
  bit_or-eq-fields 9 (p + r) (Virt.vpn1 v * 2 ^ 9) (p / 2 ^ 9) r (Virt.vpn1 v) 0 (omega arith)
      (omega arith) lt (omega arith),
  ap (λ (y : ℕ). bit_or y (Virt.vpn1 v)) {x = p / 2 ^ 9} {y = p / 2 ^ 18 * 2 ^ 9} (omega arith),
  bit_or_fields 9 (p / 2 ^ 18) (Virt.vpn1 v) (omega (arith, vpn1-eq v)),
  bit_or-zero r,
)

add_vpns-one : (v p : ℕ) → p % 2 ^ 9 ≡ 0 → add_vpns v 1 p ≡ p + v / 2 ^ 12 % 2 ^ 9
unfolding add_vpns vpn
add_vpns-one v p h =
    ap (bit_or p) {x = Virt.vpn0 v * 1} {y = Virt.vpn0 v} (omega arith) ∙ low_index p v h

add_vpns-two :
    (v p : ℕ)
    → p % 2 ^ 18 ≡ 0
    → add_vpns v 2 p ≡ p + v / 2 ^ 21 % 2 ^ 9 * 2 ^ 9 + v / 2 ^ 12 % 2 ^ 9
unfolding add_vpns vpn
add_vpns-two v p h =
    ap (λ (y : ℕ). bit_or y (Virt.vpn1 v * 2 ^ 9))
      (ap (bit_or p) {x = Virt.vpn0 v * 1} {y = Virt.vpn0 v} (omega arith)
        ∙ low_index p v (omega arith))
    ∙ middle_index p (v / 2 ^ 12 % 2 ^ 9) v h (omega arith)

-- A leaf for an aligned page gives each address of the page its place in the frame.
pub leaf_addr-page :
    (sz : PageSize) (v paddr : ℕ) (e : Entry)
    → paddr % size sz ≡ 0
    → paddr < 2 ^ 38
    → get_ppn e ≡ paddr / 2 ^ 12
    → leaf_addr v (to_table_level sz) e ≡ done (paddr + v % size sz)
unfolding size to_table_level add_vpns
leaf_addr-page kb v paddr e h lt named =
    leaf_addr-sum v 0 (paddr / 2 ^ 12) e named (omega arith) ∙ ap done (omega arith)
leaf_addr-page mb v paddr e h lt named =
    leaf_addr-sum v 1 (paddr / 2 ^ 12 + v / 2 ^ 12 % 2 ^ 9) e
      (ap (add_vpns v 1) named ∙ add_vpns-one v (paddr / 2 ^ 12) (omega arith)) (omega arith)
    ∙ ap done (omega arith)
leaf_addr-page gb v paddr e h lt named =
    leaf_addr-sum v 2 (paddr / 2 ^ 12 + v / 2 ^ 21 % 2 ^ 9 * 2 ^ 9 + v / 2 ^ 12 % 2 ^ 9) e
      (ap (add_vpns v 2) named ∙ add_vpns-two v (paddr / 2 ^ 12) (omega arith)) (omega arith)
    ∙ ap done (omega arith)
