-- ===== src/Mmu/Ranges/Given.antt =====
-- The pages that `update_mapping` reaches, by their addresses.
use rv.Base.{
  ℕ, zero, suc, ◌+◌, ◌-◌, ◌*◌, ◌/◌, ◌%◌, ◌^◌, ◌≤◌, ◌<◌, ◌≡◌, ◌⊎◌, inl, inr, refl, sym, ◌∙◌, arith,
  true,
}
use rv.Base.{Run-cases, done, ok}
use rv.Base.Word.{usize_mod, is_power_of_two}
use rv.Addr.Align.Round.{align_down-eq, align_up-eq}
use rv.Addr.Phys
use rv.Addr.Virt
use rv.Addr.Virt.Canonical.{IsCanonical, new-eq, add-eq}
use rv.Allocator.Bump.Frames.{phys_to_virt}
use rv.Mmu.Entry.{is_leaf, get_ppn, kb, size, to_table_level}
use rv.Mmu.Lookup.{vpn, get_pte_ptr, pte_ptr}
use rv.Mmu.Lookup.Pages.{vpn-page}
use rv.Mmu.Space.{Memory, Space}
use rv.Mmu.Ranges.{update_mapping}
use rv.Mmu.Ranges.Bounds.{page_range}
use rv.Mmu.Ranges.Updates.{IsLeafy}
use rv.Mmu.Ranges.Pages.{Given, update_mapping-GivenPage}

vpn-same : (w v i : ℕ) → w / 2 ^ 12 ≡ v / 2 ^ 12 → vpn w i ≡ vpn v i
unfolding size to_table_level
vpn-same w v i e = vpn-page kb w v i e (omega arith)

module _ (mem_offset : ℕ) (mem : Memory) (w v : ℕ) (e : w / 2 ^ 12 ≡ v / 2 ^ 12) where
  -- The addresses of one page have one entry.
  pte_ptr-same : (i t : ℕ) → pte_ptr mem_offset mem w i t ≡ pte_ptr mem_offset mem v i t
  unfolding pte_ptr
  pte_ptr-same zero t = let s = vpn-same w v 0 e in ground (arith, s)
  pte_ptr-same (suc i) t =
      let s = vpn-same w v (suc i) e in
      elim (Run-cases (Phys.new (get_ppn (mem t (vpn v (suc i))) * 2 ^ 12 % usize_mod))) [
        | inr got ↦ ground (arith, s, got)
        | inl (pa, got) ↦ elim (Run-cases (phys_to_virt mem_offset pa)) [
          | inr at ↦ ground (arith, s, got, at)
          | inl (t', at) ↦ ground (arith, s, got, at, pte_ptr-same i t')
        ]
      ]

  Given-same : (rpt fl : ℕ) → Given mem_offset rpt fl mem w → Given mem_offset rpt fl mem v
  unfolding get_pte_ptr
  Given-same rpt fl (t, i, at, h) = (t, i, sym (pte_ptr-same 2 rpt) ∙ at, h)

-- The range lies in one half of the canonical addresses, a page below its end.
abbrev pub InHalf : (vaddr len : ℕ) → Type 0
InHalf vaddr len =
    (vaddr + len + 2 ^ 12 ≤ 2 ^ 38) ⊎ ((2 ^ 64 - 2 ^ 38 ≤ vaddr) × (vaddr + len + 2 ^ 12 < 2 ^ 64))

InHalf-IsCanonical :
    (vaddr len x : ℕ)
    → InHalf vaddr len
    → vaddr / 2 ^ 12 * 2 ^ 12 ≤ x
    → x < vaddr + len + 2 ^ 12
    → IsCanonical x
InHalf-IsCanonical vaddr len x (inl low) h h' = inl (omega arith)
InHalf-IsCanonical vaddr len x (inr high) h h' = inr (omega (arith, high.0), omega (arith, high.1))

InHalf-word : (vaddr len : ℕ) → InHalf vaddr len → vaddr + len + 2 ^ 12 < 2 ^ 64
InHalf-word vaddr len (inl low) = omega arith
InHalf-word vaddr len (inr high) = high.1

InHalf-distance :
    (vaddr len x y : ℕ)
    → InHalf vaddr len
    → vaddr / 2 ^ 12 * 2 ^ 12 ≤ x
    → y < vaddr + len + 2 ^ 12
    → y - x < 2 ^ 38
InHalf-distance vaddr len x y (inl low) h h' = omega arith
InHalf-distance vaddr len x y (inr high) h h' = omega (arith, high.0, high.1)

page_range-eq :
    (vaddr len : ℕ)
    → InHalf vaddr len
    → page_range vaddr len
      ≡ done (
        vaddr / 2 ^ 12 * 2 ^ 12,
        ((vaddr + len + 2 ^ 12 - 1) / 2 ^ 12 * 2 ^ 12 - vaddr / 2 ^ 12 * 2 ^ 12) / 2 ^ 12,
      )
unfolding page_range Virt.align_down Virt.align_up Virt.sub is_power_of_two
page_range-eq vaddr len half =
    let word = InHalf-word vaddr len half in
    let at = InHalf-IsCanonical vaddr len in
    let start = vaddr / 2 ^ 12 * 2 ^ 12 in
    let end = (vaddr + len + 2 ^ 12 - 1) / 2 ^ 12 * 2 ^ 12 in
    let e1 = align_down-eq (2 ^ 12) vaddr refl (omega arith) in
    let e2 = align_up-eq (2 ^ 12) (vaddr + len) refl (omega arith) in
    let n1 = new-eq start (at start half (omega arith) (omega arith)) in
    let n2 = new-eq end (at end half (omega arith) (omega arith)) in
    let n3 =
      new-eq (end - start)
        (inl (InHalf-distance vaddr len start end half (omega arith) (omega arith))) in
    let a = add-eq vaddr len (at (vaddr + len) half (omega arith) (omega arith)) in
    ground (arith, e1, e2, n1, n2, n3, a)

module _ {S : Type 0} (mem_offset rpt fl vaddr len : ℕ) (small : fl < 2 ^ 10)
    (leaf_flags : is_leaf fl ≡ true) (s s' : Space S) (l : IsLeafy mem_offset rpt s.mem) where
  -- In tables whose walks end only at leaves, with flags below bit 10 that make a leaf, for a range of bytes
  -- in one half of the canonical addresses, a page below its end: if `update_mapping` succeeds, then for each
  -- address from the page of the range's first byte up to the page of its last byte, the entry for it has the
  -- permissions that the flags say.
  pub update_mapping-Given :
      InHalf vaddr len
      → update_mapping mem_offset rpt vaddr len fl s ≡ done (ok tt, s')
      → (v : ℕ) → vaddr / 2 ^ 12 ≤ v / 2 ^ 12
      → v / 2 ^ 12 * 2 ^ 12 < vaddr + len
      → Given mem_offset rpt fl s'.mem v
  update_mapping-Given half e v lo hi =
      let start = vaddr / 2 ^ 12 * 2 ^ 12 in
      let count = ((vaddr + len + 2 ^ 12 - 1) / 2 ^ 12 * 2 ^ 12 - start) / 2 ^ 12 in
      let j = v / 2 ^ 12 - vaddr / 2 ^ 12 in
      let page = v / 2 ^ 12 * 2 ^ 12 in
      let (addr, at, given) =
        update_mapping-GivenPage mem_offset rpt fl vaddr len small leaf_flags s s' l start count
          (page_range-eq vaddr len half) e j (omega arith) in
      let word = InHalf-word vaddr len half in
      let offset : j * 2 ^ 12 % usize_mod ≡ j * 2 ^ 12 = omega arith in
      let sum : start + j * 2 ^ 12 ≡ page = omega arith in
      let place : Virt.add start (j * 2 ^ 12) ≡ done (start + j * 2 ^ 12) =
        add-eq start (j * 2 ^ 12)
          (InHalf-IsCanonical vaddr len (start + j * 2 ^ 12) half (omega arith) (omega arith)) in
      let here : addr ≡ page = ground (arith, at, offset, sum, place) in
      Given-same mem_offset s'.mem addr v (omega (arith, here)) rpt fl given
