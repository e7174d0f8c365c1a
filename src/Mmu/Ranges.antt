-- ===== src/Mmu/Ranges.antt =====
-- The methods of `PageTableWalker` that go through a range of pages: `map_range`, `identity_map_range` and
-- `update_mapping` of kernel/src/arch/riscv/mmu.rs.
pub mod Bounds
pub mod Same
pub mod Updates
pub mod Pages
pub mod Given
mod Tests
use rv.Base.{
  ℕ, zero, suc, ◌+◌, ◌-◌, ◌*◌, ◌/◌, ◌%◌, ◌^◌, true, false, none, some, done, panic, ok, err,
}
use rv.Base.Word
use rv.Base.Word.{usize_mod}
use rv.Addr.Phys
use rv.Addr.Phys.{PhysAddr}
use rv.Addr.Virt
use rv.Addr.Virt.{VirtAddr}
use rv.Mmu.Entry.{PageSize, kb, size, is_valid, write_flags, page_shift, page_size}
use rv.Mmu.Lookup.{get_pte_ptr}
use rv.Mmu.Space.{FrameAllocator, M, ◌>>=◌, ◌>>◌, pure, lift, put, corrupted_page_table}
use rv.Mmu.Walker.{map}
use rv.Mmu.Ranges.Bounds.{page_range}

-- `sz.div_ceil(n)`
abbrev pub div_ceil : ℕ → ℕ → ℕ
div_ceil a n = (a + n - 1) / n

module _ (fa : FrameAllocator) (mem_offset : ℕ) where
  open fa use {State}

  -- `for i in 0..n_pages`, with `n` rounds left.
  unfoldable pub map_pages : ℕ → VirtAddr → PhysAddr → PageSize → ℕ → (n i : ℕ) → M State (Unit {0})
  map_pages rpt vaddr start sz fl zero i = pure tt
  map_pages rpt vaddr start sz fl (suc n) i = do
    offset ← lift (Word.mul i (size sz))
    va ← lift (Virt.add vaddr offset)
    pa ← lift (Phys.add start offset)
    map fa mem_offset rpt va pa sz fl
    map_pages rpt vaddr start sz fl n (i + 1)

  unfoldable pub map_range :
      ℕ → VirtAddr → (start end : PhysAddr) → PageSize → ℕ → M State (Unit {0})
  unfolding map_pages
  map_range rpt vaddr start end sz fl = do
    len ← lift (Phys.sub end start)
    map_pages rpt vaddr start sz fl (div_ceil len (size sz)) 0

  unfoldable pub identity_pages : ℕ → PhysAddr → ℕ → (n i : ℕ) → M State (Unit {0})
  identity_pages rpt start fl zero i = pure tt
  identity_pages rpt start fl (suc n) i = do
    addr ← lift (Phys.add start (i * 2 ^ page_shift % usize_mod))
    va ← lift (Virt.new addr)
    map fa mem_offset rpt va addr kb fl
    identity_pages rpt start fl n (i + 1)

  unfoldable pub identity_map_range : ℕ → (start end : PhysAddr) → ℕ → M State (Unit {0})
  unfolding identity_pages
  identity_map_range rpt start end fl = do
    start' ← lift (Phys.align_down start page_size)
    end' ← lift (Phys.align_up end page_size)
    len ← lift (Phys.sub end' start')
    identity_pages rpt start' fl (len / 2 ^ page_shift) 0

module _ {S : Type 0} (mem_offset : ℕ) where
  -- The body of the loop of `update_mapping`, at an address.
  unfoldable pub update_page : ℕ → ℕ → VirtAddr → M S (Unit {0})
  update_page rpt fl addr s = elim (get_pte_ptr mem_offset s.mem rpt addr) [
    | panic ↦ panic
    | done none ↦ done (err corrupted_page_table, s)
    | done (some (t, i)) ↦ elim (is_valid (s.mem t i)) [
      | false ↦ done (err corrupted_page_table, s)
      | true ↦ done (ok tt, record s { mem = put s.mem t i (write_flags (s.mem t i) fl) })
    ]
  ]

  unfoldable pub update_pages : ℕ → VirtAddr → ℕ → (n i : ℕ) → M S (Unit {0})
  unfolding update_page
  update_pages rpt start fl zero i = pure tt
  update_pages rpt start fl (suc n) i = do
    addr ← lift (Virt.add start (i * 2 ^ page_shift % usize_mod))
    update_page rpt fl addr
    update_pages rpt start fl n (i + 1)

  unfoldable pub update_mapping : ℕ → VirtAddr → (len fl : ℕ) → M S (Unit {0})
  unfolding update_pages
  update_mapping rpt vaddr len fl = do
    range ← lift (page_range vaddr len)
    update_pages rpt range.0 fl range.1 0
