-- ===== src/Mmu/Ranges/Bounds.antt =====
-- The pages that a range of addresses touches, in `update_mapping` of kernel/src/arch/riscv/mmu.rs.
use rv.Base.{ℕ, ◌/◌, ◌^◌, Run, done, ◌>>=◌}
use rv.Addr.Virt
use rv.Addr.Virt.{VirtAddr}
use rv.Mmu.Entry.{page_shift, page_size}

-- `start` and `num_pages`
unfoldable pub page_range : VirtAddr → ℕ → Run (VirtAddr × ℕ)
page_range vaddr len = do
  start ← Virt.align_down vaddr page_size
  stop ← Virt.add vaddr len
  end ← Virt.align_up stop page_size
  bytes ← Virt.sub end start
  done (start, bytes / 2 ^ page_shift)
