-- ===== src/Allocator/Bump/Frames.antt =====
-- `BumpFrameAllocator<N>`, the allocator of physical frames behind the page tables, of
-- kernel/src/mm/allocator/bump.rs.
pub mod Pages
use rv.Base.{
  ℕ, zero, ◌+◌, ◌-◌, ◌*◌, ◌/◌, ◌%◌, ◌^◌, ◌≤◌, ◌<◌, ◌≡◌, ◌⊎◌, inl, inr, refl, arith, true, false,
}
use rv.Base.{
  Option, none, some, Run, done, panic, ◌>>=◌, ◌>>◌, assert, leb, ltb, if◌then◌else◌, ◌==◌,
}
use rv.Base.Word
use rv.Base.Word.{checked_add}
use rv.Addr.Phys
use rv.Addr.Phys.{PhysAddr}
use rv.Addr.Virt
use rv.Addr.Virt.{VirtAddr}
use rv.Allocator.{Frame}
use rv.Allocator.Bump.{Bump}

-- `PHYS_TO_VIRT_OFFSET` of kernel/src/arch/riscv/mm/mod.rs.
abbrev pub phys_to_virt_offset : VirtAddr
phys_to_virt_offset = 0x20_0000_0000

-- `phys_to_virt` of that file; `mem_offset` is the `PHYS_MEM_OFFSET` that the kernel sets at start-up.
unfoldable pub phys_to_virt : (mem_offset : ℕ) → PhysAddr → Run VirtAddr
phys_to_virt mem_offset pa = Phys.sub pa mem_offset >>= λ d. Virt.add phys_to_virt_offset d

unfoldable pub new : PhysAddr → PhysAddr → Run Bump
new start end = do
  assert (leb start end)
  done (record { start = start; end = end; ptr = start; allocated = 0 })

unfoldable pub alloc : (n mem_offset : ℕ) → Bump → ℕ → Run (Option Frame × Bump)
unfolding phys_to_virt
alloc n mem_offset b count = do
  bytes ← Word.mul count n
  elim (checked_add b.ptr bytes) [
    | none ↦ done (none, b)
    | some next ↦ elim (ltb b.end next) [
      | true ↦ done (none, b)
      | false ↦ elim (Phys.try_new b.ptr) [
        | none ↦ done (none, b)
        | some paddr ↦ do
          ptr ← phys_to_virt mem_offset paddr
          allocated ← Word.add b.allocated count
          done (
            some (record { paddr = paddr; ptr = ptr }),
            record b { ptr = next; allocated = allocated },
          )
      ]
    ]
  ]

-- `free` does nothing.
pub free : Bump → Frame → Bump
free b frame = b
