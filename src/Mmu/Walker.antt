-- ===== src/Mmu/Walker.antt =====
-- `PageTableWalker` of kernel/src/arch/riscv/mmu.rs, over a frame allocator. `mem_offset` is the
-- address at which physical memory begins, and `rpt` the root table of the walker.
pub mod Next
pub mod Leaf
pub mod Maps
pub mod Descend
pub mod Link
use rv.Base.{ℕ, zero, suc, ◌+◌, ◌-◌, ◌*◌, ◌%◌, ◌^◌, bit_or, not, ◌&&◌}
use rv.Base.{none, some, done, panic, ok, err, ◌==◌, if◌then◌else◌}
use rv.Base.Word.{usize_mod}
use rv.Addr.Phys
use rv.Addr.Phys.{PhysAddr}
use rv.Addr.Virt.{VirtAddr}
use rv.Allocator.{Frame}
use rv.Allocator.Bump.Frames.{phys_to_virt}
use rv.Mmu.Entry.EntryFlags
use rv.Mmu.Entry.{Entry, empty, is_valid, flags, set_flags, write_flags, get_ppn, set_ppn}
use rv.Mmu.Entry.{PageSize, to_table_level, page_levels}
use rv.Mmu.Lookup.{vpn}
use rv.Mmu.Space.{FrameAllocator, already_mapped, allocation_failed}
use rv.Mmu.Space.{M, ◌>>=◌, ◌>>◌, pure, throw, lift, read, write, write_table}

module _ (fa : FrameAllocator) (mem_offset : ℕ) where
  open fa use {State, alloc}

  -- `allocator.alloc(1).ok_or(MapError::AllocationFailed)?`
  unfoldable pub alloc_frame : M State Frame
  alloc_frame s = elim (alloc s.frames 1) [
    | panic ↦ panic
    | done (some frame, frames) ↦ done (ok frame, record s { frames = frames })
    | done (none, frames) ↦ done (err allocation_failed, record s { frames = frames })
  ]

  -- The table that entry `i` of table `t` names.
  unfoldable pub table_of : Entry → M State ℕ
  table_of e = do
    pa ← lift (Phys.new (get_ppn e * 2 ^ 12 % usize_mod))
    lift (phys_to_virt mem_offset pa)

  -- A new table, linked at entry `i` of table `t`.
  unfoldable pub new_table : ℕ → ℕ → M State ℕ
  unfolding alloc_frame
  new_table t i = do
    frame ← alloc_frame
    write t i (set_ppn (set_flags empty EntryFlags.valid) (Phys.page_index frame.paddr))
    write_table frame.ptr
    lift (phys_to_virt mem_offset frame.paddr)

  -- One round of the loop of `map`.
  unfoldable pub next_table : ℕ → ℕ → M State ℕ
  unfolding table_of new_table
  next_table t i = do e ← read t i; if is_valid e then table_of e else new_table t i

  -- `for i in (level..PAGE_LEVELS - 1).rev()`, from the table at level `level + left`.
  unfoldable pub descend : VirtAddr → ℕ → ℕ → ℕ → M State ℕ
  descend v level zero t = pure t
  descend v level (suc left) t = next_table t (vpn v (level + suc left)) >>= descend v level left

  -- The part of `map` after the loop.
  unfoldable pub set_leaf : ℕ → ℕ → PhysAddr → ℕ → M State (Unit {0})
  set_leaf t i paddr fl = do
    e ← read t i
    if is_valid e && not (flags e == fl)
        then throw already_mapped
        else write t i (set_ppn (write_flags e fl) (Phys.page_index paddr))

  unfoldable pub map : ℕ → VirtAddr → PhysAddr → PageSize → ℕ → M State (Unit {0})
  unfolding descend set_leaf
  map rpt v paddr sz fl =
      let level = to_table_level sz in
      descend v level (page_levels - 1 - level) rpt >>= λ t.
      set_leaf t (vpn v level) paddr (bit_or fl EntryFlags.valid)
