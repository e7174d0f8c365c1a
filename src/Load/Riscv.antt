-- ===== src/Load/Riscv.antt =====
-- `RiscvLoader` of kernel/src/arch/riscv/mm/elf.rs: an `ElfLoader` over the page tables. The frame allocator and the
-- tables are those of `Space`; the locks around them are left out.
use rv.Base.{ℕ, zero, suc, ◌+◌, ◌/◌, bit_or, Bool, true, false, none, some, List}
use rv.Base.{Run, done, panic, ok, ◌==◌, if◌then◌else◌}
use rv.Base.Word
use rv.Base.Stateful
use rv.Addr.Align
use rv.Addr.Phys
use rv.Addr.Phys.{PhysAddr}
use rv.Addr.Virt
use rv.Addr.Virt.{VirtAddr}
use rv.Allocator.{Frame}
use rv.Mmu.Entry.EntryFlags
use rv.Mmu.Entry.{kb, page_size, from_segment_flags}
use rv.Mmu.Space.{FrameAllocator, Space, MapError, M, ◌>>=◌, ◌>>◌, pure, lift, write_table}
use rv.Mmu.Walker.{map}
use rv.Mmu.Copy.{copy_kernel_mappings}
use rv.Mmu.Ranges.{update_mapping}
use rv.Load.Loader.{ElfLoader}

-- `flags | USER | ACCESS`
abbrev pub user_flags : ℕ → ℕ
user_flags flags = bit_or (bit_or (from_segment_flags flags) EntryFlags.user) EntryFlags.access

-- `assert!` of a test that may itself panic.
abbrev pub holds : {S : Type 0} → Run Bool → M S (Unit {0})
holds (done true) s = done (ok tt, s)
holds (done false) s = panic
holds panic s = panic

module _ (fa : FrameAllocator) (mem_offset : ℕ) where
  open fa use {State, alloc}

  -- `gfa.alloc(n).expect("oom")`
  unfoldable pub expect_frame : ℕ → M State Frame
  expect_frame n s = elim (alloc s.frames n) [
    | panic ↦ panic
    | done (none, frames) ↦ panic
    | done (some frame, frames) ↦ done (ok frame, record s { frames = frames })
  ]

  -- `for i in 0..n_pages`, with `n` rounds left.
  unfoldable pub map_frames : ℕ → VirtAddr → PhysAddr → ℕ → (n i : ℕ) → M State (Unit {0})
  map_frames rpt vaddr phys flags zero i = pure tt
  map_frames rpt vaddr phys flags (suc n) i = do
    offset ← lift (Word.mul i page_size)
    va ← lift (Virt.add vaddr offset)
    pa ← lift (Phys.add phys offset)
    map fa mem_offset rpt va pa kb (user_flags flags)
    map_frames rpt vaddr phys flags n (i + 1)

  unfoldable pub map_user : ℕ → VirtAddr → (len flags : ℕ) → M State (Unit {0})
  map_user rpt vaddr len flags = if len == 0 then pure tt else (do
    holds (Virt.is_aligned vaddr page_size)
    holds (Align.is_aligned len page_size)
    frame ← expect_frame (len / page_size)
    map_frames rpt vaddr frame.paddr flags (len / page_size) 0)

  unfoldable pub protect_user : ℕ → VirtAddr → (len flags : ℕ) → M State (Unit {0})
  protect_user rpt vaddr len flags =
      if len == 0 then pure tt else update_mapping mem_offset rpt vaddr len (user_flags flags)

  -- The root table of the walker, and where it lies in physical memory.
  unfoldable pub new_root : (kernel_pt : ℕ) → M State (ℕ × PhysAddr)
  new_root kernel_pt = do
    frame ← expect_frame 1
    write_table frame.ptr
    copy_kernel_mappings fa mem_offset frame.ptr kernel_pt
    pure (frame.ptr, frame.paddr)

-- The address space: where its root table lies, the walker, the tables and frames, and the bytes of user memory.
pub record RiscvAddrSpace (S B : Type 0) : Type 0 where
  pub rpt_pa : PhysAddr
  pub pt_walker : ℕ
  pub space : Space S
  pub user : B

-- A method on the tables, as one on the address space.
abbrev pub on_space :
    {S B : Type 0} → (ℕ → M S (Unit {0})) → Stateful.M (RiscvAddrSpace S B) MapError (Unit {0})
on_space m a = elim (m a.pt_walker a.space) [
  | panic ↦ panic
  | done (r, space) ↦ done (r, record a { space = space })
]

-- `store rpt_pa tables dst src` and `clear rpt_pa tables dst len` are the writes of the processor under the page table at
-- `rpt_pa`, inside `with_user_access`; a fault is a panic.
module _ (fa : FrameAllocator) (mem_offset : ℕ) {B : Type 0}
    (store : ℕ → Space fa.State → VirtAddr → List ℕ → B → Run B)
    (clear : ℕ → Space fa.State → VirtAddr → ℕ → B → Run B) where
  abbrev AddrSpace : Type 0
  AddrSpace = RiscvAddrSpace fa.State B

  -- `with_addr_space` switches to the page table and back.
  unfoldable pub with_user : (AddrSpace → Run B) → Stateful.M AddrSpace MapError (Unit {0})
  with_user f a = elim (f a) [ panic ↦ panic | done user ↦ done (ok tt, record a { user = user }) ]

  unfoldable pub riscv_loader : ElfLoader AddrSpace MapError
  unfolding with_user map_user protect_user
  riscv_loader = record {
    validate_user_range = λ vaddr len a. done (ok tt);
    map_anonymous = λ vaddr len flags. on_space (λ rpt. map_user fa mem_offset rpt vaddr len flags);
    protect_range =
        λ vaddr len flags. on_space (λ rpt. protect_user fa mem_offset rpt vaddr len flags);
    copy_to_user = λ dst src. with_user (λ a. store a.rpt_pa a.space dst src a.user);
    zero_user = λ dst len. with_user (λ a. clear a.rpt_pa a.space dst len a.user);
    finalize_image = λ ranges a. done (ok tt, a);
    page_size = page_size;
  }
