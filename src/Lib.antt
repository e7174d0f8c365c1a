-- ===== src/Lib.antt =====
-- A verification library for rv6, a kernel for 64-bit RISC-V: its addresses, its allocators, its page
-- tables, its readers of the initial archive and of device trees, its loader of programs, its
-- handler of traps and system calls, and the queues of its virtio devices.
--
-- The parts of the kernel and how they meet. Addresses (kernel/src/mm/addr.rs, kernel/src/mm/addr/,
-- kernel/src/arch/riscv/addr.rs) are checked words. The frame allocators (kernel/src/mm/allocator/) hand
-- out pages of physical memory by address; the heap allocator beside them hands out blocks of a window.
-- The page tables (kernel/src/arch/riscv/mmu.rs) take frames from an allocator through the trait
-- FrameAllocator, reach them through phys_to_virt (kernel/src/arch/riscv/mm/mod.rs), and translate.
-- The archive reader (crates/cpio/src/lib.rs) stands alone; the kernel looks up the first program with it.
-- The reader of device trees (crates/fdt/src/lib.rs), too, stands alone; drivers are looked up with it.
-- The running program comes back through the handler of traps (kernel/src/arch/riscv/trap.rs), which
-- carries out its system calls (kernel/src/syscall.rs).
-- The program is an ELF file: the parser (crates/elf/src/lib.rs) reads its headers, and the loader
-- (kernel/src/proc/elf/mod.rs) makes a plan of segments and carries it out through the trait ElfLoader.
--
-- Files:
-- - Base: helpers. Base/Tests has the Boolean tests, Base/Lists the lists over the native ℕ, Base/Panics
--   the type `Run` of code that may panic and the type `Result`, Base/Word the operators of a `usize`,
--   Base/Bits the laws of `&` and `|` on bit fields, Base/Removal the removal of one member of a list.
-- - Addr/Align: the trait `Align` for `usize`. Addr/Phys and Addr/Virt: `PhysAddr` and `VirtAddr`, with
--   one function per method, under the default feature sv39.
-- - Allocator/Bitmap: `BitmapAllocator`. `init`, `alloc` and `free` are the methods. The loop over `i` in
--   `alloc` is `find`, its inner loop over `j` is `scan`, and the loop that sets the flags is `mark`; the
--   loop of `free` is `clear`. Allocator/Bitmap/Live is a client: a run of calls as a step relation.
-- - Allocator/Bump: `BumpAllocator`; Allocator/Bump/Frames: `BumpFrameAllocator` and `phys_to_virt`.
--   Allocator/Bump/Client is a client of the former.
-- - Mmu/Entry: `Entry`, `EntryFlags`, `PageSize`. Mmu/Space: the memory that holds the tables, and the
--   trait `FrameAllocator` as a record, a parameter of the walker. Mmu/Walker: `PageTableWalker::map`.
--   Mmu/Lookup: `virt_to_phys` and `get_pte_ptr`. Mmu/Tree: well-formed page tables, and the laws that the
--   walker needs of an allocator. Mmu/Ranges: `map_range`, `identity_map_range` and `update_mapping`; the
--   pages that the last goes through are those of `page_range` in Mmu/Ranges/Bounds. Mmu/Copy:
--   `copy_kernel_mappings`, by recursion on the level of a table. Mmu/BumpFrames: `BumpFrameAllocator`
--   behind that interface.
-- - Cpio: `NewcIter` and `find_file`. The loop of `find_file` is `find_from`; `next` reads an entry by
--   `read_entry`. Its slices and its `unwrap` panic out of range; the functions of the Rust library on text
--   and digits are parameters. Cpio/Steps: what each step needs so as not to panic.
-- - Fdt: `Fdt` and its header. Fdt/Combinators: what is used of nom, a record, with its laws. Fdt/Value: the
--   implementations of `PropValue`. Fdt/Nodes: `Property`, `Node` and their iterators, with `Node::find`.
--   Fdt/Lookup: paths, properties, parents. Fdt/Nodes/Tree has device trees as data and their bytes, built
--   from the writers of Fdt/Writes; its children and those of Fdt/Lookup say what is read from them. A
--   node holds the bytes behind it, and a tree is walked by reading it again, as in the source.
-- - Elf: `Elf64::parse` with its steps, `ProgramHeaderIter` and `segment_data`. Elf/Encode has the bytes of
--   headers as the System V ABI lays them out, and Elf/Headers what a parsed file promises.
-- - Load: `build_load_plan`; its loop is `fill`, its body `segment_of`, and the number of headers is counted
--   by `count_items`. Load/Loader: `load_elf_into` for any `ElfLoader`, a record; the body of its loop is
--   `load_segment`, with `map_bounds` of Load/Pages. Load/Loader/Contents says what a loader may do to
--   the bytes of an address space; Load/Loader/Whole goes from the file to the address space.
--   Load/Riscv: `RiscvLoader` (kernel/src/arch/riscv/mm/elf.rs), an implementation of the trait.
-- - Drivers/Virtq: `Virtq` (kernel/src/drivers/virtio/virtq.rs). In `new` the loop over the descriptors is
--   `chain`; in `submit` the walk along the free ones is `walk`, the search for the parent `relink`, and the
--   loop over the buffers `prepare`. The layout of the memory and its allocation are parameters of `new`.
-- - Drivers/Blkdev: `VirtioBlkDev` (kernel/src/drivers/virtio/blkdev.rs). `transfer` is `send`, which submits the
--   request, and `wait`, the loop on the interrupt status; the memory for a request and the values of the
--   status are parameters. Drivers/Blkdev/Memory and Chain: the request in memory and in the queue, as the
--   virtio specification has them. Drivers/Blkdev/Config: `read_config`.
-- - Riscv: kernel/src/arch/riscv/. Riscv/Registers: `Sstatus` and `Satp` as words. Riscv/Hart: what a handler may do,
--   and `with_user_access`. Riscv/Syscall: kernel/src/syscall.rs. Riscv/Trap: `handle_exception`, whose match on the
--   cause is `handle_irq` and `handle_cause`; the memory of user pages, the register `time` and the answer of the
--   firmware are parameters. Messages and bytes on the console are events, in order. Riscv/Sbi: the calls of
--   the firmware (kernel/src/arch/riscv/sbi.rs).
--
-- Conventions. A word is a native number below 2 ^ 64. The plain operators panic on overflow, as in
-- a build with overflow checks; shifts and casts wrap, written `% 2 ^ 64`; `checked_` operators
-- give an option. A method that may also return an error gives a `Result` inside `Run`
-- (Base/Fallible), and one that changes a state a function on it (Base/Stateful). `panic` is a
-- value of `Run`, so that a theorem that says what a method returns also says that it does not
-- panic. A table of descriptors or of entries is a list or a function, not raw memory.
--
-- Page tables. A table is named by the address at which the kernel reaches it, and the memory is a
-- function from a table and an index to an entry. The bounds on physical memory, its first 2 ^ 37
-- bytes and below 2 ^ 38, are those of `phys_to_virt`, whose results must be canonical, and of the
-- mask of the page number in an entry.
--
-- Fuel. Of the loops some need fuel. The first is `find`: each round moves `i` up, so that
-- `num_pages + 1` rounds are enough; out of fuel it panics, so that the theorems on `alloc` show
-- that it does not run out. The second is `find_from`, on a fuel above the length of the archive:
-- each entry moves the offset up within the archive. The loop over the program headers and their
-- count take a round for each header and one for the end, `e_phnum + 1`; out of fuel they panic.
--
-- The iterators of a device tree recurse on fuel above the length of their bytes; each item takes twelve
-- bytes at least, and out of fuel they panic, so that the theorems on trees show that they do not run out.
--
-- Not modelled. The locks around the allocators and the tables (a call is one step), the features
-- sv48, the tests, and the switch of the active page table, which is a register; and the rest of
-- the kernel: the other device drivers, the ext2 file system, processes.
pub mod Base
pub mod Addr
pub mod Allocator
pub mod Mmu
pub mod Cpio
pub mod Elf
pub mod Load
pub mod Drivers
pub mod Fdt
pub mod Riscv
