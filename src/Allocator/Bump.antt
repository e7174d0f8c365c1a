-- ===== src/Allocator/Bump.antt =====
-- `BumpAllocator`, the allocator behind the kernel heap and the I/O window, of
-- kernel/src/mm/allocator/bump.rs. The lock around the state is left out: a call is one step.
pub mod Blocks
pub mod Client
pub mod Frames
mod Tests
use rv.Base.{
  ℕ, true, false, ◌-◌, ◌*◌, bit_and, Option, none, some, Run, done, panic, ◌>>=◌, ◌>>◌, assert, leb,
  ltb, if◌then◌else◌, ◌==◌,
}
use rv.Base.Word
use rv.Base.Word.{checked_sub, complement}
use rv.Allocator.{null}

-- `BumpImpl`
pub record Bump : Type 0 where
  pub start : ℕ
  pub end : ℕ
  pub ptr : ℕ
  pub allocated : ℕ

-- `core::alloc::Layout`
pub record Layout : Type 0 where
  pub size : ℕ
  pub align : ℕ

pub new : ℕ → ℕ → Run Bump
new start end = do
  assert (leb start end)
  done (record { start = start; end = end; ptr = end; allocated = 0 })

-- The address of the block, or null, and the new state.
pub alloc : Bump → Layout → Run (ℕ × Bump)
alloc b layout = elim (checked_sub b.ptr layout.size) [
  | none ↦ done (null, b)
  | some top ↦ do
    low ← Word.sub layout.align 1
    let ptr = bit_and top (complement low)
    elim (ltb ptr b.start) [
      | true ↦ done (null, b)
      | false ↦ do
        allocated ← Word.add b.allocated 1
        done (ptr, record b { allocated = allocated; ptr = ptr })
    ]
]

-- The block that is given back plays no part.
pub dealloc : Bump → Run Bump
dealloc b = do
  allocated ← Word.sub b.allocated 1
  done (record b { allocated = allocated; ptr = if allocated == 0 then b.end else b.ptr })
