-- ===== src/Allocator.antt =====
-- Frame allocators: kernel/src/mm/allocator/.
pub mod Bitmap
pub mod Bump
use rv.Base.{ℕ}

pub data AllocatorError : Type 0 where
  unaligned_address invalid_page_size : AllocatorError

-- `ptr` is a virtual address; 0 is the null pointer.
pub record Frame : Type 0 where
  pub paddr : ℕ
  pub ptr : ℕ

abbrev pub null : ℕ
null = 0
