-- ===== src/Mmu/Space.antt =====
-- What the page-table code works on: the page tables in memory and the frame allocator. A table is
-- named by the virtual address at which the kernel reaches it.
pub mod Writes
pub mod Binds
use rv.Base.{ℕ, ◌&&◌, Option, Run, done, panic, Result, ok, err, ◌==◌, if◌then◌else◌}
use rv.Allocator.{Frame}

-- `FrameAllocator<PAGE_SIZE>` of kernel/src/mm/allocator/mod.rs, as far as the page tables use it.
pub record FrameAllocator : Type 1 where
  pub State : Type 0
  pub alloc : State → ℕ → Run (Option Frame × State)

pub data MapError : Type 0 where
  already_mapped allocation_failed corrupted_page_table : MapError

-- `mem t i` is entry `i` of the table at `t`.
abbrev pub Memory : Type 0
Memory = ℕ → ℕ → ℕ

pub record Space (S : Type 0) : Type 0 where
  pub mem : Memory
  pub frames : S

unfoldable pub put : Memory → ℕ → ℕ → ℕ → Memory
put mem t i v x j = if x == t && j == i then v else mem x j

-- `PageTable::default()` written over a page.
unfoldable pub put_table : Memory → ℕ → Memory
put_table mem t x j = if x == t then 0 else mem x j

-- A method: it may panic, and what it has changed before an error stays changed.
abbrev pub M : Type 0 → Type 0 → Type 0
M S A = Space S → Run (Result MapError A × Space S)

infixl 5 ◌>>=◌ ◌>>◌
abbrev pub ◌>>=◌ : {S A B : Type 0} → M S A → (A → M S B) → M S B
◌>>=◌ m f s = elim (m s) [
  | panic ↦ panic
  | done (ok a, s') ↦ f a s'
  | done (err e, s') ↦ done (err e, s')
]

abbrev pub ◌>>◌ : {S B : Type 0} → M S (Unit {0}) → M S B → M S B
m >> k = m >>= λ _. k

abbrev pub pure : {S A : Type 0} → A → M S A
pure a s = done (ok a, s)

abbrev pub throw : {S A : Type 0} → MapError → M S A
throw e s = done (err e, s)

-- Code that may only panic.
abbrev pub lift : {S A : Type 0} → Run A → M S A
lift r s = elim r [ panic ↦ panic | done a ↦ done (ok a, s) ]

abbrev pub read : {S : Type 0} → ℕ → ℕ → M S ℕ
read t i s = done (ok (s.mem t i), s)

abbrev pub write : {S : Type 0} → ℕ → ℕ → ℕ → M S (Unit {0})
write t i v s = done (ok tt, record s { mem = put s.mem t i v })

abbrev pub write_table : {S : Type 0} → ℕ → M S (Unit {0})
write_table t s = done (ok tt, record s { mem = put_table s.mem t })
