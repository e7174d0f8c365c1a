-- ===== src/Addr/Align.antt =====
-- `Align<usize> for usize` of kernel/src/mm/addr.rs. Each operation asserts that the alignment is a
-- power of two.
pub mod Round
pub mod Bounds
use rv.Base.{ℕ, ◌-◌, bit_and, Bool, Run, done, assert, ◌>>=◌, ◌>>◌, ◌==◌}
use rv.Base.Word.{add, sub, complement, is_power_of_two}

-- `(self + align - 1) & !(align - 1)`
unfoldable pub align_up : ℕ → ℕ → Run ℕ
align_up a align = do
  assert (is_power_of_two align)
  s ← add a align
  t ← sub s 1
  m ← sub align 1
  done (bit_and t (complement m))

-- `self & !(align - 1)`
unfoldable pub align_down : ℕ → ℕ → Run ℕ
align_down a align = do
  assert (is_power_of_two align)
  m ← sub align 1
  done (bit_and a (complement m))

-- `(self & (align - 1)) == 0`
unfoldable pub is_aligned : ℕ → ℕ → Run Bool
is_aligned a align = do assert (is_power_of_two align); m ← sub align 1; done (bit_and a m == 0)
