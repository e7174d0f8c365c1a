-- ===== src/Riscv/Registers/Sstatus.antt =====
-- `Sstatus` in kernel/src/arch/riscv/registers.rs. A method that writes is a function from the word in the register
-- before to the word after, one that reads a function of the word.
use rv.Base.{ℕ, bit_and, bit_or}
use rv.Base.Word.{complement}
use rv.Riscv.Registers.SstatusFlags

-- `csrr`, cut to the known flags; `csrw`, `csrs` and `csrc`.
unfoldable pub read : ℕ → ℕ
read v = bit_and v SstatusFlags.all

unfoldable pub write : (flags v : ℕ) → ℕ
write flags v = flags

unfoldable pub update : (ℕ → ℕ) → ℕ → ℕ
unfolding read write
update f v = write (f (read v)) v

unfoldable pub set : (flags v : ℕ) → ℕ
set flags v = bit_or v flags

unfoldable pub clear : (flags v : ℕ) → ℕ
clear flags v = bit_and v (complement flags)
