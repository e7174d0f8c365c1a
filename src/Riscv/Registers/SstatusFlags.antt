-- ===== src/Riscv/Registers/SstatusFlags.antt =====
-- The flags of `SstatusFlags` in kernel/src/arch/riscv/registers.rs.
use rv.Base.{ℕ, ◌+◌, ◌*◌, ◌^◌}

abbrev pub sie : ℕ
sie = 2 ^ 1

abbrev pub spie : ℕ
spie = 2 ^ 5

abbrev pub ube : ℕ
ube = 2 ^ 6

abbrev pub spp : ℕ
spp = 2 ^ 8

abbrev pub vs : ℕ
vs = 3 * 2 ^ 9

abbrev pub fs : ℕ
fs = 3 * 2 ^ 13

abbrev pub xs : ℕ
xs = 3 * 2 ^ 15

abbrev pub sum : ℕ
sum = 2 ^ 18

abbrev pub mxr : ℕ
mxr = 2 ^ 19

abbrev pub uxl : ℕ
uxl = 3 * 2 ^ 32

abbrev pub sd : ℕ
sd = 2 ^ 63

-- All of them, which do not overlap.
abbrev pub all : ℕ
all = sie + spie + ube + spp + vs + fs + xs + sum + mxr + uxl + sd
