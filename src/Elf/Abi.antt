-- ===== src/Elf/Abi.antt =====
-- The constants of crates/elf/src/abi.rs that the code uses.
use rv.Base.{ℕ}

abbrev pub et_exec : ℕ
et_exec = 2

abbrev pub pt_load : ℕ
pt_load = 1

abbrev pub pf_x : ℕ
pf_x = 1

abbrev pub pf_w : ℕ
pf_w = 2

abbrev pub pf_r : ℕ
pf_r = 4
