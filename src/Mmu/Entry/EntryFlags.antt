-- ===== src/Mmu/Entry/EntryFlags.antt =====
-- The flags of `EntryFlags`, and their unions that the code uses.
use rv.Base.{ℕ}

abbrev pub valid : ℕ
valid = 0x1

abbrev pub read : ℕ
read = 0x2

abbrev pub write : ℕ
write = 0x4

abbrev pub exec : ℕ
exec = 0x8

abbrev pub user : ℕ
user = 0x10

abbrev pub global : ℕ
global = 0x20

abbrev pub access : ℕ
access = 0x40

abbrev pub dirty : ℕ
dirty = 0x80

-- `READ | WRITE | EXEC`
abbrev pub rwx : ℕ
rwx = 0xe

-- `RWX | USER | GLOBAL`
abbrev pub rwxug : ℕ
rwxug = 0x3e

-- `RWX | ACCESS | DIRTY | GLOBAL`
abbrev pub kernel : ℕ
kernel = 0xee

-- Bits 0 to 9 and 60 to 63.
abbrev pub all : ℕ
all = 0xf000_0000_0000_03ff
