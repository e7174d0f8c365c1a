-- ===== src/Elf.antt =====
-- The parser of 64-bit little-endian ELF files in crates/elf/src/lib.rs and crates/elf/src/abi.rs. A byte
-- is a number. Every read is checked; `off + len` panics on overflow.
pub mod Abi
pub mod Headers
pub mod Encode
pub mod Ranges
pub mod Samples
mod Tests
use rv.Base.{ℕ, ◌+◌, ◌-◌, ◌*◌, Bool, true, false, not, ◌&&◌, ◌||◌, bit_and, Option, none, some}
use rv.Base.{
  List, [], ◌∷◌, length, slice, take, drop, get_elem?, Run, done, panic, Result, ok, err, ◌==◌, ltb,
  leb, if◌then◌else◌,
}
use rv.Base.Word
use rv.Base.Fallible.{R, ◌>>=◌, ◌>>◌, pure, throw, lift, ensure}

pub data ElfError : Type 0 where
  too_small bad_magic not_elf64 not_little_endian bad_header_size bad_ph_ent_size out_of_bounds :
      ElfError

pub record Elf64Header : Type 0 where
  pub e_type : ℕ
  pub e_machine : ℕ
  pub e_version : ℕ
  pub e_entry : ℕ
  pub e_phoff : ℕ
  pub e_shoff : ℕ
  pub e_flags : ℕ
  pub e_ehsize : ℕ
  pub e_phentsize : ℕ
  pub e_phnum : ℕ
  pub e_shentsize : ℕ
  pub e_shnum : ℕ
  pub e_shstrndx : ℕ

pub record Elf64Phdr : Type 0 where
  pub p_type : ℕ
  pub p_flags : ℕ
  pub p_offset : ℕ
  pub p_vaddr : ℕ
  pub p_paddr : ℕ
  pub p_filesz : ℕ
  pub p_memsz : ℕ
  pub p_align : ℕ

-- `Elf64`
pub record Elf64 : Type 0 where
  pub bytes : List ℕ
  pub hdr : Elf64Header

-- `from_le_bytes`
abbrev pub le_value : List ℕ → ℕ
le_value [] = 0
le_value (b ∷ bs) = b + 256 * le_value bs

-- `read_u16_le`, `read_u32_le` and `read_u64_le`, for `n` bytes.
unfoldable pub read_le : ℕ → List ℕ → R ElfError ℕ
read_le n b = if ltb (length b) n then throw too_small else pure (le_value (take n b))

unfoldable pub get_range : List ℕ → ℕ → ℕ → R ElfError (List ℕ)
get_range bytes off len = do
  end ← lift (Word.add off len)
  if ltb (length bytes) end then throw out_of_bounds else pure (slice bytes off end)

-- `read_u16_le(get_range(data, off, 2)?)?` and the like.
unfoldable pub field_at : List ℕ → ℕ → ℕ → R ElfError ℕ
field_at bytes off n = get_range bytes off n >>= read_le n

abbrev pub byte_is : List ℕ → ℕ → ℕ → Bool
byte_is bytes i b = elim (get_elem? bytes i) [ none ↦ false | some x ↦ x == b ]

-- The tests of `e_ident`: the magic, the class and the byte order.
unfoldable pub check_ident : List ℕ → R ElfError (Unit {0})
check_ident bytes = do
  ident ← get_range bytes 0 16
  ensure
      (byte_is ident 0 0x7f && byte_is ident 1 0x45 && byte_is ident 2 0x4c && byte_is ident 3 0x46)
      bad_magic
  ensure (byte_is ident 4 2) not_elf64
  ensure (byte_is ident 5 1) not_little_endian

unfoldable pub read_header : List ℕ → R ElfError Elf64Header
read_header bytes = do
  e_type ← field_at bytes 0x10 2
  e_machine ← field_at bytes 0x12 2
  e_version ← field_at bytes 0x14 4
  e_entry ← field_at bytes 0x18 8
  e_phoff ← field_at bytes 0x20 8
  e_shoff ← field_at bytes 0x28 8
  e_flags ← field_at bytes 0x30 4
  e_ehsize ← field_at bytes 0x34 2
  e_phentsize ← field_at bytes 0x36 2
  e_phnum ← field_at bytes 0x38 2
  e_shentsize ← field_at bytes 0x3a 2
  e_shnum ← field_at bytes 0x3c 2
  e_shstrndx ← field_at bytes 0x3e 2
  pure (record {
    e_type = e_type;
    e_machine = e_machine;
    e_version = e_version;
    e_entry = e_entry;
    e_phoff = e_phoff;
    e_shoff = e_shoff;
    e_flags = e_flags;
    e_ehsize = e_ehsize;
    e_phentsize = e_phentsize;
    e_phnum = e_phnum;
    e_shentsize = e_shentsize;
    e_shnum = e_shnum;
    e_shstrndx = e_shstrndx;
  })

-- The table of program headers lies in the file. The product of two `u16` fits the word.
unfoldable pub check_table : List ℕ → Elf64Header → R ElfError (Unit {0})
check_table bytes h =
    if h.e_phnum == 0
    then pure tt
    else (get_range bytes h.e_phoff (h.e_phentsize * h.e_phnum) >>= λ _. pure tt)

unfoldable pub check_header : List ℕ → Elf64Header → R ElfError (Unit {0})
unfolding check_table
check_header bytes h = do
  ensure (h.e_ehsize == 64) bad_header_size
  ensure (h.e_phnum == 0 || h.e_phentsize == 56) bad_ph_ent_size
  check_table bytes h

unfoldable pub parse : List ℕ → R ElfError Elf64
parse bytes = do
  ensure (leb 64 (length bytes)) too_small
  check_ident bytes
  h ← read_header bytes
  check_header bytes h
  pure (record { bytes = bytes; hdr = h })

pub record ProgramHeaderIter : Type 0 where
  pub bytes : List ℕ
  pub off : ℕ
  pub idx : ℕ
  pub count : ℕ
  pub entsz : ℕ

unfoldable pub program_headers : Elf64 → ProgramHeaderIter
program_headers elf = record {
  bytes = elf.bytes;
  off = elf.hdr.e_phoff;
  idx = 0;
  count = elf.hdr.e_phnum;
  entsz = elf.hdr.e_phentsize;
}

unfoldable pub segment_data : Elf64 → Elf64Phdr → R ElfError (List ℕ)
segment_data elf ph = get_range elf.bytes ph.p_offset ph.p_filesz

unfoldable pub parse_one : List ℕ → R ElfError Elf64Phdr
parse_one ph = do
  ensure (leb 56 (length ph)) too_small
  p_type ← read_le 4 (slice ph 0x0 0x4)
  p_flags ← read_le 4 (slice ph 0x4 0x8)
  p_offset ← read_le 8 (slice ph 0x8 0x10)
  p_vaddr ← read_le 8 (slice ph 0x10 0x18)
  p_paddr ← read_le 8 (slice ph 0x18 0x20)
  p_filesz ← read_le 8 (slice ph 0x20 0x28)
  p_memsz ← read_le 8 (slice ph 0x28 0x30)
  p_align ← read_le 8 (slice ph 0x30 0x38)
  pure (record {
    p_type = p_type;
    p_flags = p_flags;
    p_offset = p_offset;
    p_vaddr = p_vaddr;
    p_paddr = p_paddr;
    p_filesz = p_filesz;
    p_memsz = p_memsz;
    p_align = p_align;
  })

-- `and_then` on a `Result`: the item is a value even if it is an error.
unfoldable pub read_item : ProgramHeaderIter → ℕ → R ElfError Elf64Phdr
unfolding parse_one
read_item it start = get_range it.bytes start it.entsz >>= parse_one

-- `start` is computed with overflow checks.
unfoldable pub next :
    ProgramHeaderIter → Run (Option (Result ElfError Elf64Phdr × ProgramHeaderIter))
unfolding read_item
next it = elim (ltb it.idx it.count) [
  | false ↦ done none
  | true ↦ elim (Word.mul it.idx it.entsz) [
    | panic ↦ panic
    | done distance ↦ elim (Word.add it.off distance) [
      | panic ↦ panic
      | done start ↦ elim (read_item it start) [
        | panic ↦ panic
        | done item ↦ done (some (item, record it { idx = it.idx + 1 }))
      ]
    ]
  ]
]

unfoldable pub is_executable : Elf64Header → Bool
is_executable h = h.e_type == Abi.et_exec

unfoldable pub is_load : Elf64Phdr → Bool
is_load ph = ph.p_type == Abi.pt_load

unfoldable pub is_readable : Elf64Phdr → Bool
is_readable ph = not (bit_and ph.p_flags Abi.pf_r == 0)

unfoldable pub is_writable : Elf64Phdr → Bool
is_writable ph = not (bit_and ph.p_flags Abi.pf_w == 0)

-- `Elf64Phdr::is_executable`
unfoldable pub has_exec : Elf64Phdr → Bool
has_exec ph = not (bit_and ph.p_flags Abi.pf_x == 0)
