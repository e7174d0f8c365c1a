-- ===== src/Elf/Encode.antt =====
-- The bytes of a header, and what the parser makes of them.
use native.Mathlib.Decide.{ℕ_discrete}
use rv.Base.{ap}
use rv.Base.{ℕ, ◌+◌, ◌*◌, ◌^◌, ◌≤◌, ◌<◌, ◌≡◌, ◌≢◌, refl, arith}
use rv.Base.{List, ◌∷◌, ◌++◌, length, slice, done, panic, ok}
use rv.Base.Fallible.{R, ◌>>=◌, pure}
use rv.Elf.{ElfError}
use rv.Elf.{
  Elf64Header, Elf64, Elf64Phdr, field_at, check_ident, read_header, check_table, check_header,
  parse, parse_one,
}
use rv.Elf.Ranges.{
  le_bytes, field_at-le_bytes, get_range-inside, get_range-overflow, read_le-le_bytes,
}

-- Each field fits its width, and the header has the size that the parser wants.
pub record IsHeader (h : Elf64Header) : Type 0 where
  pub e_type : h.e_type < 2 ^ 16
  pub e_machine : h.e_machine < 2 ^ 16
  pub e_version : h.e_version < 2 ^ 32
  pub e_entry : h.e_entry < 2 ^ 64
  pub e_phoff : h.e_phoff < 2 ^ 64
  pub e_shoff : h.e_shoff < 2 ^ 64
  pub e_flags : h.e_flags < 2 ^ 32
  pub e_ehsize : h.e_ehsize ≡ 64
  pub e_phentsize : h.e_phentsize ≡ 56
  pub e_phnum : h.e_phnum < 2 ^ 16
  pub e_shentsize : h.e_shentsize < 2 ^ 16
  pub e_shnum : h.e_shnum < 2 ^ 16
  pub e_shstrndx : h.e_shstrndx < 2 ^ 16

-- The layout of the System V ABI; bytes 6 to 15 are not read.
abbrev pub encode_header : Elf64Header → List ℕ
encode_header h =
    0x7f
    ∷ 0x45
    ∷ 0x4c
    ∷ 0x46
    ∷ 2
    ∷ 1
    ∷ 1
    ∷ 0
    ∷ 0
    ∷ 0
    ∷ 0
    ∷ 0
    ∷ 0
    ∷ 0
    ∷ 0
    ∷ 0
    ∷ (le_bytes 2 h.e_type
        ++ (le_bytes 2 h.e_machine
            ++ (le_bytes 4 h.e_version
                ++ (le_bytes 8 h.e_entry
                    ++ (le_bytes 8 h.e_phoff
                        ++ (le_bytes 8 h.e_shoff
                            ++ (le_bytes 4 h.e_flags
                                ++ (le_bytes 2 h.e_ehsize
                                    ++ (le_bytes 2 h.e_phentsize
                                        ++ (le_bytes 2 h.e_phnum
                                            ++ (le_bytes 2 h.e_shentsize
                                                ++ (le_bytes 2 h.e_shnum
                                                    ++ le_bytes 2 h.e_shstrndx))))))))))))

module _ (h : Elf64Header) (rest : List ℕ) (v : IsHeader h) (word : 64 + length rest < 2 ^ 64) where
  file : List ℕ
  file = encode_header h ++ rest

  length-file : length file ≡ 64 + length rest
  unfolding file
  length-file = omega arith

  -- A field that the header holds at `off`.
  field :
      (off n x : ℕ)
      → off + n ≤ 64
      → slice file off (off + n) ≡ le_bytes n x
      → x < 256 ^ n
      → field_at file off n ≡ done (ok x)
  field off n x inside =
      field_at-le_bytes file off n x (omega (arith, length-file)) (omega (arith, length-file))

  check_ident-file : check_ident file ≡ done (ok tt)
  unfolding check_ident file
  check_ident-file =
      rw (get_range-inside file 0 16 (omega (arith, length-file)) (omega (arith, length-file)))

  read_header-file : read_header file ≡ done (ok h)
  unfolding read_header file
  read_header-file = rw (
    field 0x10 2 h.e_type (omega arith) refl v.e_type,
    field 0x12 2 h.e_machine (omega arith) refl v.e_machine,
    field 0x14 4 h.e_version (omega arith) refl v.e_version,
    field 0x18 8 h.e_entry (omega arith) refl v.e_entry,
    field 0x20 8 h.e_phoff (omega arith) refl v.e_phoff,
    field 0x28 8 h.e_shoff (omega arith) refl v.e_shoff,
    field 0x30 4 h.e_flags (omega arith) refl v.e_flags,
    field 0x34 2 h.e_ehsize (omega arith) refl (omega (arith, v.e_ehsize)),
    field 0x36 2 h.e_phentsize (omega arith) refl (omega (arith, v.e_phentsize)),
    field 0x38 2 h.e_phnum (omega arith) refl v.e_phnum,
    field 0x3a 2 h.e_shentsize (omega arith) refl v.e_shentsize,
    field 0x3c 2 h.e_shnum (omega arith) refl v.e_shnum,
    field 0x3e 2 h.e_shstrndx (omega arith) refl v.e_shstrndx,
  )

  parse-checked :
      {r : R ElfError Elf64}
      → (check_header file h >>= λ _. pure (record { bytes = file; hdr = h })) ≡ r
      → parse file ≡ r
  unfolding parse
  parse-checked e = ground (arith, length-file, check_ident-file, read_header-file, e)

  table_size : h.e_phentsize * h.e_phnum ≡ 56 * h.e_phnum
  table_size = ap (λ (t : ℕ). t * h.e_phnum) v.e_phentsize

  check_table-inside :
      (h.e_phnum ≢ 0 → h.e_phoff + 56 * h.e_phnum ≤ 64 + length rest)
      → check_table file h ≡ done (ok tt)
  unfolding check_table
  check_table-inside inside = elim (ℕ_discrete h.e_phnum 0) [
    | yes none_there ↦ ground arith
    | no some_there ↦ ground (
      arith,
      get_range-inside file h.e_phoff (h.e_phentsize * h.e_phnum)
          (omega (arith, inside some_there, table_size, length-file)) (omega (arith, length-file)),
    )
  ]

  check_header-inside :
      (h.e_phnum ≢ 0 → h.e_phoff + 56 * h.e_phnum ≤ 64 + length rest)
      → check_header file h ≡ done (ok tt)
  unfolding check_header
  check_header-inside inside = ground (arith, v.e_ehsize, v.e_phentsize, check_table-inside inside)

  check_header-overflow :
      h.e_phnum ≢ 0 → 2 ^ 64 ≤ h.e_phoff + 56 * h.e_phnum → check_header file h ≡ panic
  unfolding check_header check_table
  check_header-overflow some_headers big = ground (
    arith,
    v.e_ehsize,
    v.e_phentsize,
    get_range-overflow file h.e_phoff (h.e_phentsize * h.e_phnum) (omega (arith, table_size)),
  )

  -- A header whose table of program headers lies in the file is read back.
  pub parse-encode_header :
      (h.e_phnum ≢ 0 → h.e_phoff + 56 * h.e_phnum ≤ 64 + length rest)
      → parse (encode_header h ++ rest)
        ≡ done (ok (record { bytes = encode_header h ++ rest; hdr = h }))
  unfolding file
  parse-encode_header inside = parse-checked (rw (check_header-inside inside))

  -- If the end of the table leaves the word, the parser panics, although it has an error for a table out
  -- of bounds.
  pub parse_panics :
      h.e_phnum ≢ 0 → 2 ^ 64 ≤ h.e_phoff + 56 * h.e_phnum → parse (encode_header h ++ rest) ≡ panic
  unfolding file
  parse_panics some_headers big = parse-checked (rw (check_header-overflow some_headers big))

pub record IsPhdr (p : Elf64Phdr) : Type 0 where
  pub p_type : p.p_type < 2 ^ 32
  pub p_flags : p.p_flags < 2 ^ 32
  pub p_offset : p.p_offset < 2 ^ 64
  pub p_vaddr : p.p_vaddr < 2 ^ 64
  pub p_paddr : p.p_paddr < 2 ^ 64
  pub p_filesz : p.p_filesz < 2 ^ 64
  pub p_memsz : p.p_memsz < 2 ^ 64
  pub p_align : p.p_align < 2 ^ 64

abbrev pub encode_phdr : Elf64Phdr → List ℕ
encode_phdr p =
    le_bytes 4 p.p_type
    ++ (le_bytes 4 p.p_flags
        ++ (le_bytes 8 p.p_offset
            ++ (le_bytes 8 p.p_vaddr
                ++ (le_bytes 8 p.p_paddr
                    ++ (le_bytes 8 p.p_filesz ++ (le_bytes 8 p.p_memsz ++ le_bytes 8 p.p_align))))))

-- The 56 bytes of a program header are read back.
pub parse_one-encode_phdr : (p : Elf64Phdr) → IsPhdr p → parse_one (encode_phdr p) ≡ done (ok p)
unfolding parse_one
parse_one-encode_phdr p v = rw (
  read_le-le_bytes 4 p.p_type v.p_type,
  read_le-le_bytes 4 p.p_flags v.p_flags,
  read_le-le_bytes 8 p.p_offset v.p_offset,
  read_le-le_bytes 8 p.p_vaddr v.p_vaddr,
  read_le-le_bytes 8 p.p_paddr v.p_paddr,
  read_le-le_bytes 8 p.p_filesz v.p_filesz,
  read_le-le_bytes 8 p.p_memsz v.p_memsz,
  read_le-le_bytes 8 p.p_align v.p_align,
)
