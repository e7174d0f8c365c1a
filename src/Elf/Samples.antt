-- ===== src/Elf/Samples.antt =====
-- A file with one loadable program header: two bytes of data, three in memory.
use rv.Base.{ℕ, ◌^◌, ◌<◌, ◌≡◌, refl, arith, List, [], ◌∷◌, ◌++◌, done, ok}
use rv.Elf.{Elf64Header, Elf64Phdr, Elf64, parse}
use rv.Elf.Encode.{IsHeader, encode_header, encode_phdr, parse-encode_header}

abbrev pub hdr : Elf64Header
hdr = record {
  e_type = 2;
  e_machine = 0xf3;
  e_version = 1;
  e_entry = 0x10000;
  e_phoff = 64;
  e_shoff = 0;
  e_flags = 4;
  e_ehsize = 64;
  e_phentsize = 56;
  e_phnum = 1;
  e_shentsize = 64;
  e_shnum = 0;
  e_shstrndx = 0;
}

abbrev pub ph : Elf64Phdr
ph = record {
  p_type = 1;
  p_flags = 5;
  p_offset = 120;
  p_vaddr = 0x10000;
  p_paddr = 0x10000;
  p_filesz = 2;
  p_memsz = 3;
  p_align = 4096;
}

abbrev pub rest : List ℕ
rest = encode_phdr ph ++ (7 ∷ 9 ∷ [])

abbrev pub file : List ℕ
file = encode_header hdr ++ rest

abbrev pub elf : Elf64
elf = record { bytes = file; hdr = hdr }

pub at-IsHeader : (off : ℕ) → off < 2 ^ 64 → IsHeader (record hdr { e_phoff = off })
at-IsHeader off h = record {
  e_type = omega arith;
  e_machine = omega arith;
  e_version = omega arith;
  e_entry = omega arith;
  e_phoff = h;
  e_shoff = omega arith;
  e_flags = omega arith;
  e_ehsize = refl;
  e_phentsize = refl;
  e_phnum = omega arith;
  e_shentsize = omega arith;
  e_shnum = omega arith;
  e_shstrndx = omega arith;
}

pub parsed : parse file ≡ done (ok elf)
parsed =
    parse-encode_header hdr rest (at-IsHeader 64 (omega arith)) (omega arith) (λ n. omega arith)

-- The same with a header that is not to be loaded.
abbrev pub note_file : List ℕ
note_file = encode_header hdr ++ (encode_phdr (record ph { p_type = 4 }) ++ (7 ∷ 9 ∷ []))

abbrev pub note_elf : Elf64
note_elf = record { bytes = note_file; hdr = hdr }

pub note_parsed : parse note_file ≡ done (ok note_elf)
note_parsed =
    parse-encode_header hdr (encode_phdr (record ph { p_type = 4 }) ++ (7 ∷ 9 ∷ []))
      (at-IsHeader 64 (omega arith)) (omega arith) (λ n. omega arith)
