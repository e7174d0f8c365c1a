-- ===== src/Elf/Tests.antt =====
-- A file with one loadable program header, and one whose table ends beyond the word.
use rv.Base.{◌+◌, ◌≡◌, arith, ◌++◌, done, panic, ok, some}
use rv.Elf.{Elf64Header, parse, next}
use rv.Elf.Encode.{encode_header, parse-encode_header, parse_panics}
use rv.Elf.Samples.{hdr, rest, file, elf, at-IsHeader, parsed}
use rv.Elf.Headers.{iter_at, entry_bytes, phdr_of, parse-next}

parse-encode_header_example : parse (encode_header hdr ++ rest) ≡ done (ok elf)
parse-encode_header_example =
    parse-encode_header hdr rest (at-IsHeader 64 (omega arith)) (omega arith) (λ n. omega arith)

-- The same header with its table at the end of the word.
abbrev far : Elf64Header
far = record hdr { e_phoff = 0xffff_ffff_ffff_fff8 }

parse_panics_example : parse (encode_header far ++ rest) ≡ panic
parse_panics_example =
    parse_panics far rest (at-IsHeader 0xffff_ffff_ffff_fff8 (omega arith)) (omega arith)
      (omega arith) (omega arith)

parse-next_example :
    next (iter_at elf 0) ≡ done (some (ok (phdr_of (entry_bytes elf 0)), iter_at elf (0 + 1)))
parse-next_example = parse-next file elf parsed (omega arith) 0 (omega arith)
