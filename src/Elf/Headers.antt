-- ===== src/Elf/Headers.antt =====
-- What a successful parse promises, and that the program headers can then all be read.
use native.Mathlib.Nat.{mul-le-mul_right}
use rv.Base.{inl, inr, subst}
use rv.Base.{ℕ, ◌+◌, ◌-◌, ◌*◌, ◌^◌, ◌≤◌, ◌<◌, ◌≡◌, ◌≢◌, refl, sym, ap, arith, some, none}
use rv.Base.{List, length, length-slice, slice, take, done, Result, ok}
use rv.Base.Fallible.{>>=-eq-ok, R-cases, pure}
use rv.Elf.{
  ElfError, Elf64Header, Elf64, Elf64Phdr, ProgramHeaderIter, read_le, get_range, read_header,
  check_table, check_header, parse,
}
use rv.Elf.{program_headers, parse_one, read_item, next, le_value}
use rv.Elf.Ranges.{get_range-inside, get_range-inv, read_le-enough}

-- The size of the header is right, and the table of program headers lies in the file.
pub record IsChecked (bytes : List ℕ) (h : Elf64Header) : Type 0 where
  pub header_size : h.e_ehsize ≡ 64
  pub entry_size : h.e_phnum ≢ 0 → h.e_phentsize ≡ 56
  pub table : h.e_phnum ≢ 0 → h.e_phoff + h.e_phentsize * h.e_phnum ≤ length bytes

check_table-inv :
    (bytes : List ℕ) (h : Elf64Header)
    → check_table bytes h ≡ done (ok tt)
    → h.e_phnum ≢ 0
    → h.e_phoff + h.e_phentsize * h.e_phnum ≤ length bytes
unfolding check_table
check_table-inv bytes h e some_there =
    let (s, got, _) =
      >>=-eq-ok (get_range bytes h.e_phoff (h.e_phentsize * h.e_phnum)) (λ _. pure tt)
        (ground (arith, e)) in
    (get_range-inv bytes h.e_phoff (h.e_phentsize * h.e_phnum) got).0

check_header-IsChecked :
    (bytes : List ℕ) (h : Elf64Header) → check_header bytes h ≡ done (ok tt) → IsChecked bytes h
unfolding check_header
check_header-IsChecked bytes h e = record {
  header_size = ground arith;
  entry_size = λ n. ground arith;
  table = check_table-inv bytes h (ground arith);
}

parse_parts :
    (bytes : List ℕ) {elf : Elf64}
    → parse bytes ≡ done (ok elf)
    → (h : Elf64Header) × (check_header bytes h ≡ done (ok tt))
      × (elf ≡ record { bytes = bytes; hdr = h })
unfolding parse
parse_parts bytes e = elim (R-cases (read_header bytes)) [
  | inl (h, got) ↦ (h, ground (arith, e, got), ground (arith, e, got))
  | inr (inl (x, got)) ↦ absurd (ground (arith, e, got))
  | inr (inr got) ↦ absurd (ground (arith, e, got))
]

module _ (bytes : List ℕ) (elf : Elf64) (parsed : parse bytes ≡ done (ok elf)) where
  -- A parsed file is the bytes that were given, with a header that passed the checks.
  pub parse-IsChecked : (elf.bytes ≡ bytes) × IsChecked bytes elf.hdr
  parse-IsChecked =
      let (h, c, e) = parse_parts bytes parsed in rw e (refl, check_header-IsChecked bytes h c)

-- The field in bytes `start` to `end`.
unfoldable pub part : List ℕ → ℕ → ℕ → ℕ
part ph start end = le_value (take (end - start) (slice ph start end))

-- The program header in 56 bytes.
unfoldable pub phdr_of : List ℕ → Elf64Phdr
unfolding part
phdr_of ph = record {
  p_type = part ph 0x0 0x4;
  p_flags = part ph 0x4 0x8;
  p_offset = part ph 0x8 0x10;
  p_vaddr = part ph 0x10 0x18;
  p_paddr = part ph 0x18 0x20;
  p_filesz = part ph 0x20 0x28;
  p_memsz = part ph 0x28 0x30;
  p_align = part ph 0x30 0x38;
}

read_part :
    (ph : List ℕ) (start end : ℕ)
    → start ≤ end
    → end ≤ length ph
    → read_le (end - start) (slice ph start end) ≡ done (ok (part ph start end))
unfolding part
read_part ph start end le inside =
    read_le-enough (end - start) (slice ph start end)
      (omega (arith, length-slice ph start end le inside))

pub parse_one-long : (ph : List ℕ) → 56 ≤ length ph → parse_one ph ≡ done (ok (phdr_of ph))
unfolding parse_one phdr_of
parse_one-long ph h = ground (
  arith,
  read_part ph 0x0 0x4,
  read_part ph 0x4 0x8,
  read_part ph 0x8 0x10,
  read_part ph 0x10 0x18,
  read_part ph 0x18 0x20,
  read_part ph 0x20 0x28,
  read_part ph 0x28 0x30,
  read_part ph 0x30 0x38,
)

next-item :
    (it : ProgramHeaderIter) (item : Result ElfError Elf64Phdr)
    → it.idx < it.count
    → it.off + it.idx * it.entsz < 2 ^ 64
    → read_item it (it.off + it.idx * it.entsz) ≡ done item
    → next it ≡ done (some (item, record it { idx = it.idx + 1 }))
unfolding next
next-item it item h word e = ground (arith, e)

pub next-end : (it : ProgramHeaderIter) → it.count ≤ it.idx → next it ≡ done none
unfolding next
next-end it h = ground arith

-- The bytes of program header `i`.
abbrev pub entry_bytes : Elf64 → ℕ → List ℕ
entry_bytes elf i =
    slice elf.bytes (elf.hdr.e_phoff + i * elf.hdr.e_phentsize)
      (elf.hdr.e_phoff + i * elf.hdr.e_phentsize + elf.hdr.e_phentsize)

abbrev pub iter_at : Elf64 → ℕ → ProgramHeaderIter
iter_at elf i = record (program_headers elf) { idx = i }

module _ (elf : Elf64) (c : IsChecked elf.bytes elf.hdr) (word : length elf.bytes < 2 ^ 64) where
  entry_inside :
      (i : ℕ)
      → i < elf.hdr.e_phnum
      → elf.hdr.e_phoff + i * elf.hdr.e_phentsize + elf.hdr.e_phentsize ≤ length elf.bytes
  entry_inside i h = omega (
    arith,
    c.table (omega arith),
    mul-le-mul_right {m = i + 1} {n = elf.hdr.e_phnum} elf.hdr.e_phentsize (omega arith),
  )

  read_item-entry :
      (i : ℕ)
      → i < elf.hdr.e_phnum
      → read_item (iter_at elf i) (elf.hdr.e_phoff + i * elf.hdr.e_phentsize)
        ≡ done (ok (phdr_of (entry_bytes elf i)))
  unfolding read_item program_headers
  read_item-entry i h =
      rw
        (get_range-inside elf.bytes (elf.hdr.e_phoff + i * elf.hdr.e_phentsize) elf.hdr.e_phentsize
          (entry_inside i h) word)
        (parse_one-long (entry_bytes elf i) long)
    where
      long : 56 ≤ length (entry_bytes elf i)
      long = omega (
        arith,
        c.entry_size (omega arith),
        length-slice elf.bytes (elf.hdr.e_phoff + i * elf.hdr.e_phentsize)
            (elf.hdr.e_phoff + i * elf.hdr.e_phentsize + elf.hdr.e_phentsize) (omega arith)
            (entry_inside i h),
      )

  -- From a file whose header passed the checks, every program header is read without an error.
  pub next-entry :
      (i : ℕ)
      → i < elf.hdr.e_phnum
      → next (iter_at elf i) ≡ done (some (ok (phdr_of (entry_bytes elf i)), iter_at elf (i + 1)))
  unfolding program_headers
  next-entry i h =
      next-item (iter_at elf i) (ok (phdr_of (entry_bytes elf i))) h
        (omega (arith, entry_inside i h)) (read_item-entry i h)

-- In a file that `parse` accepts, below 2 ^ 64 bytes, the iterator of program headers gives each entry of
-- the table in turn, decoded from its 56 bytes, and never an error or a panic.
pub parse-next :
    (bytes : List ℕ) (elf : Elf64)
    → parse bytes ≡ done (ok elf)
    → length bytes < 2 ^ 64
    → (i : ℕ) → i < elf.hdr.e_phnum
    → next (iter_at elf i) ≡ done (some (ok (phdr_of (entry_bytes elf i)), iter_at elf (i + 1)))
parse-next bytes elf parsed word i h =
    let (same, c) = parse-IsChecked bytes elf parsed in
    next-entry elf (subst (λ b. IsChecked b elf.hdr) (sym same) c) (omega (arith, ap length same)) i
      h
