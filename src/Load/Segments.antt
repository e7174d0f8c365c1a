-- ===== src/Load/Segments.antt =====
-- What a segment of the plan promises.
use rv.Base.{ℕ, ◌+◌, ◌%◌, ◌≤◌, ◌≡◌, inl, inr, refl, arith}
use rv.Base.{true, List, length, slice, done, ok, Run-cases}
use rv.Base.Word.{is_power_of_two}
use rv.Base.Fallible.{R-cases}
use rv.Addr.Virt
use rv.Addr.Align.Round.{is_aligned-eq}
use rv.Elf.{Elf64, Elf64Phdr, segment_data}
use rv.Elf.Ranges.{get_range-inv}
use rv.Load.{LoadSegment, segment_of, segment_flags}

-- The segment is the one that the header describes; its data lies in the file and fits its memory; its
-- address is aligned to a power of two.
pub record IsSegment (elf : Elf64) (ph : Elf64Phdr) (seg : LoadSegment) : Type 0 where
  pub vaddr : Virt.new ph.p_vaddr ≡ done seg.vaddr
  pub mem_size : seg.mem_size ≡ ph.p_memsz
  pub in_file : ph.p_offset + ph.p_filesz ≤ length elf.bytes
  pub file_data : seg.file_data ≡ slice elf.bytes ph.p_offset (ph.p_offset + ph.p_filesz)
  pub file_off : seg.file_off ≡ ph.p_offset
  pub fits : length seg.file_data ≤ seg.mem_size
  pub flags : seg.flags ≡ segment_flags ph
  pub align : seg.align ≡ ph.p_align
  pub power : is_power_of_two seg.align ≡ true
  pub aligned : seg.vaddr % seg.align ≡ 0

planned : Elf64Phdr → List ℕ → ℕ → LoadSegment
planned ph s v = record {
  vaddr = v;
  mem_size = ph.p_memsz;
  file_data = s;
  file_off = ph.p_offset;
  flags = segment_flags ph;
  align = ph.p_align;
}

segment_of_parts :
    (elf : Elf64) (ph : Elf64Phdr) (seg : LoadSegment) (s : List ℕ) (v : ℕ)
    → segment_data elf ph ≡ done (ok s)
    → Virt.new ph.p_vaddr ≡ done v
    → segment_of elf ph ≡ done (ok seg)
    → IsSegment elf ph seg
unfolding segment_of planned segment_data
segment_of_parts elf ph seg s v got at e =
    let fits : length s ≤ ph.p_memsz = ground (arith, got, at, e) in
    let pow : is_power_of_two ph.p_align ≡ true = ground (arith, got, at, e) in
    let aligned : Virt.is_aligned v ph.p_align ≡ done true = ground (arith, got, at, e) in
    let same : seg ≡ planned ph s v = ground (arith, got, at, e) in
    rw same record {
      vaddr = at;
      mem_size = refl;
      in_file = (get_range-inv elf.bytes ph.p_offset ph.p_filesz got).0;
      file_data = (get_range-inv elf.bytes ph.p_offset ph.p_filesz got).1;
      file_off = refl;
      fits = fits;
      flags = refl;
      align = refl;
      power = pow;
      aligned = ground (arith, is_aligned-eq ph.p_align v pow, aligned);
    }

pub segment_of-IsSegment :
    (elf : Elf64) (ph : Elf64Phdr) (seg : LoadSegment)
    → segment_of elf ph ≡ done (ok seg)
    → IsSegment elf ph seg
unfolding segment_of
segment_of-IsSegment elf ph seg e = elim (R-cases (segment_data elf ph)) [
  | inl (s, got) ↦ elim (Run-cases (Virt.new ph.p_vaddr)) [
    | inl (v, at) ↦ segment_of_parts elf ph seg s v got at e
    | inr at ↦ absurd (ground (arith, e, got, at))
  ]
  | inr (inl (x, got)) ↦ absurd (ground (arith, e, got))
  | inr (inr got) ↦ absurd (ground (arith, e, got))
]
