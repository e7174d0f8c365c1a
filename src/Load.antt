-- ===== src/Load.antt =====
-- The process loader of kernel/src/proc/elf/mod.rs: `build_load_plan` and `load_elf_into`.
pub mod Loader
pub mod Pages
pub mod Riscv
pub mod Plan
pub mod Fill
pub mod Segments
mod Tests
use rv.Base.{ℕ, zero, suc, ◌+◌, ◌-◌, bit_or, Bool, true, false, not, ◌&&◌, ◌||◌, Option, none, some}
use rv.Base.{
  List, [], ◌∷◌, length, set, take, Run, done, panic, Result, ok, err, ◌==◌, ltb, leb,
  if◌then◌else◌,
}
use rv.Base.Word.{is_power_of_two}
use rv.Base.Fallible.{R, ◌>>=◌, ◌>>◌, pure, throw, lift, ensure, map_err}
use rv.Addr.Virt
use rv.Addr.Virt.{VirtAddr}
use rv.Elf
use rv.Elf.{
  ElfError, Elf64, Elf64Phdr, ProgramHeaderIter, parse, program_headers, segment_data, is_load,
  is_readable, is_writable, has_exec,
}
use rv.Mmu.Entry.SegmentFlags

pub data ElfLoadError : Type 0 where
  bad_elf : ElfError → ElfLoadError
  unsupported out_of_bounds misaligned too_many_segments address_not_allowed : ElfLoadError
  map_failed copy_failed zero_failed : ElfLoadError

pub record LoadSegment : Type 0 where
  pub vaddr : VirtAddr
  pub mem_size : ℕ
  pub file_data : List ℕ
  pub file_off : ℕ
  pub flags : ℕ
  pub align : ℕ

-- `LoadSegment::default()`
abbrev pub default_segment : LoadSegment
default_segment = record {
  vaddr = 0;
  mem_size = 0;
  file_data = [];
  file_off = 0;
  flags = 0;
  align = 0;
}

pub record LoadPolicy : Type 0 where
  pub allow_wx : Bool
  pub pie_base_hint : ℕ
  pub max_segments : ℕ

pub record LoadPlan : Type 0 where
  pub entry : VirtAddr
  pub segments : List LoadSegment

unfoldable pub segment_flags : Elf64Phdr → ℕ
unfolding is_readable is_writable has_exec
segment_flags ph =
    let f0 : ℕ = if is_readable ph then SegmentFlags.r else 0 in
    let f1 = if is_writable ph then bit_or f0 SegmentFlags.w else f0 in
    if has_exec ph then bit_or f1 SegmentFlags.x else f1

-- The body of the loop for a loadable header, from `segment_data` on.
unfoldable pub segment_of : Elf64 → Elf64Phdr → R ElfLoadError LoadSegment
segment_of elf ph = do
  file_data ← map_err bad_elf (segment_data elf ph)
  vaddr ← lift (Virt.new ph.p_vaddr)
  ensure (not (ph.p_align == 0) && is_power_of_two ph.p_align) misaligned
  aligned ← lift (Virt.is_aligned vaddr ph.p_align)
  ensure aligned misaligned
  ensure (leb (length file_data) ph.p_memsz) out_of_bounds
  pure (record {
    vaddr = vaddr;
    mem_size = ph.p_memsz;
    file_data = file_data;
    file_off = ph.p_offset;
    flags = segment_flags ph;
    align = ph.p_align;
  })

-- The loop over `program_headers().enumerate()`, on fuel; `i` is the index of the next header.
unfoldable pub fill :
    ℕ
    → LoadPolicy
    → Elf64
    → ProgramHeaderIter
    → ℕ
    → List LoadSegment
    → R ElfLoadError (List LoadSegment)
fill zero policy elf it i ph_buf = panic
fill (suc fuel) policy elf it i ph_buf = elim (Elf.next it) [
  | panic ↦ panic
  | done none ↦ pure ph_buf
  | done (some (err e, it')) ↦ throw (bad_elf e)
  | done (some (ok ph, it')) ↦ elim (is_load ph) [
    | false ↦ fill fuel policy elf it' (i + 1) ph_buf
    | true ↦ elim (leb (length ph_buf) i || leb policy.max_segments i) [
      | true ↦ throw too_many_segments
      | false ↦ elim (segment_of elf ph) [
        | panic ↦ panic
        | done (err e) ↦ throw e
        | done (ok seg) ↦ fill fuel policy elf it' (i + 1) (set ph_buf i seg)
      ]
    ]
  ]
]

-- `program_headers().count()`, on fuel; `n` counts the items so far.
unfoldable pub count_items : ℕ → ProgramHeaderIter → ℕ → Run ℕ
count_items zero it n = panic
count_items (suc fuel) it n = elim (Elf.next it) [
  | panic ↦ panic
  | done none ↦ done n
  | done (some (item, it')) ↦ count_items fuel it' (n + 1)
]

-- `&ph_buf[..n]`
unfoldable pub prefix : List LoadSegment → ℕ → Run (List LoadSegment)
prefix ph_buf n = if leb n (length ph_buf) then done (take n ph_buf) else panic

-- One round for each header, and one for the end.
unfoldable pub build_load_plan : List ℕ → LoadPolicy → List LoadSegment → R ElfLoadError LoadPlan
build_load_plan bytes policy ph_buf = do
  elf ← map_err bad_elf (parse bytes)
  filled ← fill (elf.hdr.e_phnum + 1) policy elf (program_headers elf) 0 ph_buf
  entry ← lift (Virt.new elf.hdr.e_entry)
  n ← lift (count_items (elf.hdr.e_phnum + 1) (program_headers elf) 0)
  segments ← lift (prefix filled n)
  pure (record { entry = entry; segments = segments })
