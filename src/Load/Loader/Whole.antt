-- ===== src/Load/Loader/Whole.antt =====
-- From the file to the address space: the parser, the plan and the loader together.
use rv.Base.{ℕ, ◌+◌, ◌^◌, ◌≤◌, ◌<◌, ◌≡◌, refl, sym, ap, ◌∙◌, subst, arith, true, List, length}
use rv.Base.{done, ok, some, get_elem?, get_elem?-lt, get_elem?-ge, get_elem?-slice, length-slice}
use rv.Addr.Virt
use rv.Elf.{Elf64, Elf64Phdr, parse, is_load}
use rv.Elf.Headers.{parse-IsChecked}
use rv.Load.{LoadSegment, LoadPolicy, LoadPlan}
use rv.Load.Fill.{Slot, loaded, skipped, header}
use rv.Load.Plan.{build_load_plan-IsPlanned}
use rv.Load.Segments.{IsSegment, segment_of-IsSegment}
use rv.Load.Loader.{ElfLoader, load_elf_into}
use rv.Load.Loader.Contents.{IsLoader}
use rv.Load.Loader.Image.{IsImage, image}
use rv.Load.Loader.Placed.{IsApart, load_elf_into-parts, load_elf_into-IsImage}

-- From the header's address on, the address space holds the bytes of the file that the header names, and
-- zeros up to the size in memory.
pub record IsPlaced {A : Type 0} (byte : A → ℕ → ℕ) (a : A) (bytes : List ℕ) (ph : Elf64Phdr)
    : Type 0 where
  pub start : ℕ
  pub at : Virt.new ph.p_vaddr ≡ done start
  pub copied :
      (i : ℕ) → i < ph.p_filesz → get_elem? bytes (ph.p_offset + i) ≡ some (byte a (start + i))
  pub zeroed : (i : ℕ) → ph.p_filesz ≤ i → i < ph.p_memsz → byte a (start + i) ≡ 0

IsPlaced-IsSegment :
    {A : Type 0} (byte : A → ℕ → ℕ) (a : A) (elf : Elf64) (ph : Elf64Phdr) (seg : LoadSegment)
    → IsSegment elf ph seg
    → IsImage byte a seg
    → IsPlaced byte a elf.bytes ph
IsPlaced-IsSegment byte a elf ph seg s im = record {
  start = seg.vaddr;
  at = s.vaddr;
  copied = λ i h.
      let (b, at) = get_elem?-lt seg.file_data i (omega (arith, size, h)) in
      let small : i < seg.mem_size = omega (arith, size, h, s.fits) in
      let here : byte a (seg.vaddr + i) ≡ b = im i small ∙ rw (at, image) refl in
      let there : get_elem? elf.bytes (ph.p_offset + i) ≡ some b =
        sym (get_elem?-slice elf.bytes ph.p_offset ph.p_filesz i h)
        ∙ ap (λ (l : List ℕ). get_elem? l i) (sym s.file_data)
        ∙ at in
      there ∙ ap some (sym here);
  zeroed = λ i h h'.
      im i (omega (arith, s.mem_size, h'))
      ∙ rw (get_elem?-ge seg.file_data i (omega (arith, size, h)), image) refl;
}
  where
    size : length seg.file_data ≡ ph.p_filesz
    size =
        ap length s.file_data
        ∙ length-slice elf.bytes ph.p_offset (ph.p_offset + ph.p_filesz) (omega arith) s.in_file
        ∙ omega arith

-- The slot of a loadable header is a checked segment.
Slot-IsSegment :
    (elf : Elf64) (old new : List LoadSegment) (k : ℕ)
    → Slot elf old new k
    → is_load (header elf k) ≡ true
    → (seg : LoadSegment) × (get_elem? new k ≡ some seg) × IsSegment elf (header elf k) seg
Slot-IsSegment elf old new k (loaded seg l at got) load =
    (seg, at, segment_of-IsSegment elf (header elf k) seg got)
Slot-IsSegment elf old new k (skipped l at) load = cc

same_elf :
    (bytes : List ℕ) {x y : Elf64} → parse bytes ≡ done (ok x) → parse bytes ≡ done (ok y) → x ≡ y
same_elf bytes p q = cc

module _ {A E : Type 0} (loader : ElfLoader A E) (byte : A → ℕ → ℕ)
    (laws : IsLoader loader byte) where
  -- Where the segments of the plan fit and are apart, a load that succeeds places every loadable
  -- program header of the file.
  pub load_elf_into-IsPlaced :
      (bytes : List ℕ) (policy : LoadPolicy) (buf : List LoadSegment) (plan : LoadPlan) (a a' : A)
      (elf : Elf64)
      → length bytes < 2 ^ 64
      → parse bytes ≡ done (ok elf)
      → IsApart loader.page_size plan.segments
      → load_elf_into loader bytes policy buf a ≡ done (ok plan, a')
      → (k : ℕ) → k < elf.hdr.e_phnum
      → is_load (header elf k) ≡ true
      → IsPlaced byte a' bytes (header elf k)
  load_elf_into-IsPlaced bytes policy buf plan a a' elf word parsed w e k h load =
      let (m, planned, run, final) = load_elf_into-parts loader bytes policy buf plan a a' e in
      let p = build_load_plan-IsPlanned bytes policy buf plan word planned in
      let same : elf ≡ p.elf = same_elf bytes parsed p.parsed in
      let (bs, c) = parse-IsChecked bytes elf parsed in
      let slot =
        subst (λ (q : Elf64). k < q.hdr.e_phnum → Slot q buf plan.segments k) (sym same) (p.slots k)
          h in
      let (seg, at, s) = Slot-IsSegment elf buf plan.segments k slot load in
      let im = load_elf_into-IsImage loader byte laws bytes policy buf plan a a' w e k seg at in
      subst (λ b. IsPlaced byte a' b (header elf k)) bs
        (IsPlaced-IsSegment byte a' elf (header elf k) seg s im)
