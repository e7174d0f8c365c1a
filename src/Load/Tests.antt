-- ===== src/Load/Tests.antt =====
-- A load of the sample file into a memory that maps each address to its byte.
use native.Mathlib.Decide.{dec_lt}
use rv.Base.{
  ℕ, ◌+◌, ◌-◌, ◌<◌, ◌≡◌, refl, sym, subst, zero, suc, ◌∙◌, arith, Bool, true, false, ◌&&◌, List, [],
  ◌∷◌, length, get_elem?, inr, Option, none, some, ap, get_elem?-ge,
}
use rv.Base.{Run, done, panic, Result, ok, ltb, leb, if◌then◌else◌}
use rv.Base.Word.{is_power_of_two, is_power_of_two-pow}
use rv.Base.Stateful
use rv.Mmu.Entry.{contains}
use rv.Mmu.Entry.SegmentFlags
use rv.Addr.Virt
use rv.Addr.Align
use rv.Elf
use rv.Elf.Samples.{file, elf, parsed, note_file, note_elf, note_parsed}
use rv.Elf.Headers
use rv.Elf.Headers.{IsChecked, iter_at, entry_bytes, phdr_of}
use rv.Load.{
  LoadSegment, LoadPolicy, LoadPlan, default_segment, segment_flags, segment_of, fill, count_items,
  prefix, build_load_plan,
}
use rv.Load.Pages.{map_bounds}
use rv.Load.Fill.{header}
use rv.Load.Loader.{ElfLoader, load_segment, load_segments, load_elf_into, zero_tail, drop_write}
use rv.Load.Loader.Contents.{IsLoader}
use rv.Load.Loader.Image.{Fits}
use rv.Load.Loader.Placed.{IsApart, Misses, load_elf_into_allowed, load_elf_into_outside}
use rv.Load.Loader.Whole.{IsPlaced, load_elf_into-IsPlaced}
use rv.Load.Plan.{IsPlanned, build_load_plan-IsPlanned, build_load_plan_panics}

abbrev policy : LoadPolicy
policy = record { allow_wx = false; pie_base_hint = 0; max_segments = 4 }

abbrev buf : List LoadSegment
buf = default_segment ∷ default_segment ∷ []

abbrev seg : LoadSegment
seg = record {
  vaddr = 0x10000;
  mem_size = 3;
  file_data = 7 ∷ 9 ∷ [];
  file_off = 120;
  flags = 5;
  align = 4096;
}

abbrev plan : LoadPlan
plan = record { entry = 0x10000; segments = seg ∷ [] }

built : build_load_plan file policy buf ≡ done (ok plan)
unfolding build_load_plan fill count_items prefix segment_of segment_flags Elf.next Elf.read_item
    Elf.get_range Elf.parse_one Elf.read_le Elf.program_headers Elf.segment_data Elf.is_load
    Elf.is_readable Elf.is_writable Elf.has_exec Elf.parse Elf.check_header Elf.check_table
    Elf.check_ident Elf.read_header Elf.field_at Virt.new Virt.try_new Align.is_aligned
    is_power_of_two
built = refl

build_load_plan-IsPlanned_example : IsPlanned file buf plan
build_load_plan-IsPlanned_example =
    build_load_plan-IsPlanned file policy buf plan (omega arith) built

entry_ok : Virt.new 0x10000 ≡ done 0x10000
unfolding Virt.new Virt.try_new
entry_ok = refl

note_skipped : (k : ℕ) → k < 1 → Elf.is_load (header note_elf k) ≡ false
unfolding Elf.is_load phdr_of Headers.part
note_skipped zero h = refl
note_skipped (suc k) h = absurd (omega arith)

-- The caller's buffer is empty, and the file has a header that is skipped.
build_load_plan_panics_example : build_load_plan note_file policy [] ≡ panic
build_load_plan_panics_example =
    build_load_plan_panics note_file policy [] note_elf 0x10000 (omega arith) note_parsed entry_ok
      note_skipped (omega arith)

-- The byte at each address; every call succeeds.
abbrev Memory : Type 0
Memory = ℕ → ℕ

abbrev is_in : ℕ → ℕ → ℕ → Bool
is_in start len x = leb start x && ltb x (start + len)

abbrev or_zero : Option ℕ → ℕ
or_zero none = 0
or_zero (some b) = b

abbrev write : ℕ → List ℕ → Memory → Memory
write start src a x =
    if is_in start (length src) x then or_zero (get_elem? src (x - start)) else a x

abbrev clear : ℕ → ℕ → Memory → Memory
clear start len a x = if is_in start len x then 0 else a x

abbrev unit : Memory → Run (Result (Unit {0}) (Unit {0}) × Memory)
unit a = done (ok tt, a)

abbrev loader : ElfLoader Memory (Unit {0})
loader = record {
  validate_user_range = λ start len a. done (ok tt);
  map_anonymous = λ start len flags a. unit a;
  protect_range = λ start len flags a. unit a;
  copy_to_user = λ start src a. unit (write start src a);
  zero_user = λ start len a. unit (clear start len a);
  finalize_image = λ ranges a. unit a;
  page_size = 4096;
}

abbrev byte : Memory → ℕ → ℕ
byte a x = a x

-- A call that succeeds with `b` leaves `b`.
left : {a b : Memory} → unit a ≡ done (ok tt, b) → (x : ℕ) → b x ≡ a x
left e x = cc

write-inside :
    (start : ℕ) (src : List ℕ) (a : Memory) (i b : ℕ)
    → get_elem? src i ≡ some b
    → write start src a (start + i) ≡ b
write-inside start src a i b at = elim (dec_lt i (length src)) [
  | yes p ↦
      let back : start + i - start ≡ i = omega arith in ground (arith, ap (get_elem? src) back, at)
  | no p ↦ absurd (ground (arith, get_elem?-ge src i (omega arith), at))
]

laws : IsLoader loader byte
laws = record {
  power = is_power_of_two-pow 12 (omega arith);
  map_outside = λ start len flags a a' x e o. left e x;
  copy_inside = λ start src a a' i b e at. left e (start + i) ∙ write-inside start src a i b at;
  copy_outside = λ start src a a' x e o. left e x ∙ ground (arith, o);
  zero_inside = λ start len a a' i e h. left e (start + i) ∙ ground (arith, h);
  zero_outside = λ start len a a' x e o. left e x ∙ ground (arith, o);
  protect_same = λ start len flags a a' x e. left e x;
  finalize_same = λ ranges a a' x e. left e x;
}

abbrev before : Memory
before x = 0xff

abbrev after : Memory
after = clear 0x10002 1 (write 0x10000 (7 ∷ 9 ∷ []) before)

ran : load_elf_into loader file policy buf before ≡ done (ok plan, after)
unfolding load_elf_into load_segments load_segment zero_tail drop_write map_bounds Stateful.◌>>=◌
    Stateful.lift Stateful.stateless Stateful.ensure Stateful.map_err build_load_plan fill
    count_items prefix segment_of segment_flags Elf.next Elf.read_item Elf.get_range Elf.parse_one
    Elf.read_le Elf.program_headers Elf.segment_data Elf.is_load Elf.is_readable Elf.is_writable
    Elf.has_exec Elf.parse Elf.check_header Elf.check_table Elf.check_ident Elf.read_header
    Elf.field_at Virt.new Virt.try_new Virt.add Virt.sub Virt.align_up Virt.align_down
    Align.align_up Align.align_down Align.is_aligned is_power_of_two
ran = refl

one_segment : (k : ℕ) (s : LoadSegment) → get_elem? plan.segments k ≡ some s → (k ≡ 0) × (s ≡ seg)
one_segment zero s e = (refl, cc)
one_segment (suc k) s e = cc

apart : IsApart 4096 plan.segments
apart = record {
  fits = λ k s e.
      subst (λ t. Fits 4096 t) (sym (one_segment k s e).1)
        (record { contents = omega arith; room = omega arith });
  apart = λ j k s later h e e' i hi. absurd (omega (arith, (one_segment k later e').0));
}

load_elf_into_allowed_example : contains 5 SegmentFlags.w && contains 5 SegmentFlags.x ≡ false
load_elf_into_allowed_example =
    load_elf_into_allowed loader file policy buf plan before after refl ran 0 seg refl

missed : Misses 4096 seg 0x20000
missed = inr (omega arith)

-- Address 0x20000 is in no page of the segment.
beyond : (k : ℕ) (s : LoadSegment) → get_elem? plan.segments k ≡ some s → Misses 4096 s 0x20000
beyond k s e = subst (λ t. Misses 4096 t 0x20000) (sym (one_segment k s e).1) missed

load_elf_into_outside_example : byte after 0x20000 ≡ byte before 0x20000
load_elf_into_outside_example =
    load_elf_into_outside loader byte laws file policy buf plan before after apart ran 0x20000
      beyond

loadable : Elf.is_load (header elf 0) ≡ true
unfolding Elf.is_load phdr_of Headers.part
loadable = refl

load_elf_into-IsPlaced_example : IsPlaced byte after file (header elf 0)
load_elf_into-IsPlaced_example =
    load_elf_into-IsPlaced loader byte laws file policy buf plan before after elf (omega arith)
      parsed apart ran 0 (omega arith) loadable
