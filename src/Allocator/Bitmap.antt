-- ===== src/Allocator/Bitmap.antt =====
-- `BitmapAllocator<N>` of kernel/src/mm/allocator/bitmap.rs, for a page size `n`.
pub mod Scan
pub mod Find
pub mod Pages
pub mod Alloc
pub mod Free
pub mod Live
pub mod Init
mod Tests
use rv.Base.{
  ℕ, zero, suc, ◌+◌, ◌-◌, ◌*◌, ◌/◌, Bool, true, false, not, ◌&&◌, ◌||◌, Option, none, some,
}
use rv.Base.{List, set, replicate, Run, done, panic, Result, ok, err, index, ◌>>=◌}
use rv.Base.{◌==◌, ltb, if◌then◌else◌}
use mathlib.Core.Bool.{cond}
use rv.Base.Word
use rv.Base.Word.{is_power_of_two}
use rv.Addr.Phys
use rv.Addr.Phys.{PhysAddr}
use rv.Allocator.{AllocatorError, unaligned_address, invalid_page_size, Frame, null}

-- `PageFlags`, a set of two flags, which is all that a `PageDescriptor` holds.
pub record PageFlags : Type 0 where
  pub taken : Bool
  pub last : Bool

abbrev pub empty : PageFlags
empty = record { taken = false; last = false }

-- `intersects(TAKEN | LAST)`
abbrev pub is_busy : PageFlags → Bool
is_busy f = f.taken || f.last

-- `*flags == PageFlags::empty()`
abbrev pub is_empty : PageFlags → Bool
is_empty f = not f.taken && not f.last

pub record Bitmap : Type 0 where
  pub descriptors : List PageFlags
  pub base_addr : PhysAddr
  pub num_pages : ℕ

-- `size_of::<PageDescriptor>()`, a `u8`.
abbrev pub descriptor_size : ℕ
descriptor_size = 1

-- The part of `init` after its checks. The table of descriptors stands at `start`; here it is a list.
pub init_pages : (n : ℕ) → PhysAddr → PhysAddr → Run Bitmap
init_pages n start end = do
  total_mem_size ← Phys.sub end start
  reserved_mem ← Word.mul (total_mem_size / n) descriptor_size
  table_end ← Phys.add start reserved_mem
  avail_mem_start ← Phys.align_up table_end n
  avail_mem_size ← Phys.sub end avail_mem_start
  let avail_pages = avail_mem_size / n
  done (record {
    descriptors = replicate avail_pages empty;
    base_addr = avail_mem_start;
    num_pages = avail_pages;
  })

pub init_aligned : (n : ℕ) → PhysAddr → PhysAddr → Run (Result AllocatorError Bitmap)
unfolding init_pages
init_aligned n start end = do
  s ← Phys.is_aligned start n
  e ← Phys.is_aligned end n
  cond (not s || not e) (done (err unaligned_address)) (init_pages n start end >>= λ b. done (ok b))

pub init : (n : ℕ) → PhysAddr → PhysAddr → Run (Result AllocatorError Bitmap)
unfolding init_aligned
init n start end =
    if n == 0 || not (is_power_of_two n)
    then done (err invalid_page_size)
    else init_aligned n start end

-- `for j in x..x + count`: the first page of the range that is not free, if any. The second argument
-- is `j`, the third the rounds left.
pub scan : List PageFlags → ℕ → ℕ → Run (Option ℕ)
scan ds j zero = done none
scan ds j (suc left) = do
  d ← index ds j
  elim (is_busy d) [ true ↦ done (some j) | false ↦ scan ds (j + 1) left ]

-- The loop `'outer` up to the page where the allocation starts, on fuel. No sum leaves the word,
-- since `i < num_pages` and `count <= num_pages - i` where the sums are made.
pub find : ℕ → List PageFlags → ℕ → ℕ → ℕ → Run (Option ℕ)
find zero ds num_pages count i = panic
find (suc fuel) ds num_pages count i = elim (ltb i num_pages) [
  | false ↦ done none
  | true ↦ do
    d ← index ds i
    elim (is_busy d) [
      | true ↦ find fuel ds num_pages count (i + 1)
      | false ↦ elim (ltb (num_pages - i) count) [
        | true ↦ done none
        | false ↦ do
          taken ← scan ds i count
          elim taken [ some j ↦ find fuel ds num_pages count j | none ↦ done (some i) ]
      ]
    ]
]

-- `flags |= if j == i + count - 1 { LAST } else { TAKEN }`
abbrev pub mark_page : ℕ → ℕ → PageFlags → PageFlags
mark_page final j f = if j == final then record f { last = true } else record f { taken = true }

-- `for j in i..i + count`
pub mark : ℕ → List PageFlags → ℕ → ℕ → Run (List PageFlags)
mark final ds j zero = done ds
mark final ds j (suc left) = do
  d ← index ds j
  mark final (set ds j (mark_page final j d)) (j + 1) left

-- `num_pages + 1` rounds are enough for `find`: every round moves `i` up.
pub alloc : (n : ℕ) → Bitmap → ℕ → Run (Option Frame × Bitmap)
alloc n b count = do
  found ← find (b.num_pages + 1) b.descriptors b.num_pages count 0
  elim found [
    | none ↦ done (none, b)
    | some i ↦ do
      ds ← mark (i + count - 1) b.descriptors i count
      offset ← Word.mul i n
      paddr ← Phys.add b.base_addr offset
      done (some (record { paddr = paddr; ptr = null }), record b { descriptors = ds })
  ]

-- `for i in offset..self.num_pages`, which ends after the page that is marked `LAST`.
pub clear : List PageFlags → ℕ → ℕ → Run (List PageFlags)
clear ds i zero = done ds
clear ds i (suc left) = do
  f ← index ds i
  elim (is_empty f) [
    | true ↦ panic
    | false ↦ elim f.last [
      | true ↦ done (set ds i empty)
      | false ↦ clear (set ds i empty) (i + 1) left
    ]
  ]

pub free : (n : ℕ) → Bitmap → Frame → Run Bitmap
free n b frame = do
  distance ← Phys.sub frame.paddr b.base_addr
  ds ← clear b.descriptors (distance / n) (b.num_pages - distance / n)
  done (record b { descriptors = ds })
