-- ===== src/Allocator/Bitmap/Alloc.antt =====
-- `alloc` takes the first free range, or changes nothing.
use native.Mathlib.Nat.{mul-le-mul_right}
use rv.Base.{ℕ, ◌+◌, ◌-◌, ◌*◌, ◌^◌, ◌≤◌, ◌<◌, ◌≡◌, ◌⊎◌, inl, inr, refl, subst, arith}
use rv.Base.{Option, none, some, List, Run, done, panic, length, ◌>>=◌}
use rv.Base.Word
use rv.Addr.Phys
use rv.Allocator.{Frame, null}
use rv.Allocator.Bitmap.{PageFlags, Bitmap, find, mark, alloc}
use rv.Allocator.Bitmap.Scan.{Fits}
use rv.Allocator.Bitmap.Find.{FindEnds, find-FindEnds}
use rv.Allocator.Bitmap.Pages.{IsChunk, SameOutside, mark-IsChunk}

-- The table has a descriptor for each page, and the pages lie in the 56-bit physical memory.
pub record IsValid (n : ℕ) (b : Bitmap) : Type 0 where
  pub page_size : 1 ≤ n
  pub table : length b.descriptors ≡ b.num_pages
  pub in_memory : b.base_addr + b.num_pages * n < 2 ^ 56

-- The frame that starts at page `i`.
abbrev pub frame_at : ℕ → Bitmap → ℕ → Frame
frame_at n b i = record { paddr = b.base_addr + i * n; ptr = null }

page_addr :
    (n : ℕ) (b : Bitmap) (i : ℕ)
    → IsValid n b
    → i ≤ b.num_pages
    → (Word.mul i n >>= Phys.add b.base_addr) ≡ done (b.base_addr + i * n)
page_addr n b i v h = ground (arith, mul-le-mul_right n h, v.in_memory)

-- A successful allocation of `count` pages at page `i`.
pub record IsAllocated (n : ℕ) (b : Bitmap) (count : ℕ) (r : Run (Option Frame × Bitmap))
    : Type 0 where
  pub i : ℕ
  pub out : List PageFlags
  pub returns : r ≡ done (some (frame_at n b i), record b { descriptors = out })
  pub fits : Fits b.descriptors count i
  pub first : (s : ℕ) → s < i → ¬ Fits b.descriptors count s
  pub same : SameOutside b.descriptors out i count
  pub chunk : IsChunk out i count

module _ (n : ℕ) (b : Bitmap) (count : ℕ) (v : IsValid n b) where
  alloc_none :
      find (b.num_pages + 1) b.descriptors b.num_pages count 0 ≡ done none
      → alloc n b count ≡ done (none, b)
  unfolding alloc
  alloc_none e = rw e

  alloc_some :
      (i : ℕ) (out : List PageFlags)
      → find (b.num_pages + 1) b.descriptors b.num_pages count 0 ≡ done (some i)
      → mark (i + count - 1) b.descriptors i count ≡ done out
      → i ≤ b.num_pages
      → alloc n b count ≡ done (some (frame_at n b i), record b { descriptors = out })
  unfolding alloc
  alloc_some i out e m h = ground (arith, e, m, page_addr n b i v h)

  find_from_start :
      FindEnds b.descriptors count 0 (find (b.num_pages + 1) b.descriptors b.num_pages count 0)
  find_from_start =
      subst
        (λ (p : ℕ). FindEnds b.descriptors count 0 (find (b.num_pages + 1) b.descriptors p count 0))
        v.table
        (find-FindEnds (b.num_pages + 1) b.descriptors count 0 (omega (arith, v.table))
          (omega arith))

  abbrev pub Outcome : Type 0
  Outcome =
      IsAllocated n b count (alloc n b count)
      ⊎ ((alloc n b count ≡ done (none, b)) × ((s : ℕ) → ¬ Fits b.descriptors count s))

  outcome_of_find :
      0 < count
      → (r : Run (Option ℕ)) → find (b.num_pages + 1) b.descriptors b.num_pages count 0 ≡ r
      → FindEnds b.descriptors count 0 r
      → Outcome
  outcome_of_find pos (done none) e ends = inr (alloc_none e, λ s. ends s (omega arith))
  outcome_of_find pos (done (some i)) e ends =
      let m = mark-IsChunk b.descriptors i count pos ends.1.inside ends.1.free_pages in
      inl (record {
        i = i;
        out = m.0;
        returns = alloc_some i m.0 e m.1 (omega (arith, ends.1.inside, v.table));
        fits = ends.1;
        first = λ s h. ends.2 s (omega arith) h;
        same = m.2;
        chunk = m.3;
      })
  outcome_of_find pos panic e ends = absurd ends

  -- On a valid allocator `alloc` of at least one page returns, without a panic. Either it hands out the
  -- first range of free pages that is long enough, marks exactly this range as one allocation and
  -- leaves all other pages alone; or no such range exists, and it returns `None` and changes nothing.
  pub alloc_outcome : 0 < count → Outcome
  alloc_outcome pos = outcome_of_find pos _ refl find_from_start

module _ (n : ℕ) (b : Bitmap) (v : IsValid n b) where
  abbrev OutcomeZero : Type 0
  OutcomeZero =
      (alloc n b 0 ≡ done (none, b))
      ⊎ ((i : ℕ) × (alloc n b 0 ≡ done (some (frame_at n b i), b)) × Fits b.descriptors 0 i)

  outcome_zero_of_find :
      (r : Run (Option ℕ))
      → find (b.num_pages + 1) b.descriptors b.num_pages 0 0 ≡ r
      → FindEnds b.descriptors 0 0 r
      → OutcomeZero
  unfolding mark
  outcome_zero_of_find (done none) e ends = inl (alloc_none n b 0 v e)
  outcome_zero_of_find (done (some i)) e ends =
      inr (
        i,
        alloc_some n b 0 v i b.descriptors e refl (omega (arith, ends.1.inside, v.table)),
        ends.1,
      )
  outcome_zero_of_find panic e ends = absurd ends

  -- An allocation of no pages changes nothing, and the frame that it returns, if any, is a page that is
  -- still free.
  pub alloc-zero :
      (alloc n b 0 ≡ done (none, b))
      ⊎ ((i : ℕ) × (alloc n b 0 ≡ done (some (frame_at n b i), b)) × Fits b.descriptors 0 i)
  alloc-zero = outcome_zero_of_find _ refl (find_from_start n b 0 v)
