-- ===== src/Allocator/Bitmap/Tests.antt =====
-- Runs of the bitmap allocator, after the tests in kernel/src/mm/allocator/bitmap.rs, and the theorems
-- at an allocator of four pages of 4 KiB, at 0x1000, whose second page is taken.
use rv.Base.{ℕ, ◌≡◌, refl, arith, true, some, none, ◌∷◌, [], done, panic, ok}
use rv.Base.{here, get_elem?, get_elem?-replicate, ◌+◌, ◌≤◌, ◌<◌, ◌⊎◌}
use rv.Base.Word.{is_power_of_two, is_power_of_two-pow}
use rv.Allocator.{Frame}
use rv.Allocator.Bitmap.{Bitmap, empty, init, alloc, free, find, scan, mark, clear}
use rv.Allocator.Bitmap.Scan.{Fits}
use rv.Allocator.Bitmap.Pages.{IsChunk, last_page, taken_page}
use rv.Allocator.Bitmap.Alloc.{IsValid, frame_at, Outcome, alloc_outcome, alloc-zero}
use rv.Allocator.Bitmap.Free.{free-alloc}
use rv.Allocator.Bitmap.Init.{IsFresh, init-IsFresh, IsFresh-IsTracked}
use rv.Allocator.Bitmap.Live.{Client, Reach, start, next, allocates, frees}
use rv.Allocator.Bitmap.Live.Invariant.{IsTracked}
use rv.Allocator.Bitmap.Live.Runs.{Reach-IsTracked}

abbrev holed : Bitmap
holed = record {
  descriptors = empty ∷ last_page ∷ empty ∷ empty ∷ [];
  base_addr = 0x1000;
  num_pages = 4;
}

abbrev filled : Bitmap
filled = record holed { descriptors = empty ∷ last_page ∷ taken_page ∷ last_page ∷ [] }

abbrev third : Frame
third = frame_at 4096 holed 2

holed-IsValid : IsValid 4096 holed
holed-IsValid = omega arith

alloc_two : alloc 4096 holed 2 ≡ done (some third, filled)
unfolding alloc find scan mark
alloc_two = refl

alloc_three : alloc 4096 holed 3 ≡ done (none, holed)
unfolding alloc find scan
alloc_three = refl

free_two : free 4096 filled third ≡ done holed
unfolding free clear
free_two = refl

free_inside_free_page : free 4096 filled (frame_at 4096 filled 0) ≡ panic
unfolding free clear
free_inside_free_page = refl

page_size_pow : is_power_of_two 4096 ≡ true
page_size_pow = is_power_of_two-pow 12 (omega arith)

alloc_outcome_example : Outcome 4096 holed 2 holed-IsValid
alloc_outcome_example = alloc_outcome 4096 holed 2 holed-IsValid (omega arith)

free-alloc_example : free 4096 filled third ≡ done holed
free-alloc_example = free-alloc 4096 holed filled 2 third holed-IsValid (omega arith) alloc_two

filled-IsValid : IsValid 4096 filled
filled-IsValid = omega arith

IsChunk-at_two : IsChunk filled.descriptors 2 2
IsChunk-at_two = record { some_page = omega arith; inner = inner; final = refl }
  where
    inner : (j : ℕ) → 2 ≤ j → j + 1 < 4 → get_elem? (filled.descriptors) j ≡ some taken_page
    inner j p q = let e : j ≡ 2 = omega arith in rw e

alloc-zero_example :
    (alloc 4096 holed 0 ≡ done (none, holed))
    ⊎ ((i : ℕ) × (alloc 4096 holed 0 ≡ done (some (frame_at 4096 holed i), holed))
        × Fits holed.descriptors 0 i)
alloc-zero_example = alloc-zero 4096 holed holed-IsValid

init-IsFresh_example :
    (b : Bitmap) × (init 4096 0x1000 0x6000 ≡ done (ok b)) × IsFresh 4096 0x1000 0x6000 b
init-IsFresh_example =
    init-IsFresh 4096 0x1000 0x6000 page_size_pow (omega arith) (omega arith) refl refl

abbrev fresh : Bitmap
fresh = record {
  descriptors = empty ∷ empty ∷ empty ∷ empty ∷ [];
  base_addr = 0x2000;
  num_pages = 4;
}

fresh-IsFresh : IsFresh 4096 0x1000 0x6000 fresh
fresh-IsFresh = record {
  valid = omega arith;
  all_free = λ j p q. get_elem?-replicate 4 j empty q;
  aligned = refl;
  table_below = omega arith;
  reaches_end = refl;
}

abbrev in_use : Client
in_use = record {
  bitmap = record fresh { descriptors = taken_page ∷ last_page ∷ empty ∷ empty ∷ [] };
  live = record { first = 0; pages = 2 } ∷ [];
}

-- Two pages are allocated and freed.
two_calls : Reach 4096 (record { bitmap = fresh; live = [] }) (record { bitmap = fresh; live = [] })
unfolding alloc free find scan mark clear
two_calls =
    next
      (next start
        (allocates (record { bitmap = fresh; live = [] }) 2 0 in_use.bitmap (omega arith) refl))
      (frees in_use (record { first = 0; pages = 2 }) [] fresh here refl)

Reach-IsTracked_example : IsTracked 4096 (record { bitmap = fresh; live = [] })
Reach-IsTracked_example =
    Reach-IsTracked 4096 (IsFresh-IsTracked 4096 0x1000 0x6000 fresh fresh-IsFresh) two_calls

in_use-IsTracked : IsTracked 4096 in_use
unfolding alloc find scan mark
in_use-IsTracked = Reach-IsTracked 4096 (IsFresh-IsTracked 4096 0x1000 0x6000 fresh fresh-IsFresh) (
    next start
      (allocates (record { bitmap = fresh; live = [] }) 2 0 in_use.bitmap (omega arith) refl))
