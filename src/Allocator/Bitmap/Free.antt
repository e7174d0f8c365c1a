-- ===== src/Allocator/Bitmap/Free.antt =====
-- `free` releases one allocation, undoes `alloc`, and refuses pages that are free.
use native.Mathlib.Nat.{mul-le-mul_right, mul-div_left}
use native.Mathlib.Decide.{dec_lt}
use rv.Base.{ℕ, zero, suc, ◌+◌, ◌-◌, ◌*◌, ◌≤◌, ◌<◌, ◌≡◌, sym, ap, ◌∙◌, inl, inr, arith}
use rv.Base.{some, List, done, panic, length, get_elem?-ext, ◌>>=◌}
use rv.Addr.Phys
use rv.Allocator.{Frame}
use rv.Allocator.Bitmap.{PageFlags, Bitmap, alloc, clear, free}
use rv.Allocator.Bitmap.Scan.{FreeAt, RangeFree}
use rv.Allocator.Bitmap.Pages.{IsChunk, SameOutside, Cleared, clear-Cleared, clear-FreeAt}
use rv.Allocator.Bitmap.Alloc.{IsValid, frame_at, IsAllocated, alloc_outcome}

module _ (n : ℕ) (b : Bitmap) (i : ℕ) (v : IsValid n b) where
  offset : i ≤ b.num_pages → Phys.sub (b.base_addr + i * n) b.base_addr ≡ done (i * n)
  offset h = ground (arith, mul-le-mul_right n h, v.in_memory)

  free-eq :
      i ≤ b.num_pages
      → free n b (frame_at n b i)
        ≡ (clear b.descriptors i (b.num_pages - i) >>= λ ds. done (record b { descriptors = ds }))
  unfolding free
  free-eq h = rw (offset h, mul-div_left i v.page_size)

  -- On a page that is free already, `free` panics.
  pub free-panic : i < b.num_pages → FreeAt b.descriptors i → free n b (frame_at n b i) ≡ panic
  free-panic h f =
      let e : b.num_pages - i ≡ suc (b.num_pages - i - 1) = omega arith in
      rw (free-eq (omega arith), e, clear-FreeAt b.descriptors i (b.num_pages - i - 1) f)

  -- `free` of the first page of an allocation makes its pages free and leaves all others alone.
  pub free-Cleared :
      (count : ℕ)
      → IsChunk b.descriptors i count
      → i + count ≤ b.num_pages
      → (c : Cleared b.descriptors i count (clear b.descriptors i (b.num_pages - i))) × (free n b
            (frame_at n b i)
          ≡ done (record b { descriptors = c.out }))
  free-Cleared zero c h = absurd (omega (arith, c.some_page))
  free-Cleared (suc count) c h =
      let cleared =
        clear-Cleared count b.descriptors i (b.num_pages - i) c (omega (arith, v.table))
          (omega arith) in
      (cleared, rw (free-eq (omega arith), cleared.returns))

-- A table of the same length keeps the allocator valid.
pub IsValid-descriptors :
    (n : ℕ) (b : Bitmap) (out : List PageFlags)
    → IsValid n b
    → length out ≡ length b.descriptors
    → IsValid n (record b { descriptors = out })
IsValid-descriptors n b out v e = omega (arith, v.page_size, v.table, v.in_memory, e)

-- Freeing an allocation twice: the first call frees its pages, the second one panics.
pub free-twice :
    (n : ℕ) (b : Bitmap) (i count : ℕ)
    → IsValid n b
    → IsChunk b.descriptors i count
    → i + count ≤ b.num_pages
    → (b' : Bitmap) × (free n b (frame_at n b i) ≡ done b')
      × RangeFree b'.descriptors i count
      × (free n b' (frame_at n b i) ≡ panic)
free-twice n b i count v c h =
    let (cleared, freed) = free-Cleared n b i v count c h in
    let b' : Bitmap = record b { descriptors = cleared.out } in
    (
      b',
      freed,
      cleared.pages,
      free-panic n b' i (IsValid-descriptors n b cleared.out v cleared.same.same_length)
          (omega (arith, c.some_page, h))
          (cleared.pages i (omega arith) (omega (arith, c.some_page))),
    )

-- Clearing what was marked gives the table back.
cleared-eq :
    (ds out back : List PageFlags) (i count : ℕ)
    → RangeFree ds i count
    → SameOutside ds out i count
    → SameOutside out back i count
    → RangeFree back i count
    → back ≡ ds
cleared-eq ds out back i count f s s' f' =
    get_elem?-ext back ds (s'.same_length ∙ s.same_length) λ j h. elim (dec_lt j i) [
      | yes lt ↦ s'.below j lt ∙ s.below j lt
      | no ge ↦ elim (dec_lt j (i + count)) [
        | yes lt ↦ f' j (omega arith) lt ∙ sym (f j (omega arith) lt)
        | no ge' ↦ s'.above j (omega arith) ∙ s.above j (omega arith)
      ]
    ]

undo_allocated :
    (n : ℕ) (b : Bitmap) (count : ℕ)
    → IsValid n b
    → (a : IsAllocated n b count (alloc n b count))
    → free n (record b { descriptors = a.out }) (frame_at n b a.i) ≡ done b
undo_allocated n b count v a =
    let b' : Bitmap = record b { descriptors = a.out } in
    let v' = IsValid-descriptors n b a.out v a.same.same_length in
    let (cleared, freed) =
      free-Cleared n b' a.i v' count a.chunk (omega (arith, a.fits.inside, v.table)) in
    freed
    ∙ ap (λ (ds : List PageFlags). done (record b { descriptors = ds }))
        (cleared-eq b.descriptors a.out cleared.out a.i count a.fits.free_pages a.same cleared.same
          cleared.pages)

-- `free` undoes `alloc`: freeing the frame of a successful allocation gives back the allocator as it was
-- before.
pub free-alloc :
    (n : ℕ) (b b' : Bitmap) (count : ℕ) (frame : Frame)
    → IsValid n b
    → 0 < count
    → alloc n b count ≡ done (some frame, b')
    → free n b' frame ≡ done b
free-alloc n b b' count frame v pos h = elim (alloc_outcome n b count v pos) [
  | inl a ↦
      let eq_frame : frame ≡ frame_at n b a.i = cc (h, a.returns) in
      let eq_state : b' ≡ record b { descriptors = a.out } = cc (h, a.returns) in
      rw (eq_frame, eq_state) (undo_allocated n b count v a)
  | inr no_room ↦ cc (h, no_room.0)
]
