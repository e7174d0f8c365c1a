-- ===== src/Allocator/Bitmap/Live/Runs.antt =====
-- What holds after every run of calls: live allocations are whole and share no page, and every other
-- page is free.
use native.Mathlib.Decide.{dec_lt}
use native.Mathlib.Nat.{le_of_mul-le-mul_right}
use rv.Base.{ℕ, ◌+◌, ◌*◌, ◌≤◌, ◌<◌, ◌≡◌, ◌⊎◌, inl, inr, ap, ◌∙◌, arith}
use rv.Base.{List, ◌∷◌, length, Run, done}
use rv.Allocator.{Frame}
use rv.Base.{Remove}
use rv.Allocator.Bitmap.{PageFlags, Bitmap, alloc, free}
use rv.Allocator.Bitmap.Scan.{FreeAt}
use rv.Allocator.Bitmap.Pages.{Cleared}
use rv.Allocator.Bitmap.Alloc.{frame_at, IsAllocated, alloc_outcome}
use rv.Allocator.Bitmap.Free.{free-Cleared, IsValid-descriptors}
use rv.Allocator.Bitmap.Live.{Chunk, Client, Step, allocates, is_refused, frees}
use rv.Allocator.Bitmap.Live.{Reach, start, next}
use rv.Allocator.Bitmap.Live.Invariant.{
  InSome, IsTracked, AllOwned-Apart, AllApart-free, AllOwned-Remove, InSome-Remove,
}
use rv.Allocator.Bitmap.Live.Apart.{AllApart, SameOutside-at}

outside : (i count j : ℕ) → ((i ≤ j) × (j < i + count)) ⊎ ((j < i) ⊎ (i + count ≤ j))
outside i count j = elim (dec_lt j i) [
  | yes lt ↦ inr (inl lt)
  | no ge ↦ elim (dec_lt j (i + count)) [
    | yes lt ↦ inl (omega arith, lt)
    | no ge' ↦ inr (inr (omega arith))
  ]
]

module _ (n : ℕ) (c : Client) (t : IsTracked n c) where
  alloc-IsTracked :
      (count : ℕ)
      → 0 < count
      → (a : IsAllocated n c.bitmap count (alloc n c.bitmap count))
      → IsTracked n (record {
        bitmap = record (c.bitmap) { descriptors = a.out };
        live = record { first = a.i; pages = count } ∷ c.live;
      })
  alloc-IsTracked count pos a = record {
    valid = IsValid-descriptors n c.bitmap a.out t.valid a.same.same_length;
    owned = (
      a.chunk,
      omega (arith, a.same.same_length, a.fits.inside),
      apart,
      AllOwned-Apart ds a.out new a.same c.live apart t.owned,
    );
    others_free = λ j h. still j (omega (arith, a.same.same_length)) (outside a.i count j);
  }
    where
      ds : List PageFlags
      ds = c.bitmap.descriptors

      new : Chunk
      new = record { first = a.i; pages = count }

      apart : AllApart new c.live
      apart = AllApart-free ds new a.fits.free_pages pos c.live t.owned

      still :
          (j : ℕ)
          → j < length ds
          → ((a.i ≤ j) × (j < a.i + count)) ⊎ ((j < a.i) ⊎ (a.i + count ≤ j))
          → FreeAt a.out j ⊎ InSome (new ∷ c.live) j
      still j h (inl inside) = inr (inl inside)
      still j h (inr away) = elim (t.others_free j h) [
        | inl f ↦ inl (SameOutside-at ds a.out a.i count j a.same away ∙ f)
        | inr m ↦ inr (inr m)
      ]

  -- From a tracked state, freeing a live allocation cannot panic, and the state after it is tracked.
  pub free-IsTracked :
      (d : Chunk) (rest : List Chunk)
      → Remove d c.live rest
      → (b : Bitmap) × (free n c.bitmap (frame_at n c.bitmap d.first) ≡ done b)
        × IsTracked n (record { bitmap = b; live = rest })
  free-IsTracked d rest r =
      let (chunk, inside, apart, owned) = AllOwned-Remove c.bitmap.descriptors d r t.owned in
      let (cleared, freed) =
        free-Cleared n c.bitmap d.first t.valid d.pages chunk
          (omega (arith, inside, t.valid.table)) in
      (
        record (c.bitmap) { descriptors = cleared.out },
        freed,
        record {
          valid = IsValid-descriptors n c.bitmap cleared.out t.valid cleared.same.same_length;
          owned = AllOwned-Apart c.bitmap.descriptors cleared.out d cleared.same rest apart owned;
          others_free = λ j h.
              still cleared j (omega (arith, cleared.same.same_length)) (outside d.first d.pages j);
        },
      )
    where
      ds : List PageFlags
      ds = c.bitmap.descriptors

      still :
          {r' : Run (List PageFlags)} (cleared : Cleared ds d.first d.pages r') (j : ℕ)
          → j < length ds
          → ((d.first ≤ j) × (j < d.first + d.pages)) ⊎ ((j < d.first) ⊎ (d.first + d.pages ≤ j))
          → FreeAt cleared.out j ⊎ InSome rest j
      still cleared j h (inl inside) = inl (cleared.pages j inside.0 inside.1)
      still cleared j h (inr away) = elim (t.others_free j h) [
        | inl f ↦ inl (SameOutside-at ds cleared.out d.first d.pages j cleared.same away ∙ f)
        | inr m ↦ elim (InSome-Remove d j r m) [ inl h' ↦ absurd (omega arith) | inr m' ↦ inr m' ]
      ]

frame_at_injective :
    (n : ℕ) (b : Bitmap) (i k : ℕ) → 1 ≤ n → frame_at n b i ≡ frame_at n b k → i ≡ k
frame_at_injective n b i k h e =
    let addr : b.base_addr + i * n ≡ b.base_addr + k * n = ap (λ (f : Frame). f.paddr) e in
    let le : i ≤ k = le_of_mul-le-mul_right {m = i} {n = k} {k = n} (omega arith) h in
    let ge : k ≤ i = le_of_mul-le-mul_right {m = k} {n = i} {k = n} (omega arith) h in omega arith

-- A call keeps the allocations tracked.
Step-IsTracked : (n : ℕ) {c d : Client} → Step n c d → IsTracked n c → IsTracked n d
Step-IsTracked n (allocates c count i b pos e) t =
    elim (alloc_outcome n c.bitmap count t.valid pos) [
      | inl a ↦
          let same_state : b ≡ record (c.bitmap) { descriptors = a.out } = cc (e, a.returns) in
          let same_frame : frame_at n c.bitmap i ≡ frame_at n c.bitmap a.i = cc (e, a.returns) in
          let same_page : i ≡ a.i =
            frame_at_injective n c.bitmap i a.i t.valid.page_size same_frame in
          rw (same_state, same_page) (alloc-IsTracked n c t count pos a)
      | inr refused ↦ cc (e, refused.0)
    ]
Step-IsTracked n (is_refused c count b pos e) t =
    elim (alloc_outcome n c.bitmap count t.valid pos) [
      | inl a ↦ cc (e, a.returns)
      | inr refused ↦ let same : b ≡ c.bitmap = cc (e, refused.0) in rw same t
    ]
Step-IsTracked n (frees c d rest b r e) t =
    let (b', freed, tracked) = free-IsTracked n c t d rest r in
    let same : b ≡ b' = cc (e, freed) in rw same tracked

-- After every run of calls that starts with the allocations tracked: each live allocation is a whole
-- marked range, no two share a page, and every page outside them is free.
pub Reach-IsTracked : (n : ℕ) {c d : Client} → IsTracked n c → Reach n c d → IsTracked n d
Reach-IsTracked n t start = t
Reach-IsTracked n t (next r s) = Step-IsTracked n s (Reach-IsTracked n t r)
