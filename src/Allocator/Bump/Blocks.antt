-- ===== src/Allocator/Bump/Blocks.antt =====
-- Where `alloc` of the bump allocator places a block.
use native.Mathlib.Decide.{dec_lt}
use rv.Base.{ℕ, ◌+◌, ◌-◌, ◌%◌, ◌^◌, ◌≤◌, ◌<◌, ◌≡◌, ◌⊎◌, inl, inr, arith, true}
use rv.Base.{Run, done, bit_and}
use rv.Base.Word.{is_power_of_two, is_power_of_two_sound}
use rv.Base.Bits.{bit_and_not_low}
use rv.Addr.Align.Round.{floor, one-le-align}
use rv.Addr.Align.Bounds.{IsFloor, floor-IsFloor}
use rv.Allocator.Bump.{Bump, Layout, alloc}
use rv.Allocator.{null}

-- The window is not empty space at address 0, and the free part of it lies below `ptr`.
pub record IsValid (b : Bump) : Type 0 where
  pub not_null : 0 < b.start
  pub low : b.start ≤ b.ptr
  pub high : b.ptr ≤ b.end
  pub word : b.end < 2 ^ 64
  pub reset : b.allocated ≡ 0 → b.ptr ≡ b.end

-- A block of the layout can stand at `p`.
pub record Fits (b : Bump) (layout : Layout) (p : ℕ) : Type 0 where
  pub aligned : p % layout.align ≡ 0
  pub above : b.start ≤ p
  pub below : p + layout.size ≤ b.ptr

-- A block at `p`, the highest place where it fits, has been taken.
pub record IsTaken (b : Bump) (layout : Layout) (r : Run (ℕ × Bump)) : Type 0 where
  pub p : ℕ
  pub returns : r ≡ done (p, record b { allocated = b.allocated + 1; ptr = p })
  pub fits : Fits b layout p
  pub highest : (q : ℕ) → Fits b layout q → q ≤ p

-- `top & !(align - 1)`
align_top :
    (n top : ℕ)
    → is_power_of_two n ≡ true
    → top < 2 ^ 64
    → bit_and top (2 ^ 64 - 1 - (n - 1)) ≡ floor top n
align_top n top pow h =
    let (k, hk, e) = is_power_of_two_sound n pow in rw e (bit_and_not_low k top (omega arith) h)

module _ (b : Bump) (layout : Layout) (v : IsValid b)
    (pow : is_power_of_two layout.align ≡ true) where
  place : ℕ
  place = floor (b.ptr - layout.size) layout.align

  place-IsFloor : IsFloor layout.align (b.ptr - layout.size) place
  unfolding place
  place-IsFloor = floor-IsFloor layout.align (b.ptr - layout.size) (one-le-align layout.align 0 pow)

  alloc-big : b.ptr < layout.size → alloc b layout ≡ done (null, b)
  unfolding alloc
  alloc-big h = ground arith

  alloc-low : layout.size ≤ b.ptr → place < b.start → alloc b layout ≡ done (null, b)
  unfolding alloc place
  alloc-low h l = ground (
    arith,
    one-le-align layout.align 0 pow,
    align_top layout.align (b.ptr - layout.size) pow (omega (arith, v.high, v.word)),
  )

  alloc-place :
      layout.size ≤ b.ptr
      → b.start ≤ place
      → b.allocated + 1 < 2 ^ 64
      → alloc b layout ≡ done (place, record b { allocated = b.allocated + 1; ptr = place })
  unfolding alloc place
  alloc-place h l c = ground (
    arith,
    one-le-align layout.align 0 pow,
    align_top layout.align (b.ptr - layout.size) pow (omega (arith, v.high, v.word)),
  )

  no_fit : (place < b.start) ⊎ (b.ptr < layout.size) → (p : ℕ) → ¬ Fits b layout p
  no_fit (inl low) p f =
      omega (arith, place-IsFloor.greatest p f.aligned (omega (arith, f.below)), f.above)
  no_fit (inr big) p f = omega (arith, f.below)

  -- On a valid allocator and for an alignment that is a power of two, with fewer than 2 ^ 64 - 1 live
  -- blocks, `alloc` returns, without a panic. Either it takes the highest aligned place below `ptr`
  -- where the block fits, which then is `ptr`; or no place fits, and it returns null and changes nothing.
  pub alloc_block :
      b.allocated + 1 < 2 ^ 64
      → IsTaken b layout (alloc b layout)
        ⊎ ((alloc b layout ≡ done (null, b)) × ((p : ℕ) → ¬ Fits b layout p))
  alloc_block c = elim (dec_lt b.ptr layout.size) [
    | yes big ↦ inr (alloc-big big, no_fit (inr big))
    | no room ↦ elim (dec_lt place b.start) [
      | yes low ↦ inr (alloc-low (omega arith) low, no_fit (inl low))
      | no high ↦ inl (record {
        p = place;
        returns = alloc-place (omega arith) (omega arith) c;
        fits = record {
          aligned = place-IsFloor.multiple;
          above = omega arith;
          below = omega (arith, place-IsFloor.below);
        };
        highest = λ q f. place-IsFloor.greatest q f.aligned (omega (arith, f.below));
      })
    ]
  ]
